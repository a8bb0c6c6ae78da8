-- ===== src/Base/Texts.antt =====
-- Python's `str`, as the list of its code points, and the methods of `str` that the program uses.
use Prim.Native.Nat.{ℕ, ◌+◌}
use Prim.Native.Char.{code}
use Prim.Native.String.{String}
use mathlib.Core.Path.{◌≡◌, refl}
use mathlib.Core.Logic.{◌↔◌, ◌≢◌, inl, inr, dite}
use mathlib.Core.Bool.{Bool, true, false, ◌||◌, ◌&&◌, Bool-discrete}
use mathlib.Core.List.{List, [], ◌∷◌, ◌++◌, map}
use native.Mathlib.Omega.{arith}
use mcp_contract.Base.Logic.{Bool-cases, Eq, ◌==◌, if◌then◌else◌, nat_beq, leb, nat_eq}

abbrev pub Text : Type 0
Text = List ℕ

-- A literal.
abbrev pub txt : String → Text
txt String.[] = []
txt (String.◌∷◌ c s) = code c ∷ txt s

pub same_text : Text → Text → Bool
same_text [] [] = true
same_text (c ∷ s) (d ∷ t) = nat_beq c d && same_text s t
same_text _ _ = false

pub same_text_iff : (s t : Text) → (same_text s t ≡ true) ↔ (s ≡ t)
unfolding same_text
same_text_iff [] [] = ground arith
same_text_iff [] (d ∷ t) = ground arith
same_text_iff (c ∷ s) [] = ground arith
same_text_iff (c ∷ s) (d ∷ t) = ground (arith, same_text_iff s t)

-- Shut in proofs, where a split on `s == t` yields the equation or its negation.
instance unfoldable pub text_eq : Eq Text
unfolding same_text
text_eq = record {
  dec = λ s t.
      dite (Bool-discrete (same_text s t) true) (λ same. yes ((same_text_iff s t).0 same))
        (λ differ. no (λ p. differ ((same_text_iff s t).1 p)));
}

-- `s.lower()`, of the ASCII letters.
unfoldable pub lower_code : ℕ → ℕ
lower_code c = if leb b'A' c && leb c b'Z' then c + 32 else c

abbrev pub lower : Text → Text
lower = map lower_code

-- `s.startswith(p)`
unfoldable pub starts_with : Text → Text → Bool
starts_with s [] = true
starts_with [] (d ∷ p) = false
starts_with (c ∷ s) (d ∷ p) = nat_beq c d && starts_with s p

-- `s.endswith(p)`
unfoldable pub ends_with : Text → Text → Bool
ends_with [] p = [] == p
ends_with (c ∷ s) p = (c ∷ s) == p || ends_with s p

-- `s.split(sep)` for a separator of one character.
unfoldable pub split_from : ℕ → Text → Text → List Text
split_from sep cur [] = cur ∷ []
split_from sep cur (c ∷ s) =
    let closed = cur ∷ split_from sep [] s in
    let longer = split_from sep (cur ++ c ∷ []) s in if nat_beq c sep then closed else longer

abbrev pub split : ℕ → Text → List Text
split sep s = split_from sep [] s

-- `sep.join(parts)`
unfoldable pub join : Text → List Text → Text
join sep [] = []
join sep (p ∷ []) = p
join sep (p ∷ q ∷ ps) = p ++ (sep ++ join sep (q ∷ ps))

pub starts_with_iff : (s p : Text) → (starts_with s p ≡ true) ↔ ((r : Text) × (s ≡ p ++ r))
unfolding starts_with
starts_with_iff s [] = (λ h. (s, refl), λ h. refl)
starts_with_iff [] (d ∷ p) = (λ h. cc, λ h. cc (h.1))
starts_with_iff (c ∷ s) (d ∷ p) = (
  λ h.
      let (r, e) = (starts_with_iff s p).0 (ground arith) in
      let same : c ≡ d = ground arith in (r, cc),
  λ (r, e). ground (arith, (starts_with_iff s p).1 (r, cc)),
)

nil-ne-append : (d : ℕ) (p r : Text) → [] ≢ r ++ d ∷ p
nil-ne-append d p [] = cc
nil-ne-append d p (c ∷ r) = cc

ends_with_cons :
    (c : ℕ) (s p r : Text)
    → c ∷ s ≡ r ++ p
    → (((q : Text) × (s ≡ q ++ p)) → ends_with s p ≡ true)
    → ends_with (c ∷ s) p ≡ true
unfolding ends_with
ends_with_cons c s p [] e h = ground arith
ends_with_cons c s p (d ∷ r) e h = ground (arith, h (r, cc))

pub ends_with_iff : (s p : Text) → (ends_with s p ≡ true) ↔ ((r : Text) × (s ≡ r ++ p))
unfolding ends_with
ends_with_iff [] [] = (λ h. ([], refl), λ h. ground arith)
ends_with_iff [] (d ∷ p) = (λ h. ([], ground arith), λ h. absurd (nil-ne-append d p h.0 h.1))
ends_with_iff (c ∷ s) p = (
  λ h. elim (Bool-cases ((c ∷ s) == p)) [
    | inl same ↦ ([], ground arith)
    | inr other ↦ let (r, e) = (ends_with_iff s p).0 (ground arith) in (c ∷ r, cc)
  ],
  λ (r, e). ends_with_cons c s p r e (ends_with_iff s p).1,
)

-- ===== src/Regex/Matches.antt =====
-- The parts of a text that `finditer` cuts out are matches.
use mcp_contract.Base.{
  All-intro, All-map, All, ℕ, zero, suc, ◌-◌, ◌≡◌, inl, inr, refl, sym, ap, ◌∙◌, [], ◌∷◌, ◌++◌,
  append_assoc, Option, none, some, take, arith, In, length-append, Option-cases, Text, text_eq,
  nat_eq,
}
use mcp_contract.Regex.{
  Regex, blank, one, seq, alt, many, not_behind, not_ahead, edge, match_at, span, hits_of, pieces,
  find_iter, find_all,
}
use mcp_contract.Regex.Laws.{Reading, Rounds, done, round, Reads, run-IsSound}

-- A reading ends in the text that it starts in.
abbrev IsForward : Reading → Type 0
IsForward R =
    (b : Option ℕ) (s : Text) (b' : Option ℕ) (s' : Text) → R b s b' s' → (u : Text) × (s ≡ u ++ s')

joined : (u v s' : Text) {s s1 : Text} → s ≡ u ++ s1 → s1 ≡ v ++ s' → s ≡ (u ++ v) ++ s'
joined u v s' e f = e ∙ (ap (λ t. u ++ t) f ∙ sym (append_assoc u v s'))

Rounds-IsForward :
    (R : Reading)
    → IsForward R
    → (b' : Option ℕ) (s' : Text) (b : Option ℕ) (s : Text) → Rounds R b' s' b s
    → (u : Text) × (s ≡ u ++ s')
Rounds-IsForward R h b' s' b s (done p q) = ([], sym q)
Rounds-IsForward R h b' s' b s (round b1 s1 r less rs) =
    let (u, e) = h b s b1 s1 r in
    let (v, f) = Rounds-IsForward R h b' s' b1 s1 rs in (u ++ v, joined u v s' e f)

Reads-IsForward : (r : Regex) → IsForward (Reads r)
Reads-IsForward blank b s b' s' (e, q) = ([], sym q)
Reads-IsForward (one p) b s b' s' (c, e, y, q) = (c ∷ [], e)
Reads-IsForward (seq r q) b s b' s' (b1, s1, x, y) =
    let (u, e) = Reads-IsForward r b s b1 s1 x in
    let (v, f) = Reads-IsForward q b1 s1 b' s' y in (u ++ v, joined u v s' e f)
Reads-IsForward (alt r q) b s b' s' (inl x) = Reads-IsForward r b s b' s' x
Reads-IsForward (alt r q) b s b' s' (inr y) = Reads-IsForward q b s b' s' y
Reads-IsForward (many r) b s b' s' rs = Rounds-IsForward (Reads r) (Reads-IsForward r) b' s' b s rs
Reads-IsForward (not_behind p) b s b' s' (e, q, y) = ([], sym q)
Reads-IsForward (not_ahead p) b s b' s' (e, q, y) = ([], sym q)
Reads-IsForward (edge p) b s b' s' (e, q, y) = ([], sym q)

zero_span : (rest : Text) → span rest rest ≡ 0
zero_span rest = omega arith

suc-span : (c : ℕ) (u rest : Text) → span (c ∷ (u ++ rest)) rest ≡ suc (span (u ++ rest) rest)
suc-span c u rest = omega (arith, length-append u rest)

take-span : (u rest : Text) → take (span (u ++ rest) rest) (u ++ rest) ≡ u
take-span [] rest = rw (zero_span rest)
take-span (c ∷ u) rest = rw (suc-span c u rest) (ap (λ t. c ∷ t) (take-span u rest))

-- A match in a text: what is read, and what follows it.
abbrev pub IsMatch : Regex → Text → Text → Text → Type 0
IsMatch r s t rest =
    (front : Text) × (b b' : Option ℕ) × (s ≡ front ++ (t ++ rest)) × Reads r b (t ++ rest) b' rest

later :
    (r : Regex) (t rest : Text) (c : ℕ) (s : Text) → IsMatch r s t rest → IsMatch r (c ∷ s) t rest
later r t rest c s (front, b, b', e, x) = (c ∷ front, b, b', ap (λ s. c ∷ s) e, x)

pair_parts : {a b c d : Text} → ◌≡◌ {A = Text × Text} (a, b) (c, d) → (a ≡ c) × (b ≡ d)
pair_parts h = (cc, cc)

splits :
    (r : Regex) (b b' : Option ℕ) (u rest : Text)
    → Reads r b (u ++ rest) b' rest
    → IsMatch r (u ++ rest) (take (span (u ++ rest) rest) (u ++ rest)) rest
splits r b b' u rest x = rw take-span ([], b, b', refl, x)

match_at-splits :
    (r : Regex) (b : Option ℕ) (s rest : Text)
    → match_at r b s ≡ some rest
    → IsMatch r s (take (span s rest) s) rest
match_at-splits r b s rest h =
    let (b', s', x, g) = run-IsSound r b s (λ _ rest. some rest) rest h in
    let (u, e) = Reads-IsForward r b s b' s' x in
    let same : s' ≡ rest = cc in
    let split : s ≡ u ++ rest = rw same at e in
    rw split (splits r b b' u rest (rw (same, split) at x))

hit_or_later :
    (r : Regex) (b : Option ℕ) (c : ℕ) (s t rest u : Text)
    → match_at r b (c ∷ s) ≡ some u
    → In
        (t, rest)
        ((take (span (c ∷ s) u) (c ∷ s), u) ∷ hits_of (pieces r (some c) (span (c ∷ s) u - 1) s))
    → (In (t, rest) (hits_of (pieces r (some c) (span (c ∷ s) u - 1) s)) → IsMatch r s t rest)
    → IsMatch r (c ∷ s) t rest
hit_or_later r b c s t rest u e (inl same) ih =
    let (p, q) = pair_parts same in rw (p, q) (match_at-splits r b (c ∷ s) u e)
hit_or_later r b c s t rest u e (inr i) ih = later r t rest c s (ih i)

pieces-IsMatch :
    (r : Regex) (b : Option ℕ) (skip : ℕ) (s t rest : Text)
    → In (t, rest) (hits_of (pieces r b skip s))
    → IsMatch r s t rest
unfolding pieces
pieces-IsMatch r b skip [] t rest i = elim i [ ]
pieces-IsMatch r b (suc skip) (c ∷ s) t rest i =
    later r t rest c s (pieces-IsMatch r (some c) skip s t rest i)
pieces-IsMatch r b zero (c ∷ s) t rest i = elim (Option-cases (match_at r b (c ∷ s))) [
  | inl e ↦ later r t rest c s (pieces-IsMatch r (some c) 0 s t rest (rw (e, pieces) at i))
  | inr (u, e) ↦
      hit_or_later r b c s t rest u e (rw (e, pieces) at i)
        (pieces-IsMatch r (some c) (span (c ∷ s) u - 1) s t rest)
]

-- Each match that `finditer` gives stands in the text, and the pattern reads it there.
pub find_iter-IsMatch :
    (r : Regex) (s t rest : Text) → In (t, rest) (find_iter r s) → IsMatch r s t rest
find_iter-IsMatch r s t rest = pieces-IsMatch r none 0 s t rest

-- Each text that `findall` gives stands in the text and is read there.
pub find_all-IsMatch :
    (r : Regex) (s : Text) → All (λ t. (rest : Text) × IsMatch r s t rest) (find_all r s)
find_all-IsMatch r s =
    All-map (λ t. (rest : Text) × IsMatch r s t rest) (λ ((t, rest) : Text × Text). t)
      (find_iter r s)
      (All-intro _ (find_iter r s) (λ (t, rest) i. (rest, find_iter-IsMatch r s t rest i)))

-- ===== src/Bcm/Diff/Hosts.antt =====
-- What `host_matches` accepts.
use mcp_contract.Base.{
  suc, ◌<◌, ◌≡◌, ◌≢◌, ◌↔◌, ◌⊎◌, inl, inr, refl, sym, ap, ◌∙◌, Bool, true, false, ◌&&◌, List, [],
  ◌∷◌, ◌++◌, length, leb, arith, length-append, Bool-cases, Text, txt, text_eq, nat_eq, lower,
  starts_with, ends_with, split, starts_with_iff, ends_with_iff,
}
use mathlib.Core.Bool.{false≢true}
use mcp_contract.Bcm.Diff.{wildcard, host_matches_one, host_matches}

-- `h` is a proper subdomain of what follows "*." in the pattern.
abbrev pub Subdomain : Text → Text → Type 0
Subdomain h p =
    (sub rest : Text) × (sub ≢ []) × (p ≡ txt "*." ++ rest) × (h ≡ sub ++ (txt "." ++ rest))

-- A host and a pattern in lower case: the pattern is "*", or the host itself, or a wildcard over
-- its subdomains.
abbrev pub Names : Text → Text → Type 0
Names h p = (p ≡ wildcard) ⊎ (h ≡ p) ⊎ Subdomain h p

length-pos : (s : Text) → s ≢ [] → 0 < length s
length-pos [] h = absurd (h refl)
length-pos (c ∷ s) h = omega arith

long_suffix : Text → Text → Bool
long_suffix h suffix = leb (suc (length suffix)) (length h) && ends_with h suffix

long_suffix_iff :
    (h suffix : Text)
    → (long_suffix h suffix ≡ true) ↔ ((sub : Text) × (sub ≢ []) × (h ≡ sub ++ suffix))
unfolding long_suffix
long_suffix_iff h suffix = (
  λ e.
      let (sub, split) = (ends_with_iff h suffix).0 (ground arith) in
      (
        sub,
        λ none_left. ground (arith, ap length (split ∙ ap (λ (s : Text). s ++ suffix) none_left)),
        split,
      ),
  λ (sub, long, split). ground (
    arith,
    (ends_with_iff h suffix).1 (sub, split),
    ap length split,
    length-append sub suffix,
    length-pos sub long,
  ),
)

host_matches_one-wild :
    (h r : Text) → host_matches_one h (txt "*." ++ r) ≡ long_suffix h (txt "." ++ r)
unfolding host_matches_one long_suffix starts_with
host_matches_one-wild h r = ground arith

host_matches_one-plain :
    (h p : Text)
    → starts_with p (txt "*.") ≡ false
    → (host_matches_one h p ≡ true) ↔ ((p ≡ wildcard) ⊎ (h ≡ p))
unfolding host_matches_one
host_matches_one-plain h p e = ground arith

Names-wild : (h r : Text) → (long_suffix h (txt "." ++ r) ≡ true) ↔ Names h (txt "*." ++ r)
Names-wild h r = (
  λ e.
      let (sub, long, split) = (long_suffix_iff h (txt "." ++ r)).0 e in
      inr (inr (sub, r, long, refl, split)),
  λ n. elim n [
    | inl e ↦ cc
    | inr (inl e) ↦ (long_suffix_iff h (txt "." ++ r)).1 (txt "*", cc, e)
    | inr (inr (sub, rest, long, same, split)) ↦
        (long_suffix_iff h (txt "." ++ r)).1 (sub, long, cc)
  ],
)

Names-plain :
    (h p : Text) → starts_with p (txt "*.") ≡ false → ((p ≡ wildcard) ⊎ (h ≡ p)) ↔ Names h p
Names-plain h p e = (
  λ n. elim n [ inl q ↦ inl q | inr q ↦ inr (inl q) ],
  λ n. elim n [
    | inl q ↦ inl q
    | inr (inl q) ↦ inr q
    | inr (inr (sub, rest, long, same, split)) ↦
        absurd (false≢true (sym e ∙ (starts_with_iff p (txt "*.")).1 (rest, same)))
  ],
)

host_matches_one_iff : (h p : Text) → (host_matches_one h p ≡ true) ↔ Names h p
host_matches_one_iff h p = elim (Bool-cases (starts_with p (txt "*."))) [
  | inl t ↦
      let (r, e) = (starts_with_iff p (txt "*.")).0 t in
      rw (e, host_matches_one-wild h r) (Names-wild h r)
  | inr f ↦
      let matches = host_matches_one-plain h p f in
      let names = Names-plain h p f in (λ m. names.0 (matches.0 m), λ n. matches.1 (names.1 n))
]

-- Some pattern of the list names the host.
abbrev pub NamesSome : Text → List Text → Type 0
NamesSome host [] = ⊥
NamesSome host (p ∷ ps) = Names (lower host) (lower p) ⊎ NamesSome host ps

-- `host_matches` accepts exactly the hosts that some pattern names, letter case aside: by "*", by
-- the host itself, or by "*.suffix" for a host with at least one more label in front of ".suffix".
pub host_matches_iff :
    (host : Text) (patterns : List Text)
    → (host_matches host patterns ≡ true) ↔ NamesSome host patterns
unfolding host_matches
host_matches_iff host [] = ground arith
host_matches_iff host (p ∷ ps) =
    ground (arith, host_matches_one_iff (lower host) (lower p), host_matches_iff host ps)

-- ===== src/Regex/Laws.antt =====
-- The matcher finds a match exactly where one is, for every pattern.
use mcp_contract.Base.{
  ℕ, zero, suc, ◌<◌, ◌≤◌, ◌≡◌, ◌↔◌, ◌⊎◌, inl, inr, refl, ◌∙◌, Bool, true, false, [], ◌∷◌, Option,
  none, some, if◌then◌else◌, length, take, arith, Option-cases, Text, text_eq, nat_eq,
}
use mcp_contract.Regex.{
  Regex, blank, one, seq, alt, many, not_behind, not_ahead, edge, is_behind, is_ahead, at_edge,
  Next, shorter, rounds, run, match_at, search_from, first_match, span,
}

abbrev pub Reading : Type 1
Reading = Option ℕ → Text → Option ℕ → Text → Type 0

-- Rounds that each read something, up to the place `b'` and `s'`.
pub data Rounds (R : Reading) (b' : Option ℕ) (s' : Text) : Option ℕ → Text → Type 0 where
  done : {b : Option ℕ} {s : Text} → b' ≡ b → s' ≡ s → Rounds R b' s' b s
  round :
      {b : Option ℕ} {s : Text} (b1 : Option ℕ) (s1 : Text)
      → R b s b1 s1
      → length s1 < length s
      → Rounds R b' s' b1 s1
      → Rounds R b' s' b s

abbrev pub Repeated : Reading → Reading
Repeated R b s b' s' = Rounds R b' s' b s

-- What a pattern means: from which place to which it reads.
abbrev pub Reads : Regex → Reading
Reads blank b s b' s' = (b' ≡ b) × (s' ≡ s)
Reads (one p) b s b' s' = (c : ℕ) × (s ≡ c ∷ s') × (p c ≡ true) × (b' ≡ some c)
Reads (seq r q) b s b' s' = (b1 : Option ℕ) × (s1 : Text) × Reads r b s b1 s1 × Reads q b1 s1 b' s'
Reads (alt r q) b s b' s' = Reads r b s b' s' ⊎ Reads q b s b' s'
Reads (many r) b s b' s' = Rounds (Reads r) b' s' b s
Reads (not_behind p) b s b' s' = (b' ≡ b) × (s' ≡ s) × (is_behind p b ≡ false)
Reads (not_ahead p) b s b' s' = (b' ≡ b) × (s' ≡ s) × (is_ahead p s ≡ false)
Reads (edge p) b s b' s' = (b' ≡ b) × (s' ≡ s) × (at_edge p b s ≡ true)

-- A matcher finds a reading that the rest accepts.
abbrev Found : Reading → Option ℕ → Text → Next → Text → Type 0
Found R b s k t = (b' : Option ℕ) × (s' : Text) × R b s b' s' × (k b' s' ≡ some t)

abbrev Matcher : Type 0
Matcher = Option ℕ → Text → Next → Option Text

abbrev IsSound : Reading → Matcher → Type 0
IsSound R m = (b : Option ℕ) (s : Text) (k : Next) (t : Text) → m b s k ≡ some t → Found R b s k t

abbrev IsComplete : Reading → Matcher → Type 0
IsComplete R m =
    (b : Option ℕ) (s : Text) (k : Next) (t : Text)
    → Found R b s k t
    → (u : Text) × (m b s k ≡ some u)

if_shorter-some :
    (b : Bool) (o : Option Text) (t : Text)
    → (if b then o else none) ≡ some t
    → (b ≡ true) × (o ≡ some t)
if_shorter-some true o t h = (refl, h)
if_shorter-some false o t h = cc

unless-some :
    (b : Bool) (o : Option Text) (t : Text)
    → (if b then none else o) ≡ some t
    → (b ≡ false) × (o ≡ some t)
unless-some true o t h = cc
unless-some false o t h = (refl, h)

shorter_iff : (s t : Text) → (shorter s t ≡ true) ↔ (length s < length t)
shorter_iff s t = ground arith

rounds-IsSound :
    (R : Reading) (m : Matcher) → IsSound R m → (n : ℕ) → IsSound (Repeated R) (rounds m n)
unfolding rounds
rounds-IsSound R m sound zero b s k t h = (b, s, done refl refl, h)
rounds-IsSound R m sound (suc n) b s k t h =
    let again = λ (b' : Option ℕ) (s' : Text). if shorter s' s then rounds m n b' s' k else none in
    elim (Option-cases (m b s again)) [
      | inl e ↦ (b, s, done refl refl, rw (e, rounds) at h)
      | inr (u, e) ↦
          (let (b1, s1, r, g) = sound b s again u e in
            let (less, g') = if_shorter-some (shorter s1 s) (rounds m n b1 s1 k) u g in
            let (b2, s2, rs, g2) = rounds-IsSound R m sound n b1 s1 k u g' in
            let same : some u ≡ some t = rw (e, rounds) at h in
            (b2, s2, round b1 s1 r ((shorter_iff s1 s).0 less) rs, g2 ∙ same))
    ]

pub run-IsSound : (r : Regex) → IsSound (Reads r) (run r)
unfolding run
run-IsSound blank b s k t h = (b, s, (refl, refl), h)
run-IsSound (one p) b [] k t h = cc
run-IsSound (one p) b (c ∷ s) k t h =
    let (e, g) = if_shorter-some (p c) (k (some c) s) t h in (some c, s, (c, refl, e, refl), g)
run-IsSound (seq r q) b s k t h =
    let (b1, s1, x, g) = run-IsSound r b s (λ b' s'. run q b' s' k) t h in
    let (b2, s2, y, g2) = run-IsSound q b1 s1 k t g in (b2, s2, (b1, s1, x, y), g2)
run-IsSound (alt r q) b s k t h = elim (Option-cases (run r b s k)) [
  | inl e ↦ (let (b1, s1, x, g) = run-IsSound q b s k t (rw (e, run) at h) in (b1, s1, inr x, g))
  | inr (u, e) ↦
      (let same : some u ≡ some t = rw (e, run) at h in
        let (b1, s1, x, g) = run-IsSound r b s k u e in (b1, s1, inl x, g ∙ same))
]
run-IsSound (many r) b s k t h =
    rounds-IsSound (Reads r) (run r) (run-IsSound r) (length s) b s k t h
run-IsSound (not_behind p) b s k t h =
    let (e, g) = unless-some (is_behind p b) (k b s) t h in (b, s, (refl, refl, e), g)
run-IsSound (not_ahead p) b s k t h =
    let (e, g) = unless-some (is_ahead p s) (k b s) t h in (b, s, (refl, refl, e), g)
run-IsSound (edge p) b s k t h =
    let (e, g) = if_shorter-some (at_edge p b s) (k b s) t h in (b, s, (refl, refl, e), g)

rounds-IsComplete :
    (R : Reading) (m : Matcher)
    → IsComplete R m
    → (n : ℕ) (b : Option ℕ) (s : Text) (k : Next) (t : Text) → length s ≤ n
    → Found (Repeated R) b s k t
    → (u : Text) × (rounds m n b s k ≡ some u)
unfolding rounds
rounds-IsComplete R m complete zero b s k t h (b', s', done p q, g) = (t, rw (p, q) at g)
rounds-IsComplete R m complete zero b s k t h (b', s', round b1 s1 r less rs, g) =
    absurd (omega arith)
rounds-IsComplete R m complete (suc n) b s k t h (b', s', done p q, g) =
    let again = λ (b' : Option ℕ) (s' : Text). if shorter s' s then rounds m n b' s' k else none in
    elim (Option-cases (m b s again)) [
      | inl e ↦ (t, rw (rounds, e) (rw (p, q) at g))
      | inr (u, e) ↦ (u, rw (rounds, e))
    ]
rounds-IsComplete R m complete (suc n) b s k t h (b', s', round b1 s1 r less rs, g) =
    let again = λ (b' : Option ℕ) (s' : Text). if shorter s' s then rounds m n b' s' k else none in
    let (v, f) = rounds-IsComplete R m complete n b1 s1 k t (omega arith) (b', s', rs, g) in
    let goes_on : again b1 s1 ≡ some v = rw ((shorter_iff s1 s).1 less) f in
    let (u, e) = complete b s again v (b1, s1, r, goes_on) in (u, rw (rounds, e))

run-IsComplete : (r : Regex) → IsComplete (Reads r) (run r)
unfolding run
run-IsComplete blank b s k t (b', s', (p, q), g) = (t, rw (p, q) at g)
run-IsComplete (one p) b s k t (b', s', (c, e, y, q), g) = (t, rw (e, y) (rw q at g))
run-IsComplete (seq r q) b s k t (b', s', (b1, s1, x, y), g) =
    let (u, e) = run-IsComplete q b1 s1 k t (b', s', y, g) in
    run-IsComplete r b s (λ b' s'. run q b' s' k) u (b1, s1, x, e)
run-IsComplete (alt r q) b s k t (b', s', inl x, g) =
    let (u, e) = run-IsComplete r b s k t (b', s', x, g) in (u, rw e)
run-IsComplete (alt r q) b s k t (b', s', inr y, g) = elim (Option-cases (run r b s k)) [
  | inl e ↦ (let (u, f) = run-IsComplete q b s k t (b', s', y, g) in (u, rw (e, f)))
  | inr (u, e) ↦ (u, rw e)
]
run-IsComplete (many r) b s k t f =
    rounds-IsComplete (Reads r) (run r) (run-IsComplete r) (length s) b s k t (omega arith) f
run-IsComplete (not_behind p) b s k t (b', s', (e, q, y), g) = (t, rw y (rw (e, q) at g))
run-IsComplete (not_ahead p) b s k t (b', s', (e, q, y), g) = (t, rw y (rw (e, q) at g))
run-IsComplete (edge p) b s k t (b', s', (e, q, y), g) = (t, rw y (rw (e, q) at g))

pub match_at_iff :
    (r : Regex) (b : Option ℕ) (s : Text)
    → ((t : Text) × (match_at r b s ≡ some t)) ↔ ((b' : Option ℕ) × (s' : Text) × Reads r b s b' s')
match_at_iff r b s = (
  λ (t, e). let (b', s', x, g) = run-IsSound r b s (λ _ rest. some rest) t e in (b', s', x),
  λ (b', s', x). run-IsComplete r b s (λ _ rest. some rest) s' (b', s', x, refl),
)

-- The pattern reads something from a place of the text on.
abbrev pub OccursFrom : Regex → Option ℕ → Text → Type 0
OccursFrom r b [] = (b' : Option ℕ) × (s' : Text) × Reads r b [] b' s'
OccursFrom r b (c ∷ s) =
    ((b' : Option ℕ) × (s' : Text) × Reads r b (c ∷ s) b' s') ⊎ OccursFrom r (some c) s

abbrev pub Occurs : Regex → Text → Type 0
Occurs r s = OccursFrom r none s

search_from_iff :
    (r : Regex) (b : Option ℕ) (s : Text)
    → ((t : Text) × (search_from r b s ≡ some t)) ↔ OccursFrom r b s
unfolding search_from
search_from_iff r b [] = elim (Option-cases (match_at r b [])) [
  | inl e ↦ (λ (t, h). cc (rw (search_from, e) at h), λ o. cc (((match_at_iff r b []).1 o).1, e))
  | inr (u, e) ↦ (λ (t, h). (match_at_iff r b []).0 (u, e), λ o. ([], rw (search_from, e)))
]
search_from_iff r b (c ∷ s) = elim (Option-cases (match_at r b (c ∷ s))) [
  | inl e ↦ (
    λ (t, h). inr ((search_from_iff r (some c) s).0 (t, rw (search_from, e) at h)),
    λ o. elim o [
      | inl x ↦ cc (((match_at_iff r b (c ∷ s)).1 x).1, e)
      | inr y ↦ (let (t, f) = (search_from_iff r (some c) s).1 y in (t, rw (search_from, e) f))
    ],
  )
  | inr (u, e) ↦ (
    λ (t, h). inl ((match_at_iff r b (c ∷ s)).0 (u, e)),
    λ o. (take (span (c ∷ s) u) (c ∷ s), rw (search_from, e)),
  )
]

-- `search` finds a match exactly where the text has one.
pub first_match_iff :
    (r : Regex) (s : Text) → ((t : Text) × (first_match r s ≡ some t)) ↔ Occurs r s
first_match_iff r s = search_from_iff r none s

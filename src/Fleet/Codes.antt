-- ===== src/Fleet/Codes.antt =====
-- The exit code of a fleet and the statuses of its runs, about `fleet.py`.
use mcp_contract.Base.{
  ℕ, ◌≡◌, ◌≢◌, ◌↔◌, ◌⊎◌, inl, inr, refl, Bool, true, false, List, [], ◌∷◌, map, if◌then◌else◌, any,
  arith, In, All, subst, text_eq, nat_eq, Result, ok, err, Exception, Result-cases, traverse,
}
use mcp_contract.Base.{bind-ok}
use mcp_contract.Models.{id_eq, status_eq, class_eq}
use mcp_contract.Fleet.Launch.{Server}
use mcp_contract.Fleet.Verdicts.{Status, clean, violation, rug_pull, skipped, error, ServerReport}
use mcp_contract.Fleet.Aggregate.{is_rug_pull, is_violation, is_bad_input, exit_code}

-- Some run has the status.
abbrev pub Has : Status → List ServerReport → Type 0
Has s [] = ⊥
Has s (r ∷ runs) = (r.status ≡ s) ⊎ Has s runs

rug_pull_test : (s : Status) → (is_rug_pull s ≡ true) ↔ (s ≡ rug_pull)
rug_pull_test clean = ground arith
rug_pull_test violation = ground arith
rug_pull_test rug_pull = ground arith
rug_pull_test skipped = ground arith
rug_pull_test error = ground arith

violation_test : (s : Status) → (is_violation s ≡ true) ↔ (s ≡ violation)
violation_test clean = ground arith
violation_test violation = ground arith
violation_test rug_pull = ground arith
violation_test skipped = ground arith
violation_test error = ground arith

any-rug_pull :
    (runs : List ServerReport) → (any (λ r. is_rug_pull r.status) runs ≡ true) ↔ Has rug_pull runs
any-rug_pull [] = ground arith
any-rug_pull (r ∷ runs) = ground (arith, rug_pull_test r.status, any-rug_pull runs)

any-violation :
    (runs : List ServerReport) → (any (λ r. is_violation r.status) runs ≡ true) ↔ Has violation runs
any-violation [] = ground arith
any-violation (r ∷ runs) = ground (arith, violation_test r.status, any-violation runs)

clean_test :
    (s : Status)
    → ((is_rug_pull s ≡ false) × (is_violation s ≡ false) × (is_bad_input s ≡ false)) ↔ (s ≡ clean)
clean_test clean = ground arith
clean_test violation = ground arith
clean_test rug_pull = ground arith
clean_test skipped = ground arith
clean_test error = ground arith

all-clean :
    (runs : List ServerReport)
    → ((any (λ r. is_rug_pull r.status) runs ≡ false)
        × (any (λ r. is_violation r.status) runs ≡ false)
        × (any (λ r. is_bad_input r.status) runs ≡ false))
      ↔ All (λ r. r.status ≡ clean) runs
all-clean [] = ground arith
all-clean (r ∷ runs) = ground (arith, clean_test r.status, all-clean runs)

abbrev code_of : Bool → Bool → Bool → ℕ
code_of a b c = if a then 2 else if b then 1 else if c then 4 else 0

exit_cases :
    (a b c : Bool)
    → ((code_of a b c ≡ 2) ↔ (a ≡ true))
      × ((code_of a b c ≡ 1) ↔ ((a ≢ true) × (b ≡ true)))
      × ((code_of a b c ≡ 0) ↔ ((a ≡ false) × (b ≡ false) × (c ≡ false)))
exit_cases true b c = ground arith
exit_cases false true c = ground arith
exit_cases false false true = ground arith
exit_cases false false false = ground arith

-- The exit code of a fleet is 2 exactly where some run found a rug pull, else 1 exactly where some
-- run found a violation, and 0 exactly where every run is clean.
pub exit_code_iff :
    (runs : List ServerReport)
    → ((exit_code runs ≡ 2) ↔ Has rug_pull runs)
      × ((exit_code runs ≡ 1) ↔ (¬ (Has rug_pull runs) × Has violation runs))
      × ((exit_code runs ≡ 0) ↔ All (λ r. r.status ≡ clean) runs)
unfolding exit_code
exit_code_iff runs =
    let (to_two, to_one, to_zero) =
      exit_cases (any (λ r. is_rug_pull r.status) runs) (any (λ r. is_violation r.status) runs)
        (any (λ r. is_bad_input r.status) runs) in
    let rugs = any-rug_pull runs in
    let bad = any-violation runs in
    let good = all-clean runs in
    (
      (λ h. rugs.0 (to_two.0 h), λ h. to_two.1 (rugs.1 h)),
      (
        λ h. (λ r. (to_one.0 h).0 (rugs.1 r), bad.0 (to_one.0 h).1),
        λ h. to_one.1 (λ r. h.0 (rugs.0 r), bad.1 h.1),
      ),
      (λ h. good.0 (to_zero.0 h), λ h. to_zero.1 (good.1 h)),
    )

pub Has-map :
    (st : Status) (f : Server → ServerReport) (servers : List Server)
    → Has st (map f servers) ↔ ((s : Server) × In s servers × ((f s).status ≡ st))
Has-map st f [] = (λ h. elim h [ ], λ (s, i, e). elim i [ ])
Has-map st f (t ∷ servers) = (
  λ h. elim h [
    | inl e ↦ (t, inl refl, e)
    | inr k ↦ let (s, i, e) = (Has-map st f servers).0 k in (s, inr i, e)
  ],
  λ (s, i, e). elim i [
    | inl same ↦ inl (subst (λ s. (f s).status ≡ st) same e)
    | inr j ↦ inr ((Has-map st f servers).1 (s, j, e))
  ],
)

pub All-statuses :
    (f : Server → ServerReport) (Q : Server → Type 0)
    → ((s : Server) → ((f s).status ≡ clean) ↔ Q s)
    → (servers : List Server) → All (λ r. r.status ≡ clean) (map f servers) ↔ All Q servers
All-statuses f Q h [] = (λ t. tt, λ t. tt)
All-statuses f Q h (s ∷ servers) =
    let rest = All-statuses f Q h servers in
    (λ (e, a). ((h s).0 e, rest.0 a), λ (q, a). ((h s).1 q, rest.1 a))

pub Has-traverse :
    (st : Status) (f : Server → Result ServerReport) (P : Server → Type 0)
    → ((s : Server) (r : ServerReport) → f s ≡ ok r → (r.status ≡ st) ↔ P s)
    → (servers : List Server) (runs : List ServerReport) → traverse f servers ≡ ok runs
    → Has st runs ↔ ((s : Server) × In s servers × P s)
unfolding traverse
Has-traverse st f P p [] runs h =
    let same : [] ≡ runs = cc in
    subst (λ runs. Has st runs ↔ ((s : Server) × ⊥ × P s)) same
      (λ z. elim z [ ], λ (s, i, e). elim i [ ])
Has-traverse st f P p (t ∷ servers) runs h =
    let (r, k, h1) = bind-ok (f t) _ runs h in
    let (rs, l, h2) = bind-ok (traverse f servers) _ runs h1 in
    let same : r ∷ rs ≡ runs = cc in
    let rest = Has-traverse st f P p servers rs l in
    subst (λ runs. Has st runs ↔ ((s : Server) × In s (t ∷ servers) × P s)) same
      (
        λ o. elim o [
          | inl e ↦ (t, inl refl, (p t r k).0 e)
          | inr o' ↦ let (s, i, q) = rest.0 o' in (s, inr i, q)
        ],
        λ (s, i, q). elim i [
          | inl e ↦ inl ((p t r k).1 (subst P e q))
          | inr j ↦ inr (rest.1 (s, j, q))
        ],
      )

pub All-traverse :
    (f : Server → Result ServerReport) (P : Server → Type 0)
    → ((s : Server) (r : ServerReport) → f s ≡ ok r → (r.status ≡ clean) ↔ P s)
    → (servers : List Server) (runs : List ServerReport) → traverse f servers ≡ ok runs
    → All (λ r. r.status ≡ clean) runs ↔ All P servers
unfolding traverse
All-traverse f P p [] runs h =
    let same : [] ≡ runs = cc in
    subst (λ runs. All (λ r. r.status ≡ clean) runs ↔ Unit) same (λ t. tt, λ t. tt)
All-traverse f P p (t ∷ servers) runs h =
    let (r, k, h1) = bind-ok (f t) _ runs h in
    let (rs, l, h2) = bind-ok (traverse f servers) _ runs h1 in
    let same : r ∷ rs ≡ runs = cc in
    let rest = All-traverse f P p servers rs l in
    subst (λ runs. All (λ r. r.status ≡ clean) runs ↔ All P (t ∷ servers)) same
      (λ (e, a). ((p t r k).0 e, rest.0 a), λ (q, a). ((p t r k).1 q, rest.1 a))

pub traverse-returns_iff :
    (f : Server → Result ServerReport) (P : Server → Type 0)
    → ((s : Server) → ((e : Exception) × (f s ≡ err e)) ↔ P s)
    → (servers : List Server)
    → ((runs : List ServerReport) × (traverse f servers ≡ ok runs)) ↔ All (λ s. ¬ (P s)) servers
unfolding traverse
traverse-returns_iff f P p [] = (λ h. tt, λ t. ([], refl))
traverse-returns_iff f P p (s ∷ servers) =
    let rest = traverse-returns_iff f P p servers in
    elim (Result-cases (f s)) [
      | inr (x, k) ↦ (λ (runs, h). cc (rw k at h), λ (n, a). absurd (n ((p s).0 (x, k))))
      | inl (r, k) ↦ (
        λ (runs, h).
            let (rs, l, _) = bind-ok (traverse f servers) _ runs (rw k at h) in
            (λ q. (let (x, e) = (p s).1 q in cc (e, k)), rest.0 (rs, l)),
        λ (n, a). let (rs, l) = rest.1 a in (r ∷ rs, rw (k, l) refl),
      )
    ]

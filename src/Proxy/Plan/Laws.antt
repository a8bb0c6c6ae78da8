-- ===== src/Proxy/Plan/Laws.antt =====
-- The egress plan admits exactly the hosts that the classification counts as granted.
use mcp_contract.Base.{
  ◌≡◌, ◌↔◌, ◌⊎◌, inl, inr, refl, sym, true, List, [], ◌∷◌, some, arith, In, contains_iff, add_all,
  In-add_all, subst, Option-cases, Text, text_eq, nat_eq, lower, lower_code,
}
use mcp_contract.Models.{
  net_http, id_eq, status_eq, class_eq, Capability, Policy, granted, within_policy,
}
use mathlib.Core.Option.{some-injective}
use mcp_contract.Bcm.Diff.{classify_value, wildcard}
use mcp_contract.Bcm.Diff.Hosts.{Names, NamesSome, host_matches_iff}
use mcp_contract.Bcm.Diff.Laws.{CapAdmits, Grants, classify_value_iff}
use mcp_contract.Proxy.Plan.{insert_text, sort_texts, plan_of, egress_plan, allowed}

In-insert_text : (a t : Text) (us : List Text) → In a (insert_text t us) ↔ ((a ≡ t) ⊎ In a us)
unfolding insert_text
In-insert_text a t [] = ground arith
In-insert_text a t (u ∷ us) = ground (arith, In-insert_text a t us)

pub In-sort_texts : (a : Text) (ts : List Text) → In a (sort_texts ts) ↔ In a ts
unfolding sort_texts
In-sort_texts a [] = ground arith
In-sort_texts a (t ∷ ts) = ground (arith, In-insert_text a t (sort_texts ts), In-sort_texts a ts)

NamesSome-of_In :
    (host p : Text) (ps : List Text) → In p ps → Names (lower host) (lower p) → NamesSome host ps
NamesSome-of_In host p [] i n = elim i [ ]
NamesSome-of_In host p (q ∷ ps) (inl e) n = inl (rw (← e) n)
NamesSome-of_In host p (q ∷ ps) (inr i) n = inr (NamesSome-of_In host p ps i n)

NamesSome-mono :
    (host : Text) (ps qs : List Text)
    → ((p : Text) → In p ps → In p qs)
    → NamesSome host ps
    → NamesSome host qs
NamesSome-mono host [] qs h n = elim n [ ]
NamesSome-mono host (p ∷ ps) qs h (inl n) = NamesSome-of_In host p qs (h p (inl refl)) n
NamesSome-mono host (p ∷ ps) qs h (inr n) = NamesSome-mono host ps qs (λ q i. h q (inr i)) n

-- Sorting and removing duplicates does not change which hosts are named.
NamesSome-sorted :
    (host : Text) (vs : List Text) → NamesSome host (sort_texts (add_all [] vs)) ↔ NamesSome host vs
NamesSome-sorted host vs =
    let kept = λ (p : Text). In-add_all p [] vs in
    let sorted = λ (p : Text). In-sort_texts p (add_all [] vs) in
    (
      NamesSome-mono host (sort_texts (add_all [] vs)) vs
          (λ p i. elim ((kept p).0 ((sorted p).0 i)) [ inl z ↦ absurd z | inr k ↦ k ]),
      NamesSome-mono host vs (sort_texts (add_all [] vs))
          (λ p i. (sorted p).1 ((kept p).1 (inr i))),
    )

wildcard-NamesSome : (host : Text) (vs : List Text) → In wildcard vs → NamesSome host vs
unfolding lower_code
wildcard-NamesSome host vs i = NamesSome-of_In host wildcard vs i (inl refl)

plan_of_iff :
    (host : Text) (c : Capability)
    → (allowed (plan_of (some c)) host ≡ true) ↔ CapAdmits c net_http host
unfolding allowed
plan_of_iff host c = ground (
  arith,
  contains_iff c.values wildcard,
  wildcard-NamesSome host c.values,
  host_matches_iff host (sort_texts (add_all [] c.values)),
  NamesSome-sorted host c.values,
)

allowed-Grants :
    (p : Policy) (host : Text) → (allowed (egress_plan p) host ≡ true) ↔ Grants p net_http host
unfolding egress_plan
allowed-Grants p host = elim (Option-cases (granted p net_http)) [
  | inl e ↦ rw e (unfold allowed in (λ h. cc), λ (c, e', _). cc)
  | inr (c, e) ↦ rw e (
    λ h. (c, refl, (plan_of_iff host c).0 h),
    λ (c', e', h).
        (plan_of_iff host c).1
          (subst (λ x. CapAdmits x net_http host) (sym (some-injective c c' e')) h),
  )
]

-- The proxy lets a host through exactly when an event that connects to it is within the policy: one
-- rule decides enforcement and classification.
pub allowed-egress_plan_iff :
    (p : Policy) (host : Text) (caps : List Capability)
    → (allowed (egress_plan p) host ≡ true) ↔ (classify_value net_http host p caps ≡ within_policy)
allowed-egress_plan_iff p host caps =
    let classes = (classify_value_iff net_http host p caps).0 in
    let admits = allowed-Grants p host in (λ a. classes.1 (admits.0 a), λ w. admits.1 (classes.0 w))

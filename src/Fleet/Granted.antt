-- ===== src/Fleet/Granted.antt =====
-- What a run of a fleet launches, about `fleet.py`.
use mcp_contract.Base.{
  ℕ, ◌≡◌, ◌↔◌, ◌⊎◌, inl, inr, refl, sym, Bool, true, ◌||◌, List, [], ◌∷◌, Option, none, some,
  contains, keep, arith, In, contains_iff, subst, Bool-cases, Text, txt, text_eq, nat_eq, Result,
  ok, err, Result-cases,
}
use mcp_contract.Models.{
  CapabilityId, id_eq, status_eq, class_eq, Capability, Manifest, Policy, granted,
}
use mcp_contract.Bcm.Monitor.{broken, drift, started, Started}
use mcp_contract.Fleet.Launch.{
  Server, Expanded, expanded, unresolved, malformed, resolved_env, transport, env_allowed, Spec,
  spec_with,
}
use mcp_contract.Fleet.Verdicts.{World, load_contract}
use mcp_contract.Fleet.Runs.{
  Adapter, Call, launched, run_one, monitored, run_adapter, run_spec, run_contract, run_resolved,
}

-- The policy grants the variable: by "*" or by its name.
abbrev pub GrantsKey : Policy → Text → Type 0
GrantsKey policy k =
    (c : Capability) × (granted policy CapabilityId.env ≡ some c)
    × (In (txt "*") c.values ⊎ In k c.values)

some-inj : {a b : Capability} → Option.some a ≡ some b → a ≡ b
some-inj h = cc

by_values :
    (c : Capability) (k : Text)
    → ((contains c.values (txt "*") || contains c.values k) ≡ true)
      ↔ (In (txt "*") c.values ⊎ In k c.values)
by_values c k = ground (arith, contains_iff c.values (txt "*"), contains_iff c.values k)

env_allowed_iff :
    (o : Option Capability) (k : Text)
    → (env_allowed o k ≡ true)
      ↔ ((c : Capability) × (o ≡ some c) × (In (txt "*") c.values ⊎ In k c.values))
env_allowed_iff none k = (λ h. cc, λ (c, h, i). cc)
env_allowed_iff (some c) k = (
  λ h. (c, refl, (by_values c k).0 h),
  λ (d, h, i).
      (by_values c k).1 (subst (λ d. In (txt "*") d.values ⊎ In k d.values) (sym (some-inj h)) i),
)

In-keep_pairs :
    (p : Text × Text → Bool) (es : List (Text × Text)) (e : Text × Text)
    → In e (keep p es) ↔ (In e es × (p e ≡ true))
In-keep_pairs p [] e = (λ i. elim i [ ], λ (i, h). elim i [ ])
In-keep_pairs p (x ∷ es) e = elim (Bool-cases (p x)) [
  | inl kept ↦ rw kept (ground (arith, In-keep_pairs p es e))
  | inr dropped ↦ rw dropped (ground (arith, In-keep_pairs p es e))
]

kept_granted :
    (policy : Policy) (resolved : List (Text × Text)) (k v : Text)
    → In (k, v) (keep (λ (k, v). env_allowed (granted policy CapabilityId.env) k) resolved)
      ↔ (In (k, v) resolved × GrantsKey policy k)
kept_granted policy resolved k v =
    let kept =
      In-keep_pairs (λ (k, v). env_allowed (granted policy CapabilityId.env) k) resolved (k, v) in
    let named = env_allowed_iff (granted policy CapabilityId.env) k in
    (λ i. ((kept.0 i).0, named.0 (kept.0 i).1), λ (i, g). kept.1 (i, named.1 g))

module _ (w : World) (get_adapter : Server → Result Adapter) (max_events : Option ℕ) where
  -- The launch of a sandbox for the server: under its own policy, with those resolved entries of the
  -- environment whose key the policy grants.
  abbrev pub OwnLaunch : Server → Spec → Policy → Type 0
  OwnLaunch s spec policy =
      (resolved : List (Text × Text)) × (manifest : Manifest) × (resolved_env w.py w.environ s
        ≡ expanded resolved)
      × (load_contract w s ≡ ok (policy, manifest))
      × ((k v : Text) → In (k, v) spec.env ↔ (In (k, v) resolved × GrantsKey policy k))

  abbrev Launches : Server → List Call → Type 0
  Launches s calls =
      (spec : Spec) (policy : Policy) → In (launched spec policy) calls → OwnLaunch s spec policy

  module _ (s : Server) where
    spec-env :
        (policy : Policy) (resolved : List (Text × Text)) (spec : Spec)
        → spec_with w.py s policy resolved ≡ ok spec
        → spec.env ≡ keep (λ (k, v). env_allowed (granted policy CapabilityId.env) k) resolved
    unfolding spec_with
    spec-env policy resolved spec h = elim (Result-cases (transport w.py s)) [
      | inl (t, e) ↦ cc (rw e at h)
      | inr (x, e) ↦ cc (rw e at h)
    ]

    -- What is launched for a spec is that spec, under that policy.
    abbrev Only : Spec → Policy → List Call → Type 0
    Only spec policy calls =
        (sp : Spec) (pl : Policy) → In (launched sp pl) calls → (sp ≡ spec) × (pl ≡ policy)

    monitored-Only :
        (spec : Spec) (policy : Policy) (a : Adapter) (m : Started)
        → Only spec policy (monitored w get_adapter max_events s spec policy a m).1
    monitored-Only spec policy a (drift expected actual) sp pl (inl e) = (cc, cc)
    monitored-Only spec policy a (drift expected actual) sp pl (inr i) = elim i [ ]
    monitored-Only spec policy a (broken x) sp pl (inl e) = (cc, cc)
    monitored-Only spec policy a (broken x) sp pl (inr i) = elim i [ ]
    monitored-Only spec policy a (started m) sp pl (inl e) = (cc, cc)
    monitored-Only spec policy a (started m) sp pl (inr (inl e)) = cc
    monitored-Only spec policy a (started m) sp pl (inr (inr i)) = elim i [ ]

    adapter-Only :
        (spec : Spec) (policy : Policy) (manifest : Manifest) (r : Result Adapter)
        → Only spec policy (run_adapter w get_adapter max_events s spec policy manifest r).1
    adapter-Only spec policy manifest (err e) sp pl i = elim i [ ]
    adapter-Only spec policy manifest (ok a) sp pl i = elim (Result-cases (a.start spec policy)) [
      | inl (u, e) ↦ monitored-Only spec policy a _ sp pl (rw e at i)
      | inr (x, e) ↦ absurd (rw e at i)
    ]

    spec-Launches :
        (policy : Policy) (manifest : Manifest) (resolved : List (Text × Text)) (r : Result Spec)
        → resolved_env w.py w.environ s ≡ expanded resolved
        → load_contract w s ≡ ok (policy, manifest)
        → spec_with w.py s policy resolved ≡ r
        → Launches s (run_spec w get_adapter max_events s policy manifest r).1
    spec-Launches policy manifest resolved (err e) env_ok l h spec pl i = elim i [ ]
    spec-Launches policy manifest resolved (ok spec) env_ok l h sp pl i =
        let (same, same_policy) = adapter-Only spec policy manifest (get_adapter s) sp pl i in
        (
          resolved,
          manifest,
          env_ok,
          rw same_policy l,
          λ k v.
              rw (same, same_policy, spec-env policy resolved spec h)
                (kept_granted policy resolved k v),
        )

    contract-Launches :
        (resolved : List (Text × Text)) (r : Result (Policy × Manifest))
        → resolved_env w.py w.environ s ≡ expanded resolved
        → load_contract w s ≡ r
        → Launches s (run_contract w get_adapter max_events s resolved r).1
    contract-Launches resolved (err e) env_ok l spec pl i = elim i [ ]
    contract-Launches resolved (ok (policy, manifest)) env_ok l sp pl i =
        spec-Launches policy manifest resolved (spec_with w.py s policy resolved) env_ok l refl sp
          pl i

    resolved-Launches :
        (r : Expanded (List (Text × Text)))
        → resolved_env w.py w.environ s ≡ r
        → Launches s (run_resolved w get_adapter max_events s r).1
    resolved-Launches (expanded resolved) h sp pl i =
        contract-Launches resolved (load_contract w s) h refl sp pl i
    resolved-Launches (unresolved var) h spec pl i = elim i [ ]
    resolved-Launches malformed h spec pl i = elim i [ ]

    -- Every sandbox that a run launches is under the server's own policy, and its environment holds
    -- exactly the resolved entries of the server whose key that policy grants.
    pub run_one-OwnLaunch :
        (spec : Spec) (policy : Policy)
        → In (launched spec policy) (run_one w get_adapter max_events s).1
        → OwnLaunch s spec policy
    unfolding run_one
    run_one-OwnLaunch spec policy i =
        resolved-Launches (resolved_env w.py w.environ s) refl spec policy i

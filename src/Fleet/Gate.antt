-- ===== src/Fleet/Gate.antt =====
-- What the gate of a fleet reports, and when, about `fleet.py`.
use mcp_contract.Base.{
  ◌≡◌, ◌≢◌, ◌↔◌, ◌⊎◌, inl, inr, refl, sym, ap, ◌∙◌, Bool, true, false, not, ◌&&◌, List, [], ◌∷◌,
  ◌==◌, if◌then◌else◌, is_empty, arith, In, All, eq_refl, subst, Bool-cases, Text, text_eq, nat_eq,
  Result, ok, err, Exception,
}
use mcp_contract.Models.{
  id_eq, status_eq, class_eq, Manifest, Policy, BehaviorEvent, ViolationReport,
}
use mcp_contract.Base.{ok-inj}
use mcp_contract.Models.Hash.{hash_of}
use mcp_contract.Models.Report.{violations}
use mcp_contract.Fleet.Launch.{Server, Expanded, expanded, unresolved, malformed, resolved_env}
use mcp_contract.Fleet.Verdicts.{
  verify_hash, skipped, stopped, ServerReport, World, Status, clean, violation, rug_pull,
  load_contract, recorded, classified_report, verify_events, verify_contract, if_resolved,
  verify_one, envelope,
}
use mcp_contract.Fleet.Aggregate.{exit_code, verify_all}
use mcp_contract.Fleet.Codes.{exit_code_iff, Has-traverse, All-traverse, traverse-returns_iff}

module _ (w : World) where
  -- The environment of the server resolves, and its policy and manifest load.
  abbrev pub IsBound : Server → Policy → Manifest → Type 0
  IsBound s policy manifest =
      ((values : List (Text × Text)) × (resolved_env w.py w.environ s ≡ expanded values))
      × (load_contract w s ≡ ok (policy, manifest))

  -- The manifest of the server has no hash.
  abbrev pub Unhashed : Server → Type 0
  Unhashed s =
      (policy : Policy) × (manifest : Manifest) × (e : Exception) × IsBound s policy manifest
      × (hash_of w.digest manifest ≡ err e)

  -- The policy was made for another manifest than the server has now.
  abbrev pub Drifted : Server → Type 0
  Drifted s =
      (policy : Policy) × (manifest : Manifest) × IsBound s policy manifest
      × ((actual : Text) × (hash_of w.digest manifest ≡ ok actual)
          × (policy.manifest_hash ≢ actual))

  -- The policy was made for the server's manifest, and the recorded events have a report.
  abbrev pub Reported : Bool → Server → (ViolationReport → Type 0) → Type 0
  Reported allow_empty s P =
      (policy : Policy) × (manifest : Manifest) × (events : List BehaviorEvent) × IsBound s policy
        manifest
      × (hash_of w.digest manifest ≡ ok policy.manifest_hash)
      × (recorded w s ≡ ok events)
      × ((events ≢ []) ⊎ (allow_empty ≡ true))
      × P (classified_report w policy manifest events)

  abbrev pub Violated : Bool → Server → Type 0
  Violated allow_empty s = Reported allow_empty s (λ r. violations r ≢ [])

  abbrev pub Verified : Bool → Server → Type 0
  Verified allow_empty s = Reported allow_empty s (λ r. violations r ≡ [])

  -- What a status of the gate says of the server.
  abbrev pub Finds : Bool → Server → Status → Type 0
  Finds allow_empty s clean = Verified allow_empty s
  Finds allow_empty s violation = Violated allow_empty s
  Finds allow_empty s rug_pull = Drifted s
  Finds allow_empty s _ = Unit

  abbrev Tells : Bool → Server → Result ServerReport → Type 0
  Tells allow_empty s (ok r) = Finds allow_empty s r.status
  Tells allow_empty s (err e) = Unhashed s

  filled_or_allowed :
      (events : List BehaviorEvent) (allow_empty : Bool)
      → (is_empty events && not allow_empty) ≡ false
      → (events ≢ []) ⊎ (allow_empty ≡ true)
  filled_or_allowed [] true h = inr refl
  filled_or_allowed [] false h = cc
  filled_or_allowed (e ∷ es) allow_empty h = inl (λ e. cc)

  filled_violation :
      (vs : List BehaviorEvent) → vs ≢ [] → (if is_empty vs then clean else violation) ≡ violation
  filled_violation [] n = absurd (n refl)
  filled_violation (v ∷ vs) n = refl

  module _ (allow_empty : Bool) (s : Server) where
    found_report :
        (policy : Policy) (manifest : Manifest) (events : List BehaviorEvent)
        → IsBound s policy manifest
        → hash_of w.digest manifest ≡ ok policy.manifest_hash
        → recorded w s ≡ ok events
        → ((events ≢ []) ⊎ (allow_empty ≡ true))
        → (vs : List BehaviorEvent) → violations (classified_report w policy manifest events) ≡ vs
        → Finds allow_empty s (if is_empty vs then clean else violation)
    found_report policy manifest events b same l seen [] h =
        (policy, manifest, events, b, same, l, seen, h)
    found_report policy manifest events b same l seen (v ∷ vs) h =
        (policy, manifest, events, b, same, l, seen, λ e. cc)

    found_events :
        (policy : Policy) (manifest : Manifest)
        → IsBound s policy manifest
        → hash_of w.digest manifest ≡ ok policy.manifest_hash
        → (r : Result (List BehaviorEvent)) → recorded w s ≡ r
        → Finds allow_empty s (verify_events w allow_empty s policy manifest r).status
    unfolding envelope
    found_events policy manifest b same (err e) l = tt
    found_events policy manifest b same (ok events) l =
        elim (Bool-cases (is_empty events && not allow_empty)) [
          | inl none_seen ↦ rw none_seen tt
          | inr seen ↦ rw seen (
              found_report policy manifest events b same l
                (filled_or_allowed events allow_empty seen) _ refl)
        ]

    found_hash :
        (policy : Policy) (manifest : Manifest) (r : Result Text)
        → IsBound s policy manifest
        → hash_of w.digest manifest ≡ r
        → Tells allow_empty s (verify_hash w allow_empty s policy manifest r)
    unfolding envelope
    found_hash policy manifest (err e) b h = (policy, manifest, e, b, h)
    found_hash policy manifest (ok actual) b h =
        elim (Bool-cases (policy.manifest_hash == actual)) [
          | inl same ↦
              let e : actual ≡ policy.manifest_hash = ground arith in
              rw same (found_events policy manifest b (h ∙ ap ok e) (recorded w s) refl)
          | inr other ↦ rw other (policy, manifest, b, (actual, h, ground arith))
        ]

    found_contract :
        (r : Result (Policy × Manifest)) (values : List (Text × Text))
        → resolved_env w.py w.environ s ≡ expanded values
        → load_contract w s ≡ r
        → Tells allow_empty s (verify_contract w allow_empty s r)
    unfolding envelope
    found_contract (err e) values env_ok l = tt
    found_contract (ok (policy, manifest)) values env_ok l =
        found_hash policy manifest (hash_of w.digest manifest) ((values, env_ok), l) refl

    found_env :
        (r : Expanded (List (Text × Text)))
        → resolved_env w.py w.environ s ≡ r
        → Tells allow_empty s (
            if_resolved w
              (ok (stopped w s skipped))
              (verify_contract w allow_empty s (load_contract w s))
              r)
    unfolding envelope
    found_env (expanded values) h = found_contract (load_contract w s) values h refl
    found_env (unresolved var) h = tt
    found_env malformed h = tt

    verify_one-Tells : Tells allow_empty s (verify_one w allow_empty s)
    unfolding verify_one
    verify_one-Tells = found_env (resolved_env w.py w.environ s) refl

    verify_one-Finds :
        (r : ServerReport) → verify_one w allow_empty s ≡ ok r → Finds allow_empty s r.status
    verify_one-Finds r h = subst (Tells allow_empty s) h verify_one-Tells

    -- With a hash, the verdict is that on the hash.
    hashed_verdict :
        (policy : Policy) (manifest : Manifest) (actual : Text)
        → IsBound s policy manifest
        → hash_of w.digest manifest ≡ ok actual
        → verify_one w allow_empty s ≡ verify_hash w allow_empty s policy manifest (ok actual)
    unfolding verify_one
    hashed_verdict policy manifest actual ((values, e), l) h = rw (e, l, h) refl

    Drifted-status :
        (r : ServerReport) → verify_one w allow_empty s ≡ ok r → Drifted s → r.status ≡ rug_pull
    unfolding envelope
    Drifted-status r k (policy, manifest, b, (actual, h, n)) =
        let other : (policy.manifest_hash == actual) ≡ false = ground arith in
        let same : verify_hash w allow_empty s policy manifest (ok actual) ≡ ok r =
          sym (hashed_verdict policy manifest actual b h) ∙ k in
        ap (λ r. r.status) (sym (ok-inj (rw other at same)))

    reported_events :
        (policy : Policy) (manifest : Manifest) (events : List BehaviorEvent)
        → ((events ≢ []) ⊎ (allow_empty ≡ true))
        → (verify_events w allow_empty s policy manifest (ok events)).status ≡ (
            if is_empty (violations (classified_report w policy manifest events))
            then clean
            else violation)
    unfolding envelope
    reported_events policy manifest [] (inl n) = absurd (n refl)
    reported_events policy manifest [] (inr a) = rw a refl
    reported_events policy manifest (v ∷ vs) k = refl

    reported-status :
        (P : ViolationReport → Type 0) (r : ServerReport)
        → verify_one w allow_empty s ≡ ok r
        → (q : Reported allow_empty s P)
        → r.status
          ≡ (if is_empty (violations (classified_report w q.0 q.1 q.2)) then clean else violation)
    reported-status P r k (policy, manifest, events, b, h, l, seen, p) =
        let same : verify_hash w allow_empty s policy manifest (ok policy.manifest_hash) ≡ ok r =
          sym (hashed_verdict policy manifest policy.manifest_hash b h) ∙ k in
        let bound : (policy.manifest_hash == policy.manifest_hash) ≡ true =
          eq_refl policy.manifest_hash in
        let report = ok-inj (rw (bound, l) at same) in
        ap (λ r. r.status) (sym report) ∙ reported_events policy manifest events seen

    -- A report of the gate is of a rug pull exactly where the server drifted, of a violation exactly
    -- where it did not and some recorded event is outside the contract, and clean exactly where all
    -- of the contract and the events load, the hash is the policy's, and no event is outside.
    verify_one_iff :
        (r : ServerReport)
        → verify_one w allow_empty s ≡ ok r
        → (r.status ≡ rug_pull ↔ Drifted s)
          × (r.status ≡ violation ↔ Violated allow_empty s)
          × (r.status ≡ clean ↔ Verified allow_empty s)
    verify_one_iff r k = (
      (λ h. subst (Finds allow_empty s) h (verify_one-Finds r k), Drifted-status r k),
      (
        λ h. subst (Finds allow_empty s) h (verify_one-Finds r k),
        λ q. reported-status (λ r. violations r ≢ []) r k q ∙ filled_violation _ (q.7),
      ),
      (
        λ h. subst (Finds allow_empty s) h (verify_one-Finds r k),
        λ q. rw (q.7) at (reported-status (λ r. violations r ≡ []) r k q),
      ),
    )

    verify_one-Unhashed : ((e : Exception) × (verify_one w allow_empty s ≡ err e)) ↔ Unhashed s
    unfolding verify_one
    verify_one-Unhashed = (
      λ (e, h). subst (Tells allow_empty s) h verify_one-Tells,
      λ (policy, manifest, e, ((values, v), l), h). (e, rw (v, l, h) refl),
    )

module _ (w : World) (allow_empty : Bool) (servers : List Server) where
  abbrev pub SomeDrifted : Type 0
  SomeDrifted = (s : Server) × In s servers × Drifted w s

  abbrev pub SomeViolated : Type 0
  SomeViolated = (s : Server) × In s servers × Violated w allow_empty s

  -- Where the gate over a fleet reports, it exits with 2 exactly where some server whose environment,
  -- policy and manifest load has a manifest that is not the one its policy was made for, else with 1
  -- exactly where some such server has the manifest of its policy and a recorded event outside the
  -- contract, and with 0 exactly where every server is verified.
  pub verify_all-exit_code :
      (runs : List ServerReport)
      → verify_all w allow_empty servers ≡ ok runs
      → ((exit_code runs ≡ 2) ↔ SomeDrifted)
        × ((exit_code runs ≡ 1) ↔ (¬ SomeDrifted × SomeViolated))
        × ((exit_code runs ≡ 0) ↔ All (Verified w allow_empty) servers)
  unfolding verify_all
  verify_all-exit_code runs h =
      let verdict = verify_one w allow_empty in
      let (two, one, none_found) = exit_code_iff runs in
      let drifted =
        Has-traverse rug_pull verdict (Drifted w) (λ s r k. (verify_one_iff w allow_empty s r k).0)
          servers runs h in
      let violated =
        Has-traverse violation verdict (Violated w allow_empty)
          (λ s r k. (verify_one_iff w allow_empty s r k).1) servers runs h in
      let verified =
        All-traverse verdict (Verified w allow_empty)
          (λ s r k. (verify_one_iff w allow_empty s r k).2) servers runs h in
      (
        (λ h. drifted.0 (two.0 h), λ d. two.1 (drifted.1 d)),
        (
          λ h. (λ d. (one.0 h).0 (drifted.1 d), violated.0 (one.0 h).1),
          λ h. one.1 (λ d. h.0 (drifted.0 d), violated.1 h.1),
        ),
        (λ h. verified.0 (none_found.0 h), λ a. none_found.1 (verified.1 a)),
      )

  -- The gate reports exactly where no server whose environment, policy and manifest load has a manifest
  -- without a hash; one that has none ends the batch, whatever the other servers do.
  pub verify_all-returns_iff :
      ((runs : List ServerReport) × (verify_all w allow_empty servers ≡ ok runs))
      ↔ All (λ s. ¬ (Unhashed w s)) servers
  unfolding verify_all
  verify_all-returns_iff =
      traverse-returns_iff (verify_one w allow_empty) (Unhashed w)
        (verify_one-Unhashed w allow_empty) servers

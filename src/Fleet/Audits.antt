-- ===== src/Fleet/Audits.antt =====
-- What an audit of a fleet reports, about `fleet.py`.
use mcp_contract.Base.{
  ◌≡◌, ◌≢◌, ◌↔◌, refl, List, map, All, subst, Text, text_eq, nat_eq, Result, ok, err,
}
use mcp_contract.Models.{id_eq, status_eq, class_eq, Manifest, Policy, BehaviorEvent}
use mcp_contract.Fleet.Launch.{Server, Expanded, expanded, unresolved, malformed, resolved_env}
use mcp_contract.Fleet.Verdicts.{
  skipped, World, Status, clean, violation, rug_pull, load_contract, recorded, audit_events,
  audit_contract, if_resolved, audit_one, envelope, stopped,
}
use mcp_contract.Fleet.Aggregate.{exit_code, audit_all}
use mcp_contract.Fleet.Codes.{exit_code_iff, Has-map, All-statuses}

module _ (w : World) where
  -- All that an audit of the server reads can be read.
  abbrev pub Readable : Server → Type 0
  Readable s =
      ((values : List (Text × Text)) × (resolved_env w.py w.environ s ≡ expanded values))
      × ((contract : Policy × Manifest) × (load_contract w s ≡ ok contract))
      × ((events : List BehaviorEvent) × (recorded w s ≡ ok events))

  -- What a status of an audit says of the server; it never gates.
  abbrev Says : Server → Status → Type 0
  Says s clean = Readable s
  Says s violation = ⊥
  Says s rug_pull = ⊥
  Says s _ = Unit

  module _ (s : Server) (values : List (Text × Text))
      (e : resolved_env w.py w.environ s ≡ expanded values) where
    events-Says :
        (policy : Policy) (manifest : Manifest) (r : Result (List BehaviorEvent))
        → load_contract w s ≡ ok (policy, manifest)
        → recorded w s ≡ r
        → Says s (audit_events w s policy manifest r).status
    unfolding envelope
    events-Says policy manifest (err x) l h = tt
    events-Says policy manifest (ok events) l h =
        ((values, e), ((policy, manifest), l), (events, h))

    contract-Says :
        (r : Result (Policy × Manifest))
        → load_contract w s ≡ r
        → Says s (audit_contract w s r).status
    unfolding envelope
    contract-Says (err x) l = tt
    contract-Says (ok (policy, manifest)) l = events-Says policy manifest (recorded w s) l refl

  audit_env-Says :
      (s : Server) (r : Expanded (List (Text × Text)))
      → resolved_env w.py w.environ s ≡ r
      → Says s
          (if_resolved w (stopped w s skipped) (audit_contract w s (load_contract w s)) r).status
  unfolding envelope
  audit_env-Says s (expanded values) e = contract-Says s values e (load_contract w s) refl
  audit_env-Says s (unresolved var) e = tt
  audit_env-Says s malformed e = tt

  audit_one-Says : (s : Server) → Says s (audit_one w s).status
  unfolding audit_one
  audit_one-Says s = audit_env-Says s (resolved_env w.py w.environ s) refl

  audit_one_iff : (s : Server) → ((audit_one w s).status ≡ clean) ↔ Readable s
  unfolding audit_one envelope
  audit_one_iff s = (
    λ h. subst (Says s) h (audit_one-Says s),
    λ ((values, e), ((policy, manifest), l), (events, h)). rw (e, l, h) refl,
  )

  -- An audit of a fleet never exits with 1 or 2, whatever the events; it exits with 0 exactly where
  -- the environment, the contract and the events of every server can be read.
  pub audit_all-exit_code :
      (servers : List Server)
      → (exit_code (audit_all w servers) ≢ 2)
        × (exit_code (audit_all w servers) ≢ 1)
        × ((exit_code (audit_all w servers) ≡ 0) ↔ All Readable servers)
  unfolding audit_all
  audit_all-exit_code servers =
      let (two, one, none_found) = exit_code_iff (map (audit_one w) servers) in
      let read = All-statuses (audit_one w) Readable audit_one_iff servers in
      (
        λ h.
            let (s, i, e) = (Has-map rug_pull (audit_one w) servers).0 (two.0 h) in
            subst (Says s) e (audit_one-Says s),
        λ h.
            let (s, i, e) = (Has-map violation (audit_one w) servers).0 (one.0 h).1 in
            subst (Says s) e (audit_one-Says s),
        (λ h. read.0 (none_found.0 h), λ a. none_found.1 (read.1 a)),
      )

-- ===== src/Fleet/Verdicts.antt =====
-- `fleet.py`: the verdict on one server of each batch verb.
use mcp_contract.Base.{
  ℕ, Bool, not, ◌&&◌, List, [], ◌∷◌, Option, none, some, ◌==◌, if◌then◌else◌, is_empty, Text, txt,
  text_eq, nat_eq, Value, Fields, Result, ok, err, value_error, ◌>>=◌, Builtins,
}
use mcp_contract.Models.{
  id_eq, status_eq, class_eq, Manifest, Policy, BehaviorEvent, Mode, ViolationReport,
}
use mcp_contract.Models.Hash.{hash_of}
use mcp_contract.Models.Report.{violations}
use mcp_contract.Bcm.Offline.{load_events, classify_events}
use mcp_contract.Documents.Conformance.{Builtin}
use mcp_contract.Documents.Emission.{policy_hash}
use mcp_contract.Documents.Policies.{Files, path_or_yaml, load_policy}
use mcp_contract.Loader.{Library, file, load_manifest}
use mcp_contract.Pie.Infer.{Classifier}
use mcp_contract.Fleet.Launch.{
  Server, Expanded, expanded, unresolved, malformed, resolved_env, transport, launch_fingerprint,
}

-- What the verbs call: the built-in conversions, the rules, the digest of a document, the file
-- system, the parsers, and the environment of the process.
pub record World : Type 0 where
  pub py : Builtins
  pub classify : Classifier
  pub digest : Value → Result Text
  pub builtin : Builtin
  pub manifests : Library
  pub policies : Files
  pub read_lines : Text → Result (List Text)
  pub json_loads : Text → Result Value
  pub safe_dump : Fields → Text
  pub write_text : Text → Text → Result Text
  pub environ : Text → Option Text

-- "ok", "violation", "rug_pull", "skipped" and "error".
pub data Status : Type 0 where
  clean violation rug_pull skipped error : Status

-- `_STATUS_EXIT`
abbrev pub status_exit : Status → ℕ
status_exit clean = 0
status_exit violation = 1
status_exit rug_pull = 2
status_exit skipped = 4
status_exit error = 4

-- `FleetServerReport`, without the text of the error.
pub record ServerReport : Type 0 where
  pub server_id : Text
  pub status : Status
  pub exit_code : ℕ
  pub report : Option ViolationReport
  pub manifest_hash : Text
  pub policy_hash : Text
  pub backend : Text
  pub mode : Mode
  pub transport : Text
  pub labels : Fields
  pub source : Option Text
  pub launch_fingerprint : Fields

abbrev pub or_text : Text → Result Text → Text
or_text default (ok t) = t
or_text default (err e) = default

-- A path that is there and not empty.
abbrev pub required : Option Text → Result Text
required (some (c ∷ s)) = ok (c ∷ s)
required _ = err value_error

module _ (w : World) where
  -- `_envelope`
  unfoldable pub envelope : Server → Status → Option ViolationReport → Text → Text → ServerReport
  envelope s status report manifest_hash policy_hash = record {
    server_id = s.id;
    status = status;
    exit_code = status_exit status;
    report = report;
    manifest_hash = manifest_hash;
    policy_hash = policy_hash;
    backend = s.backend;
    mode = s.mode;
    transport = or_text (txt "unknown") (transport w.py s);
    labels = s.labels;
    source = s.source;
    launch_fingerprint = launch_fingerprint s;
  }

  abbrev pub stopped : Server → Status → ServerReport
  stopped s status = envelope s status none [] []

  abbrev pub judged : Server → Status → Option ViolationReport → Policy → ServerReport
  judged s status report policy =
      envelope s status report policy.manifest_hash
        (or_text [] (policy_hash w.builtin w.digest policy))

  -- `_load_contract`
  unfoldable pub load_contract : Server → Result (Policy × Manifest)
  load_contract s = do
    policy_path ← required s.policy_path
    manifest_path ← required s.manifest_path
    policy ← load_policy w.py w.policies (path_or_yaml policy_path)
    manifest ← load_manifest w.manifests w.py (file manifest_path)
    ok (policy, manifest)

  -- `load_events_jsonl` of the server's file.
  unfoldable pub recorded : Server → Result (List BehaviorEvent)
  recorded s = do
    path ← required s.events_path
    lines ← w.read_lines path
    (events, warned) ← load_events w.py w.json_loads lines
    ok events

  abbrev pub classified_report : Policy → Manifest → List BehaviorEvent → ViolationReport
  classified_report policy manifest events = classify_events w.py w.classify events policy manifest

  abbrev pub with_report : Server → Policy → ViolationReport → ServerReport
  with_report s policy report =
      judged s (if is_empty (violations report) then clean else violation) (some report) policy

  -- The steps of `_verify_one`, from the last to the first.
  abbrev pub verify_events :
      Bool → Server → Policy → Manifest → Result (List BehaviorEvent) → ServerReport
  verify_events allow_empty s policy manifest (err e) = stopped s error
  verify_events allow_empty s policy manifest (ok events) =
      if is_empty events && not allow_empty
      then judged s skipped none policy
      else with_report s policy (classified_report policy manifest events)

  -- The hash is taken outside of any `try`, so what it raises leaves the method.
  abbrev pub verify_hash : Bool → Server → Policy → Manifest → Result Text → Result ServerReport
  verify_hash allow_empty s policy manifest (err e) = err e
  verify_hash allow_empty s policy manifest (ok actual) = ok (
      if policy.manifest_hash == actual
      then verify_events allow_empty s policy manifest (recorded s)
      else judged s rug_pull none policy)

  abbrev pub verify_contract : Bool → Server → Result (Policy × Manifest) → Result ServerReport
  verify_contract allow_empty s (err e) = ok (stopped s error)
  verify_contract allow_empty s (ok (policy, manifest)) =
      verify_hash allow_empty s policy manifest (hash_of w.digest manifest)

  -- `_check_env`: a server whose environment has no values is skipped.
  abbrev pub if_resolved {ℓ} : {A : Type ℓ} → A → A → Expanded (List (Text × Text)) → A
  if_resolved skip r (expanded resolved) = r
  if_resolved skip r (unresolved var) = skip
  if_resolved skip r malformed = skip

  -- `_verify_one`
  unfoldable pub verify_one : Bool → Server → Result ServerReport
  verify_one allow_empty s =
      if_resolved (ok (stopped s skipped)) (verify_contract allow_empty s (load_contract s))
        (resolved_env w.py w.environ s)

  abbrev pub audit_events : Server → Policy → Manifest → Result (List BehaviorEvent) → ServerReport
  audit_events s policy manifest (err e) = stopped s error
  audit_events s policy manifest (ok events) =
      judged s clean (some (classified_report policy manifest events)) policy

  abbrev pub audit_contract : Server → Result (Policy × Manifest) → ServerReport
  audit_contract s (err e) = stopped s error
  audit_contract s (ok (policy, manifest)) = audit_events s policy manifest (recorded s)

  -- `_audit_one`
  unfoldable pub audit_one : Server → ServerReport
  audit_one s =
      if_resolved (stopped s skipped) (audit_contract s (load_contract s))
        (resolved_env w.py w.environ s)

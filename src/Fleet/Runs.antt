-- ===== src/Fleet/Runs.antt =====
-- `fleet.py`: inferring a policy for one server, and running one server under the monitor.
use mcp_contract.Base.{
  ℕ, Bool, true, false, List, [], ◌∷◌, ◌++◌, Option, none, some, Text, txt, text_eq, nat_eq, Result,
  ok, err, Exception, ◌>>=◌,
}
use mcp_contract.Models.{id_eq, status_eq, class_eq, Manifest, Policy, BehaviorEvent}
use mcp_contract.Models.Hash.{hash_payload}
use mcp_contract.Bcm.Monitor.{
  broken, Hooks, Outcome, Monitor, Started, drift, started, start_monitor, Rounds, run_timed, fresh,
  report_of,
}
use mcp_contract.Documents.Emission.{dump_policy}
use mcp_contract.Loader.{file, load_manifest}
use mcp_contract.Pie.Infer.{Classifier, infer_policy}
use mcp_contract.Fleet.Launch.{
  Server, Expanded, expanded, unresolved, malformed, resolved_env, Spec, spec_with,
}
use mcp_contract.Fleet.Verdicts.{
  if_resolved, World, clean, rug_pull, skipped, error, ServerReport, required, stopped, judged,
  load_contract, with_report,
}

-- `pathlib`: `base / name`, `path.with_name(name)`, which refuses some names, and `str(Path(path))`.
pub record Paths : Type 0 where
  pub join_path : Text → Text → Text
  pub with_name : Text → Text → Result Text
  pub to_path : Text → Text

-- A sandbox backend: starting a server, the rounds of `Monitor.run` over its stream, which without a
-- duration are the events and then the end, and what blocking an event raises.
pub record Adapter : Type 0 where
  pub start : Spec → Policy → Result (Unit {0})
  pub rounds : Rounds
  pub block_error : BehaviorEvent → Option Exception

-- The default `on_alert` prints and raises nothing.
abbrev pub hooks_of : Adapter → Hooks
hooks_of a = record { alert_error = λ e. none; block_error = a.block_error }

-- The calls of the adapter that succeed or are let fail.
pub data Call : Type 0 where
  launched : Spec → Policy → Call
  halted : Call

abbrev policy_name : Server → Text
policy_name s = s.id ++ txt ".policy.yaml"

module _ (paths : Paths) where
  abbrev pub beside : Server → Option Text → Result Text
  beside s (some (c ∷ p)) = paths.with_name (c ∷ p) (policy_name s)
  beside s _ = ok (policy_name s)

  abbrev pub own_path : Server → Option Text → Result Text
  own_path s (some (c ∷ p)) = ok (paths.to_path (c ∷ p))
  own_path s _ = beside s s.manifest_path

  -- `_policy_out_path`
  abbrev pub policy_out_path : Server → Option Text → Result Text
  policy_out_path s (some dir) = ok (paths.join_path dir (policy_name s))
  policy_out_path s none = own_path s s.policy_path

module _ (w : World) (paths : Paths) where
  abbrev pub kept : Server → ServerReport → Result (ServerReport × Server)
  kept s r = ok (r, s)

  abbrev pub dumped : Server → Policy → Text → Result Text → ServerReport × Server
  dumped s policy target (err e) = (judged w s error none policy, s)
  dumped s policy target (ok text) =
      (judged w s clean none policy, record s { policy_path = some target })

  -- Writing the policy: a target that cannot be named raises, and is not caught.
  abbrev pub written : Bool → Option Text → Server → Policy → Result (ServerReport × Server)
  written false out_dir s policy = kept s (judged w s clean none policy)
  written true out_dir s policy = do
    target ← policy_out_path paths s out_dir
    ok (dumped s policy target (dump_policy w.builtin w.safe_dump w.write_text policy target))

  -- `infer_policy` hashes the manifest, which may raise.
  abbrev pub infer_hashed :
      Option Classifier
      → Bool
      → Option Text
      → Server
      → Manifest
      → Result Text
      → Result (ServerReport × Server)
  infer_hashed llm write out_dir s m (err e) = kept s (stopped w s skipped)
  infer_hashed llm write out_dir s m (ok d) =
      written write out_dir s (infer_policy w.classify (λ v. d) m (some s.id) [] llm)

  abbrev pub infer_manifest :
      Option Classifier
      → Bool
      → Option Text
      → Server
      → Result Manifest
      → Result (ServerReport × Server)
  infer_manifest llm write out_dir s (err e) = kept s (stopped w s skipped)
  infer_manifest llm write out_dir s (ok m) =
      infer_hashed llm write out_dir s m (w.digest (hash_payload m))

  abbrev pub infer_path :
      Option Classifier → Bool → Option Text → Server → Result Text → Result (ServerReport × Server)
  infer_path llm write out_dir s (err e) = kept s (stopped w s error)
  infer_path llm write out_dir s (ok p) =
      infer_manifest llm write out_dir s (load_manifest w.manifests w.py (file p))

  -- `_infer_one`: the report, and the server, whose policy path it may set.
  unfoldable pub infer_one :
      Option Classifier → Bool → Option Text → Server → Result (ServerReport × Server)
  infer_one llm write out_dir s =
      if_resolved w (kept s (stopped w s skipped))
        (infer_path llm write out_dir s (required s.manifest_path)) (resolved_env w.py w.environ s)

module _ (w : World) (get_adapter : Server → Result Adapter) (max_events : Option ℕ) where
  abbrev pub watched : Server → Policy → Monitor → Outcome → ServerReport
  watched s policy m (r, some e) = stopped w s error
  watched s policy m (r, none) = with_report w s policy (report_of m r)

  -- Where the monitor is not built, the adapter is not asked to stop what was started.
  abbrev pub monitored : Server → Spec → Policy → Adapter → Started → ServerReport × List Call
  monitored s spec policy a (drift expected actual) =
      (judged w s rug_pull none policy, launched spec policy ∷ [])
  monitored s spec policy a (broken e) = (stopped w s error, launched spec policy ∷ [])
  monitored s spec policy a (started m) = (
    watched s policy m (run_timed w.py m (hooks_of a) max_events fresh a.rounds),
    launched spec policy ∷ halted ∷ [],
  )

  abbrev pub run_started :
      Server → Spec → Policy → Manifest → Adapter → Result (Unit {0}) → ServerReport × List Call
  run_started s spec policy manifest a (err e) = (stopped w s error, [])
  run_started s spec policy manifest a (ok u) =
      monitored s spec policy a (start_monitor w.classify w.digest policy manifest s.mode false)

  abbrev pub run_adapter :
      Server → Spec → Policy → Manifest → Result Adapter → ServerReport × List Call
  run_adapter s spec policy manifest (err e) = (stopped w s error, [])
  run_adapter s spec policy manifest (ok a) =
      run_started s spec policy manifest a (a.start spec policy)

  abbrev pub run_spec : Server → Policy → Manifest → Result Spec → ServerReport × List Call
  run_spec s policy manifest (err e) = (stopped w s error, [])
  run_spec s policy manifest (ok spec) = run_adapter s spec policy manifest (get_adapter s)

  abbrev pub run_contract :
      Server → List (Text × Text) → Result (Policy × Manifest) → ServerReport × List Call
  run_contract s resolved (err e) = (stopped w s error, [])
  run_contract s resolved (ok (policy, manifest)) =
      run_spec s policy manifest (spec_with w.py s policy resolved)

  abbrev pub run_resolved : Server → Expanded (List (Text × Text)) → ServerReport × List Call
  run_resolved s (expanded resolved) = run_contract s resolved (load_contract w s)
  run_resolved s (unresolved var) = (stopped w s skipped, [])
  run_resolved s malformed = (stopped w s skipped, [])

  -- `_run_one`: the report and the calls of the adapter.
  unfoldable pub run_one : Server → ServerReport × List Call
  run_one s = run_resolved s (resolved_env w.py w.environ s)

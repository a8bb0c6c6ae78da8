-- ===== src/Fleet/Aggregate.antt =====
-- `fleet.py`: the batch verbs, and what the report on a fleet says.
use mcp_contract.Base.{
  ℕ, ◌+◌, Bool, true, false, ◌&&◌, List, [], ◌∷◌, map, Option, none, some, ◌==◌, if◌then◌else◌,
  length, keep, any, leb, Text, text_eq, nat_eq, str, Fields, get, Result, traverse,
}
use mcp_contract.Models.{
  id_eq, status_eq, class_eq, Severity, info, warning, critical, ViolationReport,
}
use mcp_contract.Models.Report.{Counts, counts}
use mcp_contract.Models.Hash.{text_leb}
use mcp_contract.Pie.Infer.{Classifier}
use mcp_contract.Fleet.Launch.{Server}
use mcp_contract.Fleet.Verdicts.{
  World, Status, clean, violation, rug_pull, skipped, error, ServerReport, verify_one, audit_one,
}
use mcp_contract.Fleet.Runs.{Paths, Adapter, Call, infer_one, run_one}

-- `FleetReport`
pub record FleetReport : Type 0 where
  pub runs : List ServerReport
  pub started_at : ℕ
  pub engine_version : Text

abbrev pub is_rug_pull : Status → Bool
is_rug_pull rug_pull = true
is_rug_pull _ = false

abbrev pub is_violation : Status → Bool
is_violation violation = true
is_violation _ = false

abbrev pub is_bad_input : Status → Bool
is_bad_input skipped = true
is_bad_input error = true
is_bad_input _ = false

-- `FleetReport.exit_code`
unfoldable pub exit_code : List ServerReport → ℕ
exit_code runs =
    if any (λ r. is_rug_pull r.status) runs
    then 2
    else if any (λ r. is_violation r.status) runs
    then 1
    else if any (λ r. is_bad_input r.status) runs
    then 4
    else 0

-- `_sorted_runs`: a stable sort by the ids.
unfoldable pub insert_run : ServerReport → List ServerReport → List ServerReport
insert_run r [] = r ∷ []
insert_run r (q ∷ runs) =
    let rest = insert_run r runs in
    if text_leb r.server_id q.server_id then r ∷ q ∷ runs else q ∷ rest

unfoldable pub sorted_runs : List ServerReport → List ServerReport
sorted_runs [] = []
sorted_runs (r ∷ runs) = insert_run r (sorted_runs runs)

-- `FleetReport.totals`
pub record Totals : Type 0 where
  pub events : Counts
  pub servers : ℕ
  pub clean_servers : ℕ
  pub violations : ℕ
  pub rug_pulls : ℕ
  pub skipped_servers : ℕ
  pub errors : ℕ

abbrev pub add_status : Status → Totals → Totals
add_status clean t = record t { clean_servers = t.clean_servers + 1 }
add_status violation t = record t { violations = t.violations + 1 }
add_status rug_pull t = record t { rug_pulls = t.rug_pulls + 1 }
add_status skipped t = record t { skipped_servers = t.skipped_servers + 1 }
add_status error t = record t { errors = t.errors + 1 }

abbrev pub add_counts : Counts → Counts → Counts
add_counts n m = record {
  policy = n.policy + m.policy;
  manifest = n.manifest + m.manifest;
  outside = n.outside + m.outside;
  unclassified = n.unclassified + m.unclassified;
}

abbrev pub add_report : Option ViolationReport → Totals → Totals
add_report none t = t
add_report (some r) t = record t { events = add_counts t.events (counts r) }

unfoldable pub totals_from : Totals → List ServerReport → Totals
totals_from t [] = t
totals_from t (r ∷ runs) = totals_from (add_report r.report (add_status r.status t)) runs

abbrev pub no_counts : Counts
no_counts = record { policy = 0; manifest = 0; outside = 0; unclassified = 0 }

abbrev pub no_totals : ℕ → Totals
no_totals servers = record {
  events = no_counts;
  servers = servers;
  clean_servers = 0;
  violations = 0;
  rug_pulls = 0;
  skipped_servers = 0;
  errors = 0;
}

unfoldable pub totals : List ServerReport → Totals
totals runs = totals_from (no_totals (length runs)) runs

-- `FleetReport.severity`
unfoldable pub fleet_severity : List ServerReport → Severity
fleet_severity runs =
    let t = totals runs in
    if leb 1 t.events.outside then critical else if leb 1 t.events.manifest then warning else info

-- `FleetReport._reports`
unfoldable pub reports_of : List ServerReport → List ViolationReport
reports_of [] = []
reports_of (r ∷ runs) = elim r.report [ some v ↦ v ∷ reports_of runs | none ↦ reports_of runs ]

-- `Fleet.select`
abbrev pub matches_all : Fields → List (Text × Text) → Bool
matches_all labels [] = true
matches_all labels ((k, v) ∷ wanted) =
    elim (get k labels) [ some (str t) ↦ t == v | _ ↦ false ] && matches_all labels wanted

unfoldable pub select : List (Text × Text) → List Server → List Server
select wanted servers = keep (λ s. matches_all s.labels wanted) servers

module _ (w : World) where
  -- `Fleet.verify_all`, its runs, or what a server raises.
  unfoldable pub verify_all : Bool → List Server → Result (List ServerReport)
  verify_all allow_empty servers = traverse (verify_one w allow_empty) servers

  -- `Fleet.audit_all`, its runs.
  unfoldable pub audit_all : List Server → List ServerReport
  audit_all servers = map (audit_one w) servers

  -- `Fleet.infer_all`: the runs and the servers as they are left, or what a server raises.
  unfoldable pub infer_all :
      Paths
      → Option Classifier
      → Bool
      → Option Text
      → List Server
      → Result (List (ServerReport × Server))
  infer_all paths llm write out_dir servers = traverse (infer_one w paths llm write out_dir) servers

  -- `Fleet.run_all`, with the calls of each server's adapter.
  unfoldable pub run_all :
      (Server → Result Adapter) → Option ℕ → List Server → List (ServerReport × List Call)
  run_all get_adapter max_events servers = map (run_one w get_adapter max_events) servers

-- ===== src/Bcm/Monitor.antt =====
-- src/mcp_contract/bcm/monitor.py: an adapter's event stream driven against a contract.
pub mod Laws
use mcp_contract.Base.{
  ℕ, zero, suc, ◌+◌, ◌-◌, ◌<◌, ◌≤◌, ◌≡◌, ◌≢◌, ◌↔◌, ◌⊎◌, inl, inr, refl, sym, ap, ◌∙◌, Bool, true,
  false, not, ◌&&◌, ◌||◌, List, [], ◌∷◌, ◌++◌, map, reverse, append-nil, append_assoc, Option, none,
  some, Eq, ◌==◌, contains, if◌then◌else◌, length, take, is_empty, tail, keep, any, all, leb,
  nat_beq, arith, In, In-append, length-append, Distinct, All, All-append, All-at, contains_iff,
  eq_refl, eq_sym, or_false, add_new, add_all, In-add_new, In-add_all, add_new-Distinct,
  add_all-Distinct, subst, Bool-cases, Option-cases, is_some, Text, txt, text_eq, nat_eq, lower,
  lower_code, starts_with, ends_with, split, split_from, join, starts_with_iff, ends_with_iff,
  Value, null, bool, int, float, str, arr, obj, Items, nil, cons, Fields, end, field, dict, list,
  items, keys, get, get_or, has, put, put_default, truthy, to_text, items-list, get-put, Result, ok,
  err, Exception, value_error, key_error, type_error, attribute_error, overflow_error, os_error,
  ◌>>=◌, Result-cases, traverse, traverse-map, item, iterate, dict_of, Builtins,
}
use mcp_contract.Models.{
  CapabilityId, net_http, fs_read, fs_write, proc_exec, env, CapabilityStatus, inferred,
  needs_review, denied, all_ids, id_eq, status_eq, class_eq, Evidence, Capability, ToolIr, Manifest,
  Policy, generator, find_cap, cap, if_inferred, granted, EventKind, net_connect, fs_open,
  proc_spawn, env_read, mcp_call, syscall, EventClass, within_policy, within_manifest,
  outside_contract, BehaviorEvent, Mode, observe, alert, enforce, Severity, info, warning, critical,
  ViolationReport,
}
use mcp_contract.Models.Hash.{hash_of}
use mcp_contract.Models.Report.{is_outside}
use mcp_contract.Bcm.Diff.{classify_event, track_tool_ctx}
use mcp_contract.Bcm.Contract.{manifest_implied_caps}
use mcp_contract.Bcm.Offline.{classified}
use mcp_contract.Pie.Infer.{Classifier}

pub record Monitor : Type 0 where
  pub policy : Policy
  pub mode : Mode
  pub manifest_caps : List Capability

-- `ManifestDriftError`, with the expected and the actual hash; what else is raised; or the monitor.
pub data Started : Type 0 where
  drift : Text → Text → Started
  broken : Exception → Started
  started : Monitor → Started

abbrev pub start_with : Classifier → Policy → Manifest → Mode → Bool → Result Text → Started
start_with classify policy manifest mode allow_drift (err e) = broken e
start_with classify policy manifest mode allow_drift (ok actual) =
    if not (policy.manifest_hash == actual) && not allow_drift
    then drift policy.manifest_hash actual
    else started (record {
      policy = policy;
      mode = mode;
      manifest_caps = manifest_implied_caps classify manifest;
    })

-- `Monitor.__init__`
unfoldable pub start_monitor :
    Classifier → (Value → Result Text) → Policy → Manifest → Mode → Bool → Started
start_monitor classify digest policy manifest mode allow_drift =
    start_with classify policy manifest mode allow_drift (hash_of digest manifest)

-- What `on_alert` and the adapter's `block` raise for an event, if they do.
pub record Hooks : Type 0 where
  pub alert_error : BehaviorEvent → Option Exception
  pub block_error : BehaviorEvent → Option Exception

-- The report's events so far, the calls of `on_alert` and of the adapter's `block`, and the tool
-- context.
pub record Run : Type 0 where
  pub events : List BehaviorEvent
  pub alerts : List BehaviorEvent
  pub blocked : List BehaviorEvent
  pub tool_ctx : Option Text

abbrev pub alerts_in : Mode → Bool
alerts_in observe = false
alerts_in alert = true
alerts_in enforce = true

abbrev pub blocks_in : Mode → Bool
blocks_in enforce = true
blocks_in _ = false

abbrev reached : Option ℕ → ℕ → Bool
reached none n = false
reached (some most) n = leb most n

-- What the handling of a classified event raises: `block` is not called where `on_alert` raised.
abbrev pub alert_failure : Hooks → Mode → BehaviorEvent → Option Exception
alert_failure h mode e = if is_outside e && alerts_in mode then h.alert_error e else none

abbrev pub blocks : Hooks → Mode → BehaviorEvent → Bool
blocks h mode e = is_outside e && (blocks_in mode && not (is_some (alert_failure h mode e)))

abbrev pub first_of : Option Exception → Option Exception → Option Exception
first_of (some e) other = some e
first_of none other = other

abbrev pub failure : Hooks → Mode → BehaviorEvent → Option Exception
failure h mode e =
    first_of (alert_failure h mode e) (if blocks h mode e then h.block_error e else none)

-- How a run ends: the state, and what it raises.
abbrev pub Outcome : Type 0
Outcome = Run × Option Exception

-- `handle_event`: the new state, what it raises, and whether the run stops.
unfoldable pub handle_event :
    Builtins → Monitor → Hooks → Option ℕ → Run → BehaviorEvent → Run × Option Exception × Bool
handle_event py m h max_events r e =
    let (stamped, ctx) = track_tool_ctx e r.tool_ctx in
    let c = classify_event py stamped m.policy m.manifest_caps in
    let e' = classified stamped c in
    let events = r.events ++ e' ∷ [] in
    (
      record {
        events = events;
        alerts = if is_outside e' && alerts_in m.mode then r.alerts ++ e' ∷ [] else r.alerts;
        blocked = if blocks h m.mode e' then r.blocked ++ e' ∷ [] else r.blocked;
        tool_ctx = ctx;
      },
      failure h m.mode e',
      reached max_events (length events),
    )

-- The loop goes on where nothing is raised and the run does not stop.
abbrev pub continued : Run → Option Exception → Bool → Outcome → Outcome
continued r (some x) stop rest = (r, some x)
continued r none true rest = (r, none)
continued r none false rest = rest

-- `run` without a duration: the loop over the adapter's stream, which may raise at its end.
unfoldable pub run_stream :
    Builtins → Monitor → Hooks → Option ℕ → Run → List BehaviorEvent → Option Exception → Outcome
run_stream py m h max_events r [] ending = (r, ending)
run_stream py m h max_events r (e ∷ es) ending =
    let (r', raised, stop) = handle_event py m h max_events r e in
    continued r' raised stop (run_stream py m h max_events r' es ending)

-- What the rounds of the timed loop meet: events, and then the deadline before or while the loop
-- waits for the queue, or the end of the stream, with the error of the pump if it failed.
pub data Rounds : Type 0 where
  expired timed_out : Rounds
  ended : Option Exception → Rounds
  received : BehaviorEvent → Rounds → Rounds

-- `run` with a duration.
unfoldable pub run_timed : Builtins → Monitor → Hooks → Option ℕ → Run → Rounds → Outcome
run_timed py m h max_events r expired = (r, none)
run_timed py m h max_events r timed_out = (r, none)
run_timed py m h max_events r (ended pump_error) = (r, pump_error)
run_timed py m h max_events r (received e rounds) =
    let (r', raised, stop) = handle_event py m h max_events r e in
    continued r' raised stop (run_timed py m h max_events r' rounds)

abbrev pub fresh : Run
fresh = record { events = []; alerts = []; blocked = []; tool_ctx = none }

unfoldable pub report_of : Monitor → Run → ViolationReport
report_of m r = record {
  server_id = m.policy.server_id;
  manifest_hash = m.policy.manifest_hash;
  mode = m.mode;
  events = r.events;
}

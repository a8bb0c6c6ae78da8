-- ===== src/Tests/Monitoring.antt =====
-- Monitoring: runs, and the theorems at concrete inputs.
use mcp_contract.Base.{
  ◌≡◌, ◌↔◌, ◌⊎◌, inl, refl, true, List, [], ◌∷◌, map, none, some, length, In, pos, Text, txt,
  text_eq, nat_eq, lower, Value, int, str, obj, Fields, end, field, Result, ok, err, value_error,
  overflow_error, os_error, runtime_error,
}
use mcp_contract.Models.{
  fs_read, fs_write, inferred, id_eq, status_eq, class_eq, Capability, EventKind, mcp_call, syscall,
  within_policy, within_manifest, outside_contract, BehaviorEvent, enforce,
}
use mcp_contract.Bcm.Diff.{
  event_capability, host_matches, path_matches, classify_value, classify_event,
}
use mcp_contract.Bcm.Diff.Hosts.{NamesSome, host_matches_iff}
use mcp_contract.Bcm.Diff.Laws.{
  CapAdmits, Grants, Implies, IsReadMode, classify_value_iff, within_policy_backed, fs_open_iff,
}
use mcp_contract.Bcm.Contract.{manifest_implied_caps}
use mcp_contract.Bcm.Contract.Laws.{infer_policy-Implies}
use mcp_contract.Bcm.Offline.{
  annotate, load_events, load_events_jsonl, load_line, as_bad_event, remap_unknown_kind, remap_kind,
}
use mcp_contract.Models.Codec.{event_from_dict}
use mcp_contract.Bcm.Offline.Laws.{annotate_lem, load_events_jsonl-Reported}
use mcp_contract.Bcm.Monitor.{
  Monitor, run_stream, run_timed, handle_event, fresh, received, ended, Rounds, Hooks,
}
use mcp_contract.Bcm.Monitor.Laws.{run_timed_lem, delivered, pump_failure}
use mcp_contract.Pie.Infer.{infer_policy}
use mcp_contract.Tests.Fixtures.{
  inference, reader, float_of-Raises, classification, texts, plain, policy, manifest, digest,
  reading, writing, opens, event,
}

abbrev inside : BehaviorEvent
inside = opens (txt "/data/x/../y") (txt "r")

abbrev escape : BehaviorEvent
escape = opens (txt "/data/../etc/passwd") (txt "r")

abbrev implied : List Capability
implied = reading ∷ writing ∷ []

classes :
    (classify_event plain inside policy implied ≡ within_policy)
    × (classify_event plain escape policy implied ≡ outside_contract)
    × (classify_event plain (opens (txt "/data/x") (txt "rb+")) policy implied ≡ within_manifest)
    × (classify_event plain (event syscall end) policy [] ≡ within_policy)
unfolding classification
classes = (refl, refl, refl, refl)

-- A prefix that begins with ".." covers paths above it: only absolute prefixes are safe.
parent_prefix : path_matches (txt "../../etc/passwd") (txt ".." ∷ []) ≡ true
unfolding classification
parent_prefix = refl

abbrev sample : Text
sample = txt "/data/x/../y"

host_matches_iff_example :
    (host_matches (txt "API.github.com") (txt "*.github.com" ∷ []) ≡ true)
    ↔ NamesSome (txt "API.github.com") (txt "*.github.com" ∷ [])
host_matches_iff_example = host_matches_iff (txt "API.github.com") (txt "*.github.com" ∷ [])

classify_value_iff_example :
    ((classify_value fs_write (txt "/data/x") policy implied ≡ within_policy)
      ↔ Grants policy fs_write (txt "/data/x"))
    × ((classify_value fs_write (txt "/data/x") policy implied ≡ within_manifest)
        ↔ (¬ (Grants policy fs_write (txt "/data/x")) × Implies implied fs_write (txt "/data/x")))
    × ((classify_value fs_write (txt "/data/x") policy implied ≡ outside_contract) ↔ (
        ¬ (Grants policy fs_write (txt "/data/x")) × ¬ (Implies implied fs_write (txt "/data/x"))))
classify_value_iff_example = classify_value_iff fs_write (txt "/data/x") policy implied

inside_capability : event_capability plain inside ≡ some (fs_read, sample)
unfolding classification
inside_capability = refl

within_policy_backed_example :
    (c : Capability) × In c policy.caps
    × (c.id ≡ fs_read)
    × (c.status ≡ inferred)
    × CapAdmits c fs_read sample
within_policy_backed_example =
    within_policy_backed plain inside policy implied fs_read sample inside_capability classes.0

fs_open_iff_example :
    let mode = lower (txt "rb+") in
    ((event_capability plain (opens sample (txt "rb+")) ≡ some (fs_read, sample)) ↔ IsReadMode mode)
    × ((event_capability plain (opens sample (txt "rb+")) ≡ some (fs_write, sample))
        ↔ ¬ (IsReadMode mode))
unfolding texts
fs_open_iff_example = fs_open_iff plain (opens sample (txt "rb+")) sample refl refl

data_granted : Grants (infer_policy reader digest manifest none [] none) fs_read (txt "/data/x")
unfolding inference
data_granted = (reading, refl, inl (λ e. cc, refl))

infer_policy-Implies_example :
    Implies (manifest_implied_caps reader manifest) fs_read (txt "/data/x")
infer_policy-Implies_example =
    infer_policy-Implies reader digest manifest none none fs_read (txt "/data/x") data_granted

abbrev calls : BehaviorEvent
calls = event mcp_call (field (txt "tool") (str (txt "read_file")) end)

annotate_lem_example :
    (map (λ e. e.classification) (annotate plain policy implied none (calls ∷ escape ∷ []))
      ≡ map (λ e. some (classify_event plain e policy implied)) (calls ∷ escape ∷ []))
    × (map {B = EventKind × Fields}
          (λ e. (e.kind, e.detail))
          (annotate plain policy implied none (calls ∷ escape ∷ []))
        ≡ map {B = EventKind × Fields} (λ e. (e.kind, e.detail)) (calls ∷ escape ∷ []))
annotate_lem_example = annotate_lem plain policy implied none (calls ∷ escape ∷ [])

abbrev enforcer : Monitor
enforcer = record { policy = policy; mode = enforce; manifest_caps = implied }

abbrev stream : List BehaviorEvent
stream = calls ∷ inside ∷ escape ∷ inside ∷ []

-- Nothing raises; and the adapter's `block` does.
abbrev quiet : Hooks
quiet = record { alert_error = λ e. none; block_error = λ e. none }

abbrev unkilled : Hooks
unkilled = record { alert_error = λ e. none; block_error = λ e. some runtime_error }

blocked_test : length (run_stream plain enforcer quiet (some 3) fresh stream none).0.blocked ≡ 1
unfolding run_stream handle_event classification
blocked_test = refl

unkilled_test : (run_stream plain enforcer unkilled none fresh stream none).1 ≡ some runtime_error
unfolding run_stream handle_event classification
unkilled_test = refl

abbrev rounds : Rounds
rounds = received inside (ended (some os_error))

run_timed_lem_example :
    run_timed plain enforcer unkilled none fresh rounds
    ≡ run_stream plain enforcer unkilled none fresh (delivered rounds) (pump_failure rounds)
run_timed_lem_example = run_timed_lem plain enforcer unkilled none fresh rounds

-- A line whose time stamp is a huge integer is not reported as a bad event.
abbrev parse_huge : Text → Result Value
parse_huge t =
    ok (obj (field (txt "ts") (int (pos 7)) (field (txt "kind") (str (txt "env.read")) end)))

huge_time_stamp : load_events_jsonl plain parse_huge (ok (txt "x" ∷ [])) ≡ err overflow_error
unfolding load_events_jsonl load_events load_line as_bad_event remap_unknown_kind remap_kind
    event_from_dict classification
huge_time_stamp = refl

load_events_jsonl-Reported_example :
    ((overflow_error ≡ value_error) ⊎ (overflow_error ≡ overflow_error))
    ⊎ ((overflow_error ≡ os_error) × (Result.ok (txt "x" ∷ []) ≡ err os_error))
load_events_jsonl-Reported_example =
    load_events_jsonl-Reported plain parse_huge float_of-Raises (λ t x e. cc) (ok (txt "x" ∷ []))
      (λ x e. cc) overflow_error huge_time_stamp

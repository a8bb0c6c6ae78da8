-- ===== src/Bcm/Offline.antt =====
-- src/mcp_contract/bcm/report.py: recorded events, read from JSON lines and classified in a batch.
pub mod Laws
use mcp_contract.Base.{
  ℕ, zero, suc, ◌+◌, ◌-◌, ◌<◌, ◌≤◌, ◌≡◌, ◌≢◌, ◌↔◌, ◌⊎◌, inl, inr, refl, sym, ap, ◌∙◌, Bool, true,
  false, not, ◌&&◌, ◌||◌, List, [], ◌∷◌, ◌++◌, map, reverse, append-nil, append_assoc, Option, none,
  some, Eq, ◌==◌, contains, if◌then◌else◌, length, take, is_empty, tail, keep, any, all, leb,
  nat_beq, arith, In, In-append, length-append, Distinct, All, All-append, All-at, contains_iff,
  eq_refl, eq_sym, or_false, add_new, add_all, In-add_new, In-add_all, add_new-Distinct,
  add_all-Distinct, subst, Bool-cases, Option-cases, is_some, Text, txt, text_eq, nat_eq, lower,
  lower_code, starts_with, ends_with, split, split_from, join, starts_with_iff, ends_with_iff,
  Value, null, bool, int, float, str, arr, obj, Items, nil, cons, Fields, end, field, dict, list,
  items, keys, get, get_or, has, put, put_default, truthy, to_text, items-list, get-put, Result, ok,
  err, Exception, value_error, key_error, type_error, attribute_error, os_error, ◌>>=◌,
  Result-cases, traverse, traverse-map, item, iterate, dict_of, Builtins,
}
use mcp_contract.Models.{
  CapabilityId, net_http, fs_read, fs_write, proc_exec, env, CapabilityStatus, inferred,
  needs_review, denied, all_ids, id_eq, status_eq, class_eq, Evidence, Capability, ToolIr, Manifest,
  Policy, generator, find_cap, cap, if_inferred, granted, EventKind, net_connect, fs_open,
  proc_spawn, env_read, mcp_call, syscall, EventClass, within_policy, within_manifest,
  outside_contract, BehaviorEvent, Mode, observe, alert, enforce, Severity, info, warning, critical,
  ViolationReport,
}
use mcp_contract.Models.Codec.{kind_value, all_kinds, event_from_dict, event_to_dict}
use mcp_contract.Posix.{strip}
use mcp_contract.Bcm.Diff.{classify_event, track_tool_ctx}
use mcp_contract.Bcm.Contract.{manifest_implied_caps}
use mcp_contract.Pie.Infer.{Classifier}

abbrev dict_or_empty : Option Value → Fields
dict_or_empty (some (obj fs)) = fs
dict_or_empty _ = end

-- `_remap_unknown_kind`: the document and whether its kind was unknown.
unfoldable pub remap_kind : Text → Fields → Fields × Bool
remap_kind kind d = if contains (map kind_value all_kinds) kind then (d, false) else (
  put (txt "detail")
      (obj (put_default (txt "group") (str kind) (dict_or_empty (get (txt "detail") d))))
      (put (txt "kind") (str (kind_value syscall)) d),
  true,
)

-- The kind of a document, if it is a text and not empty.
abbrev pub usable_kind : Value → Option Text
usable_kind (str (c ∷ s)) = some (c ∷ s)
usable_kind _ = none

unfoldable pub remap_unknown_kind : Fields → Result (Fields × Bool)
remap_unknown_kind d = elim (usable_kind (get_or (txt "kind") null d)) [
  | some kind ↦ ok (remap_kind kind d)
  | none ↦ err value_error
]

-- The exceptions that become a `ValueError` with the line's number; others pass through.
unfoldable pub as_bad_event : {A : Type 0} → Result A → Result A
as_bad_event (err key_error) = err value_error
as_bad_event (err type_error) = err value_error
as_bad_event (err e) = err e
as_bad_event (ok a) = ok a

abbrev pub as_object : Value → Result Fields
as_object (obj d) = ok d
as_object v = err value_error

-- One line of the file; `parse` is `json.loads`.
unfoldable pub load_line : Builtins → (Text → Result Value) → Text → Result (BehaviorEvent × Bool)
load_line py parse line = as_bad_event (do
  v ← parse line
  d ← as_object v
  (d', remapped) ← remap_unknown_kind d
  e ← event_from_dict py d'
  ok (e, remapped))

-- The loop of the loader: the events, and the line of the one warning, if there is one.
load_from :
    Builtins
    → (Text → Result Value)
    → ℕ
    → Option ℕ
    → List Text
    → Result (List BehaviorEvent × Option ℕ)
load_from py parse lineno warned [] = ok ([], warned)
load_from py parse lineno warned (raw ∷ lines) =
    let line = strip raw in
    let skipped = load_from py parse (lineno + 1) warned lines in
    let loaded : Result (List BehaviorEvent × Option ℕ) = (do
      (e, remapped) ← load_line py parse line
      let first = remapped && not (is_some warned)
      (es, w) ← load_from py parse (lineno + 1) (if first then some lineno else warned) lines
      ok (e ∷ es, w)) in
    if is_empty line then skipped else loaded

unfoldable pub load_events :
    Builtins → (Text → Result Value) → List Text → Result (List BehaviorEvent × Option ℕ)
unfolding load_from
load_events py parse lines = load_from py parse 1 none lines

-- `load_events_jsonl`, on the lines of the file or what opening and reading it raises.
unfoldable pub load_events_jsonl :
    Builtins → (Text → Result Value) → Result (List Text) → Result (List BehaviorEvent × Option ℕ)
load_events_jsonl py parse opened = do lines ← opened; load_events py parse lines

-- The lines that `dump_events_jsonl` writes; `dumps` is `json.dumps` with sorted keys.
unfoldable pub dump_events : (Value → Text) → List BehaviorEvent → List Text
dump_events dumps es = map (λ e. dumps (event_to_dict e)) es

abbrev pub classified : BehaviorEvent → EventClass → BehaviorEvent
classified e c = record e { classification = some c }

-- The loop of `classify_events`: the events with their tool context and their class.
unfoldable pub annotate :
    Builtins → Policy → List Capability → Option Text → List BehaviorEvent → List BehaviorEvent
annotate py policy caps ctx [] = []
annotate py policy caps ctx (e ∷ es) =
    let (e', ctx') = track_tool_ctx e ctx in
    classified e' (classify_event py e' policy caps) ∷ annotate py policy caps ctx' es

unfoldable pub classify_events :
    Builtins → Classifier → List BehaviorEvent → Policy → Manifest → ViolationReport
classify_events py classify events policy m = record {
  server_id = policy.server_id;
  manifest_hash = policy.manifest_hash;
  mode = observe;
  events = annotate py policy (manifest_implied_caps classify m) none events;
}

-- ===== src/Bcm/Contract.antt =====
-- src/mcp_contract/bcm/contract.py: the capabilities that the manifest implies.
pub mod Laws
use mcp_contract.Base.{
  ℕ, zero, suc, ◌+◌, ◌-◌, ◌<◌, ◌≤◌, ◌≡◌, ◌≢◌, ◌↔◌, ◌⊎◌, inl, inr, refl, sym, ap, ◌∙◌, Bool, true,
  false, not, ◌&&◌, ◌||◌, List, [], ◌∷◌, ◌++◌, map, reverse, append-nil, append_assoc, Option, none,
  some, Eq, ◌==◌, contains, if◌then◌else◌, length, take, is_empty, tail, keep, any, all, leb,
  nat_beq, arith, In, In-append, length-append, Distinct, All, All-append, All-at, contains_iff,
  eq_refl, add_new, add_all, In-add_new, In-add_all, add_new-Distinct, add_all-Distinct, subst,
  Bool-cases, Option-cases, is_some, Text, txt, text_eq, nat_eq, lower, lower_code, starts_with,
  ends_with, split, split_from, join, starts_with_iff, ends_with_iff, Value, null, bool, int, float,
  str, arr, obj, Items, nil, cons, Fields, end, field, dict, list, items, keys, get, get_or, has,
  put, put_default, truthy, to_text, items-list, get-put, Result, ok, err, Exception, value_error,
  key_error, type_error, attribute_error, os_error, ◌>>=◌, Result-cases, traverse, traverse-map,
  item, iterate, dict_of, Builtins,
}
use mcp_contract.Models.{
  CapabilityId, net_http, fs_read, fs_write, proc_exec, env, CapabilityStatus, inferred,
  needs_review, denied, all_ids, id_eq, status_eq, class_eq, Evidence, Capability, ToolIr, Manifest,
  Policy, generator, find_cap, cap, if_inferred, granted, EventKind, net_connect, fs_open,
  proc_spawn, env_read, mcp_call, syscall, EventClass, within_policy, within_manifest,
  outside_contract, BehaviorEvent, Mode, observe, alert, enforce, Severity, info, warning, critical,
  ViolationReport,
}
use mcp_contract.Pie.Infer.{
  evidence_eq, star, Classifier, rule_signals, all_inferred, merge_evidence,
}

-- `if v != "*" and v not in values: values.append(v)`, for each value of a signal.
unfoldable pub add_values : List Text → List Text → List Text
add_values values [] = values
add_values values (v ∷ vs) =
    add_values (if not (v == star) && not (contains values v) then values ++ v ∷ [] else values) vs

unfoldable pub union_values : List Text → List Capability → List Text
union_values values [] = values
union_values values (s ∷ signals) = union_values (add_values values s.values) signals

-- `not sig.values or "*" in sig.values`
abbrev pub lacks_scope : Capability → Bool
lacks_scope s = is_empty s.values || contains s.values star

abbrev pub implied_values : CapabilityId → Bool → List Text → List Text
implied_values cap_id false values = values
implied_values cap_id true values = if cap_id == net_http then values ++ star ∷ [] else []

-- The body of the loop over the classes, for a class that has signals.
unfoldable pub implied_cap : CapabilityId → List Capability → Capability
implied_cap cap_id signals = record {
  id = cap_id;
  status = if all_inferred signals then inferred else needs_review;
  values = implied_values cap_id (any lacks_scope signals) (union_values [] signals);
  evidence = merge_evidence [] signals;
}

unfoldable pub merge_implied :
    (CapabilityId → List Capability) → List CapabilityId → List Capability
merge_implied buckets [] = []
merge_implied buckets (id ∷ ids) =
    let rest = merge_implied buckets ids in
    if is_empty (buckets id) then rest else implied_cap id (buckets id) ∷ rest

unfoldable pub manifest_implied_caps : Classifier → Manifest → List Capability
manifest_implied_caps classify m = merge_implied (rule_signals classify m.tools) all_ids

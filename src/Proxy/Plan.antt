-- ===== src/Proxy/Plan.antt =====
-- src/mcp_contract/proxy/plan.py: the egress plan of a policy; and `EgressProxy.allowed`.
pub mod Laws
use mcp_contract.Base.{
  ℕ, zero, suc, ◌+◌, ◌-◌, ◌<◌, ◌≤◌, ◌≡◌, ◌≢◌, ◌↔◌, ◌⊎◌, inl, inr, refl, sym, ap, ◌∙◌, Bool, true,
  false, not, ◌&&◌, ◌||◌, List, [], ◌∷◌, ◌++◌, map, reverse, append-nil, append_assoc, Option, none,
  some, Eq, ◌==◌, contains, if◌then◌else◌, length, take, is_empty, tail, keep, any, all, leb,
  nat_beq, arith, In, In-append, length-append, Distinct, All, All-append, All-at, contains_iff,
  eq_refl, eq_sym, or_false, add_new, add_all, In-add_new, In-add_all, add_new-Distinct,
  add_all-Distinct, ℤ, pos, negsuc, subst, Bool-cases, Option-cases, is_some, Text, txt, text_eq,
  nat_eq, lower, lower_code, starts_with, ends_with, split, split_from, join, starts_with_iff,
  ends_with_iff, Value, null, bool, int, float, str, arr, obj, Items, nil, cons, Fields, end, field,
  dict, list, items, keys, get, get_or, has, put, put_default, truthy, to_text, items-list, get-put,
  Result, ok, err, Exception, value_error, key_error, type_error, attribute_error, overflow_error,
  os_error, ◌>>=◌, Result-cases, IsKnown, Raises, Raises->>=, item-Raises, dict_of-Raises, traverse,
  traverse-map, item, iterate, dict_of, Builtins,
}
use mcp_contract.Models.{
  CapabilityId, net_http, fs_read, fs_write, proc_exec, env, CapabilityStatus, inferred,
  needs_review, denied, all_ids, id_eq, status_eq, class_eq, Evidence, Capability, ToolIr, Manifest,
  Policy, generator, find_cap, cap, if_inferred, granted, EventKind, net_connect, fs_open,
  proc_spawn, env_read, mcp_call, syscall, EventClass, within_policy, within_manifest,
  outside_contract, BehaviorEvent, Mode, observe, alert, enforce, Severity, info, warning, critical,
  ViolationReport,
}
use mcp_contract.Models.Hash.{text_leb}
use mcp_contract.Bcm.Diff.{wildcard, host_matches}

pub data PlanMode : Type 0 where
  deny allowlist open_all : PlanMode

pub record EgressPlan : Type 0 where
  pub mode : PlanMode
  pub hosts : List Text

unfoldable pub insert_text : Text → List Text → List Text
insert_text t [] = t ∷ []
insert_text t (u ∷ us) = if text_leb t u then t ∷ u ∷ us else u ∷ insert_text t us

-- `sorted(texts)`
unfoldable pub sort_texts : List Text → List Text
sort_texts [] = []
sort_texts (t ∷ ts) = insert_text t (sort_texts ts)

abbrev pub plan_of : Option Capability → EgressPlan
plan_of none = record { mode = deny; hosts = [] }
plan_of (some c) =
    if is_empty c.values
    then record { mode = deny; hosts = [] }
    else if contains c.values wildcard
    then record { mode = open_all; hosts = [] }
    else record { mode = allowlist; hosts = sort_texts (add_all [] c.values) }

unfoldable pub egress_plan : Policy → EgressPlan
egress_plan p = plan_of (granted p net_http)

-- `EgressProxy.allowed`
unfoldable pub allowed : EgressPlan → Text → Bool
allowed plan host = elim plan.mode [
  | open_all ↦ true
  | deny ↦ false
  | allowlist ↦ host_matches host plan.hosts
]

-- ===== src/Pie/Infer.antt =====
-- src/mcp_contract/pie/inference.py: the signals of all tools merged into one policy.
pub mod Merge
pub mod Laws
pub mod Values
use mcp_contract.Base.{
  ℕ, zero, suc, ◌+◌, ◌-◌, ◌<◌, ◌≤◌, ◌≡◌, ◌≢◌, ◌↔◌, ◌⊎◌, inl, inr, refl, sym, ap, ◌∙◌, Bool, true,
  false, not, ◌&&◌, ◌||◌, List, [], ◌∷◌, ◌++◌, map, reverse, append-nil, append_assoc, Option, none,
  some, Eq, ◌==◌, contains, if◌then◌else◌, length, take, is_empty, tail, keep, any, all, leb,
  nat_beq, arith, In, In-append, length-append, Distinct, All, All-append, All-at, contains_iff,
  eq_refl, add_new, add_all, In-add_new, In-add_all, add_new-Distinct, add_all-Distinct, subst,
  Bool-cases, Option-cases, is_some, Text, txt, text_eq, nat_eq, lower, lower_code, starts_with,
  ends_with, split, split_from, join, starts_with_iff, ends_with_iff, Value, null, bool, int, float,
  str, arr, obj, Items, nil, cons, Fields, end, field, dict, list, items, keys, get, get_or, has,
  put, put_default, truthy, to_text, items-list, get-put, Result, ok, err, Exception, value_error,
  key_error, type_error, attribute_error, os_error, ◌>>=◌, Result-cases, traverse, traverse-map,
  item, iterate, dict_of, Builtins,
}
use mcp_contract.Models.{
  CapabilityId, net_http, fs_read, fs_write, proc_exec, env, CapabilityStatus, inferred,
  needs_review, denied, all_ids, id_eq, status_eq, class_eq, Evidence, Capability, ToolIr, Manifest,
  Policy, generator, find_cap, cap, if_inferred, granted, EventKind, net_connect, fs_open,
  proc_spawn, env_read, mcp_call, syscall, EventClass, within_policy, within_manifest,
  outside_contract, BehaviorEvent, Mode, observe, alert, enforce, Severity, info, warning, critical,
  ViolationReport,
}
use native.Mathlib.Decide.{ℕ_discrete}
use mcp_contract.Models.Codec.{id_value}
use mcp_contract.Models.Hash.{hash}

Evidence-discrete : Discrete Evidence
Evidence-discrete = hlevel ℕ_discrete

instance unfoldable pub evidence_eq : Eq Evidence
unfolding Evidence-discrete
evidence_eq = record { dec = Evidence-discrete }

abbrev pub star : Text
star = txt "*"

-- The values other than "*", and whether a list has some.
abbrev pub concrete : List Text → List Text
concrete = keep (λ v. not (v == star))

-- The loop of `merge_class_signals` over the signals of a class.
unfoldable pub merge_values : List Text → List Capability → List Text
merge_values values [] = values
merge_values values (s ∷ signals) = merge_values (add_all values (concrete s.values)) signals

unfoldable pub merge_evidence : List Evidence → List Capability → List Evidence
merge_evidence evidence [] = evidence
merge_evidence evidence (s ∷ signals) = merge_evidence (add_all evidence s.evidence) signals

abbrev pub is_scope_unknown : CapabilityId → Capability → Bool
is_scope_unknown cap_id s =
    is_empty (concrete s.values) || (cap_id == net_http && contains s.values star)

abbrev pub all_inferred : List Capability → Bool
all_inferred = all (λ s. s.status == inferred)

abbrev pub no_signal : CapabilityId → Capability
no_signal cap_id = record { id = cap_id; status = denied; values = []; evidence = [] }

abbrev pub merge_signals : CapabilityId → List Capability → Capability
merge_signals cap_id signals =
    let values = merge_values [] signals in
    record {
      id = cap_id;
      status = if all_inferred signals then inferred else needs_review;
      values =
          if cap_id == net_http
            && any (is_scope_unknown cap_id) signals
            && not (contains values star)
          then values ++ star ∷ []
          else values;
      evidence = merge_evidence [] signals;
    }

unfoldable pub merge_class_signals : CapabilityId → List Capability → Capability
merge_class_signals cap_id [] = no_signal cap_id
merge_class_signals cap_id (s ∷ signals) = merge_signals cap_id (s ∷ signals)

abbrev llm_evidence : Text → Evidence → Evidence
llm_evidence name ev = record {
  tool = if is_empty ev.tool then name else ev.tool;
  source = txt "llm";
  detail = ev.detail;
}

-- `_clamp_llm`
unfoldable pub clamp_llm : Capability → ToolIr → Capability
clamp_llm s tool =
    let evidence = map (llm_evidence tool.name) s.evidence in
    record {
      id = s.id;
      status = needs_review;
      values = s.values;
      evidence =
          if is_empty evidence
          then record {
            tool = tool.name;
            source = txt "llm";
            detail = txt "LLM suggested " ++ id_value s.id;
          }
            ∷ []
          else evidence;
    }

-- A classifier of tools, as `classify_tool` and `llm.suggest` are.
abbrev pub Classifier : Type 0
Classifier = ToolIr → List Capability

abbrev pub of_class : CapabilityId → List Capability → List Capability
of_class cap_id = keep (λ c. c.id == cap_id)

-- `signals[cap_id]` after the loop over the tools.
unfoldable pub rule_signals : Classifier → List ToolIr → CapabilityId → List Capability
rule_signals classify [] cap_id = []
rule_signals classify (t ∷ tools) cap_id =
    of_class cap_id (classify t) ++ rule_signals classify tools cap_id

-- What the suggestions append to `signals[cap_id]`.
unfoldable pub llm_signals : Classifier → List ToolIr → CapabilityId → List Capability
llm_signals suggest [] cap_id = []
llm_signals suggest (t ∷ tools) cap_id =
    map (λ s. clamp_llm s t) (of_class cap_id (suggest t)) ++ llm_signals suggest tools cap_id

-- The rules win: suggestions count only for the classes that no rule has flagged.
unfoldable pub signals :
    Classifier → Option Classifier → List ToolIr → CapabilityId → List Capability
signals classify none tools cap_id = rule_signals classify tools cap_id
signals classify (some suggest) tools cap_id =
    let rules = rule_signals classify tools cap_id in
    if is_empty rules then rules ++ llm_signals suggest tools cap_id else rules

-- A merged proc.exec capability is never left inferred.
abbrev pub clamp_exec : CapabilityId → Capability → Capability
clamp_exec cap_id c =
    if cap_id == proc_exec && c.status == inferred then record c { status = needs_review } else c

-- The capability of one class before overrides.
unfoldable pub infer_class : CapabilityId → List Capability → Capability
infer_class cap_id [] = no_signal cap_id
infer_class cap_id (s ∷ ss) = clamp_exec cap_id (merge_class_signals cap_id (s ∷ ss))

abbrev override_evidence : Evidence
override_evidence = record {
  tool = [];
  source = txt "override";
  detail = txt "user override replaced the inferred capability";
}

-- `by_id[override.id] = Capability(...)` for each override in turn.
unfoldable pub apply_overrides :
    (CapabilityId → Capability) → List Capability → CapabilityId → Capability
apply_overrides by_id [] cap_id = by_id cap_id
apply_overrides by_id (o ∷ overrides) cap_id =
    let marked : Capability = record o { evidence = o.evidence ++ override_evidence ∷ [] } in
    apply_overrides (λ id. if id == o.id then marked else by_id id) overrides cap_id

abbrev or_text : Option Text → Text → Text
or_text none d = d
or_text (some []) d = d
or_text (some (c ∷ s)) d = c ∷ s

-- `infer_policy`; a missing `overrides` is the empty list.
unfoldable pub infer_policy :
    Classifier
    → (Value → Text)
    → Manifest
    → Option Text
    → List Capability
    → Option Classifier
    → Policy
infer_policy classify digest manifest server_id overrides llm = record {
  server_id = or_text server_id manifest.server_name;
  manifest_hash = hash digest manifest;
  caps =
      map
        (apply_overrides (λ id. infer_class id (signals classify llm manifest.tools id)) overrides)
        all_ids;
  backend_hint = null;
  generated_by = generator;
}

-- ===== src/Tests/Fixtures.antt =====
-- A policy, a manifest and the built-in conversions that the tests share.
use mcp_contract.Base.{
  ℕ, refl, List, [], ◌∷◌, none, add_new, add_all, Text, txt, text_eq, nat_eq, lower_code,
  starts_with, ends_with, split_from, join, Value, null, int, float, str, Fields, end, field,
  Result, ok, err, value_error, type_error, overflow_error, Raises, Builtins,
}
use mcp_contract.Models.{
  CapabilityId, net_http, fs_read, fs_write, CapabilityStatus, inferred, needs_review, id_eq,
  status_eq, class_eq, Capability, ToolIr, Manifest, Policy, generator, find_cap, granted,
  EventKind, fs_open, BehaviorEvent,
}
use mcp_contract.Posix.{
  normpath, components, resolve_all, resolve, leading, basename, first_word, strip,
}
use mcp_contract.Bcm.Diff.{
  is_read_mode, event_capability, host_matches_one, host_matches, path_matches_one, path_matches,
  value_matches, grant_admits, implies, classify_value, classify_event, track_tool_ctx,
}
use mcp_contract.Pie.Infer.{
  Classifier, evidence_eq, merge_values, merge_evidence, merge_class_signals, rule_signals,
  llm_signals, signals, infer_class, apply_overrides, infer_policy, clamp_llm,
}

abbrev pub float_of : Value → Result ℕ
float_of (float b) = ok b
float_of null = err type_error
float_of (int n) = err overflow_error
float_of _ = err value_error

abbrev pub plain : Builtins
plain = record { show = λ v. txt "?"; to_float = float_of; to_float-float = λ b. refl }

abbrev pub capability : CapabilityId → CapabilityStatus → List Text → Capability
capability id status values = record { id = id; status = status; values = values; evidence = [] }

abbrev pub github : Capability
github = capability net_http inferred (txt "*.github.com" ∷ [])

abbrev pub reading : Capability
reading = capability fs_read inferred (txt "/data" ∷ [])

abbrev pub writing : Capability
writing = capability fs_write needs_review (txt "/data" ∷ [])

abbrev pub policy : Policy
policy = record {
  server_id = txt "files";
  manifest_hash = txt "sha256:1";
  caps = github ∷ reading ∷ writing ∷ [];
  backend_hint = null;
  generated_by = generator;
}

abbrev pub tool : ToolIr
tool = record {
  name = txt "read_file";
  description = txt "Read a file under /data";
  input_schema = end;
  raw = end;
}

abbrev pub manifest : Manifest
manifest = record { server_name = txt "files"; tools = tool ∷ []; raw = end }

abbrev pub classifier : Classifier
classifier t = reading ∷ writing ∷ []

abbrev pub reader : Classifier
reader t = reading ∷ []

abbrev pub suggester : Classifier
suggester t = github ∷ reading ∷ []

abbrev pub digest : Value → Text
digest v = txt "1"

abbrev pub event : EventKind → Fields → BehaviorEvent
event kind detail = record {
  ts = 0;
  kind = kind;
  detail = detail;
  tool_ctx = null;
  classification = none;
  backend = null;
}

abbrev pub opens : Text → Text → BehaviorEvent
opens path mode = event fs_open (field (txt "path") (str path) (field (txt "mode") (str mode) end))

pub float_of-Raises : (v : Value) → Raises (float_of v)
float_of-Raises (float b) = tt
float_of-Raises null = tt
float_of-Raises (int n) = tt
float_of-Raises _ = tt

-- What the tests compute with.
unfoldable pub texts : Unit {0}
unfolding text_eq nat_eq lower_code split_from starts_with ends_with join strip normpath components
    resolve_all resolve leading basename first_word
texts = tt

unfoldable pub classification : Unit {0}
unfolding texts id_eq status_eq class_eq find_cap granted is_read_mode event_capability
    host_matches_one host_matches path_matches_one path_matches value_matches grant_admits implies
    classify_value classify_event track_tool_ctx
classification = tt

unfoldable pub inference : Unit {0}
unfolding classification evidence_eq add_new add_all merge_values merge_evidence merge_class_signals
    rule_signals llm_signals signals infer_class apply_overrides infer_policy clamp_llm
inference = tt

-- ===== src/Loader.antt =====
-- `manifest.py`: an MCP tool list, as a file or a parsed document, becomes a `Manifest`.
use mcp_contract.Base.{
  ℕ, zero, suc, ◌+◌, ◌-◌, ◌<◌, ◌≤◌, ◌≡◌, ◌≢◌, ◌↔◌, ◌⊎◌, inl, inr, refl, sym, ap, ◌∙◌, Bool, true,
  false, not, ◌&&◌, ◌||◌, List, [], ◌∷◌, ◌++◌, map, reverse, append-nil, append_assoc, Option, none,
  some, Eq, ◌==◌, contains, if◌then◌else◌, length, take, is_empty, tail, keep, any, all, leb,
  nat_beq, arith, In, In-append, length-append, Distinct, All, All-append, All-at, contains_iff,
  eq_refl, eq_sym, or_false, add_new, add_all, In-add_new, In-add_all, add_new-Distinct,
  add_all-Distinct, ℤ, pos, negsuc, subst, Bool-cases, Option-cases, is_some, Text, txt, text_eq,
  nat_eq, lower, lower_code, starts_with, ends_with, split, split_from, join, starts_with_iff,
  ends_with_iff, Value, null, bool, int, float, str, arr, obj, Items, nil, cons, Fields, end, field,
  dict, list, items, keys, get, get_or, has, put, put_default, truthy, to_text, items-list, get-put,
  Result, ok, err, Exception, value_error, key_error, type_error, attribute_error, overflow_error,
  os_error, ◌>>=◌, Result-cases, IsKnown, Raises, Raises->>=, item-Raises, dict_of-Raises, traverse,
  traverse-map, item, iterate, dict_of, Builtins,
}
use mcp_contract.Models.{
  CapabilityId, net_http, fs_read, fs_write, proc_exec, env, CapabilityStatus, inferred,
  needs_review, denied, all_ids, id_eq, status_eq, class_eq, Evidence, Capability, ToolIr, Manifest,
  Policy, generator, find_cap, cap, if_inferred, granted, EventKind, net_connect, fs_open,
  proc_spawn, env_read, mcp_call, syscall, EventClass, within_policy, within_manifest,
  outside_contract, BehaviorEvent, Mode, observe, alert, enforce, Severity, info, warning, critical,
  ViolationReport,
}
use mcp_contract.Models.Codec.{to_str}
pub mod Names
pub mod Laws

-- What `load_manifest` is called with.
pub data Source : Type 0 where
  parsed : Fields → Source
  file : Text → Source
  unsupported : Source

-- `pathlib`, `json` and `yaml`. A parser gives no document where it raises its own error.
pub record Library : Type 0 where
  pub stem : Text → Text
  pub suffix : Text → Text
  pub read_text : Text → Result Text
  pub json_loads : Text → Option Value
  pub yaml_load : Text → Option Value

-- `except OSError: raise ValueError`
unfoldable pub readable : Result Text → Result Text
readable (err os_error) = err value_error
readable r = r

abbrev pub or_invalid : Option Value → Result Value
or_invalid none = err value_error
or_invalid (some v) = ok v

abbrev or_else : Option Value → Result Value → Result Value
or_else (some v) other = ok v
or_else none other = other

abbrev pub as_text : Option Value → Option Text
as_text (some (str (c ∷ s))) = some (c ∷ s)
as_text _ = none

abbrev schema_of : Value → Fields
schema_of (obj fs) = fs
schema_of _ = end

-- The `result` of a JSON-RPC response, where it is an object.
unfoldable pub result_scope : Option Value → Option Fields
result_scope (some (obj fs)) = some fs
result_scope _ = none

unfoldable pub tool_list : Option Value → Result (List Value)
tool_list (some (arr vs)) = ok (items vs)
tool_list _ = err value_error

-- `_extract_tools`
unfoldable pub extract_tools : Fields → Result (List Value)
extract_tools doc =
    if has (txt "tools") doc
    then tool_list (get (txt "tools") doc)
    else (elim (result_scope (get (txt "result") doc)) [
      | none ↦ err value_error
      | some inner ↦ tool_list (get (txt "tools") inner)
    ])

abbrev first_of : Option Text → Option Text → Option Text
first_of (some s) other = some s
first_of none other = other

abbrev info_name : Option Value → Option Text
info_name (some (obj fs)) = as_text (get (txt "name") fs)
info_name _ = none

-- One round of the loop of `_server_name`.
unfoldable pub scope_name : Fields → Option Text
scope_name scope =
    first_of (as_text (get (txt "name") scope)) (info_name (get (txt "serverInfo") scope))

abbrev nested_name : Option Fields → Option Text
nested_name none = none
nested_name (some scope) = scope_name scope

abbrev or_unknown : Option Text → Text
or_unknown (some (c ∷ s)) = c ∷ s
or_unknown _ = txt "unknown"

abbrev name_or_stem : Option Text → Option Text → Text
name_or_stem (some name) file_stem = name
name_or_stem none file_stem = or_unknown file_stem

-- `_server_name`
unfoldable pub server_name : Fields → Option Text → Text
server_name doc file_stem =
    let nested = nested_name (result_scope (get (txt "result") doc)) in
    name_or_stem (first_of (scope_name doc) nested) file_stem

module _ (py : Builtins) where
  abbrev description_of : Option Value → Text
  description_of none = []
  description_of (some null) = []
  description_of (some v) = to_str py v

  unfoldable pub named_tool : Fields → Option Text → Result ToolIr
  named_tool entry none = err value_error
  named_tool entry (some name) = ok (record {
    name = name;
    description = description_of (get (txt "description") entry);
    input_schema =
        schema_of (get_or (txt "inputSchema") (get_or (txt "input_schema") (obj end) entry) entry);
    raw = entry;
  })

  -- `_tool_ir`; the index serves the messages only.
  unfoldable pub tool_ir : Value → Result ToolIr
  tool_ir (obj entry) = named_tool entry (as_text (get (txt "name") entry))
  tool_ir _ = err value_error

  unfoldable pub load_document : Fields → Option Text → Result Manifest
  load_document doc file_stem = do
    tools_raw ← extract_tools doc
    tools ← traverse tool_ir tools_raw
    ok (record { server_name = server_name doc file_stem; tools = tools; raw = doc })

  -- A document that is no object is refused.
  unfoldable pub load_value : Value → Option Text → Result Manifest
  load_value (obj doc) file_stem = load_document doc file_stem
  load_value _ file_stem = err value_error

module _ (lib : Library) where
  -- `_parse_text`
  unfoldable pub parse_text : Text → Text → Result Value
  parse_text text path =
      let suffix = lower (lib.suffix path) in
      if suffix == txt ".json"
      then or_invalid (lib.json_loads text)
      else if suffix == txt ".yaml" || suffix == txt ".yml"
      then or_invalid (lib.yaml_load text)
      else or_else (lib.json_loads text) (or_invalid (lib.yaml_load text))

module _ (lib : Library) (py : Builtins) where
  unfoldable pub load_manifest : Source → Result Manifest
  load_manifest (parsed doc) = load_document py doc none
  load_manifest (file path) = do
    text ← readable (lib.read_text path)
    doc ← parse_text lib text path
    load_value py doc (some (lib.stem path))
  load_manifest unsupported = err value_error

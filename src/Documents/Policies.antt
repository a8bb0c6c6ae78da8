-- ===== src/Documents/Policies.antt =====
-- `policy/io.py`: policies read from documents.
use mcp_contract.Base.{
  ℕ, zero, suc, ◌+◌, ◌-◌, ◌<◌, ◌≤◌, ◌≡◌, ◌≢◌, ◌↔◌, ◌⊎◌, inl, inr, refl, sym, ap, ◌∙◌, Bool, true,
  false, not, ◌&&◌, ◌||◌, List, [], ◌∷◌, ◌++◌, map, reverse, append-nil, append_assoc, Option, none,
  some, Eq, ◌==◌, contains, if◌then◌else◌, length, take, is_empty, tail, keep, any, all, leb,
  nat_beq, arith, In, In-append, length-append, Distinct, All, All-append, All-at, contains_iff,
  eq_refl, eq_sym, or_false, add_new, add_all, In-add_new, In-add_all, add_new-Distinct,
  add_all-Distinct, ℤ, pos, negsuc, subst, Bool-cases, Option-cases, is_some, Text, txt, text_eq,
  nat_eq, lower, lower_code, starts_with, ends_with, split, split_from, join, starts_with_iff,
  ends_with_iff, Value, null, bool, int, float, str, arr, obj, Items, nil, cons, Fields, end, field,
  dict, list, items, keys, get, get_or, has, put, put_default, truthy, to_text, items-list, get-put,
  Result, ok, err, Exception, value_error, key_error, type_error, attribute_error, overflow_error,
  os_error, ◌>>=◌, Result-cases, IsKnown, Raises, Raises->>=, item-Raises, dict_of-Raises, traverse,
  traverse-map, item, iterate, dict_of, Builtins,
}
use mcp_contract.Models.{
  CapabilityId, net_http, fs_read, fs_write, proc_exec, env, CapabilityStatus, inferred,
  needs_review, denied, all_ids, id_eq, status_eq, class_eq, Evidence, Capability, ToolIr, Manifest,
  Policy, generator, find_cap, cap, if_inferred, granted, EventKind, net_connect, fs_open,
  proc_spawn, env_read, mcp_call, syscall, EventClass, within_policy, within_manifest,
  outside_contract, BehaviorEvent, Mode, observe, alert, enforce, Severity, info, warning, critical,
  ViolationReport,
}
use mcp_contract.Models.Codec.{to_str, capability_to_dict, capability_from_dict}
use mcp_contract.Documents.Conformance.{Builtin, is_cidr}
use mcp_contract.Documents.Imports.{stem_or_unknown, import_foreign}
pub mod Laws

-- What a policy is loaded from.
pub data PolicySource : Type 0 where
  document : Fields → PolicySource
  path : Text → PolicySource
  path_or_yaml : Text → PolicySource

-- The file system and the YAML parser, which gives no document where it raises its own error.
pub record Files : Type 0 where
  pub is_file : Text → Result Bool
  pub read_text : Text → Result Text
  pub yaml_load : Text → Option Value
  pub stem : Text → Text

-- `except OSError: is_file = False`
abbrev pub or_no_file : Result Bool → Result Bool
or_no_file (err os_error) = ok false
or_no_file r = r

abbrev pub mapping : Option Value → Option Text → Result (Fields × Option Text)
mapping (some (obj doc)) origin = ok (doc, origin)
mapping _ origin = err value_error

module _ (files : Files) where
  abbrev pub read_file : Text → Result (Fields × Option Text)
  read_file name = do
    text ← files.read_text name
    mapping (files.yaml_load text) (some (files.stem name))

  -- `_read_source`; of the file's path, its stem is kept.
  unfoldable pub read_source : PolicySource → Result (Fields × Option Text)
  read_source (document doc) = ok (doc, none)
  read_source (path name) = read_file name
  read_source (path_or_yaml name) = do
    is_file ← or_no_file (files.is_file name)
    if is_file then read_file name else mapping (files.yaml_load name) none

-- A class that was seen before is refused.
abbrev pub unless_seen : Bool → Capability → Result (List Capability) → Result (List Capability)
unless_seen true c rest = err value_error
unless_seen false c rest = do cs ← rest; ok (c ∷ cs)

module _ (py : Builtins) where
  abbrev pub checked_values : Fields → Value → Result Capability
  checked_values c (arr vs) = capability_from_dict py c
  checked_values c _ = err value_error

  -- One capability entry: a mapping whose `values` is a list.
  unfoldable pub load_cap : Value → Result Capability
  load_cap (obj c) = checked_values c (get_or (txt "values") (arr nil) c)
  load_cap _ = err value_error

  unfoldable pub load_caps_from : List CapabilityId → List Value → Result (List Capability)
  load_caps_from seen [] = ok []
  load_caps_from seen (v ∷ vs) = do
    c ← load_cap v
    unless_seen (contains seen c.id) c (load_caps_from (c.id ∷ seen) vs)

  abbrev pub caps_of : Value → Result (List Capability)
  caps_of (arr vs) = load_caps_from [] (items vs)
  caps_of v = if truthy v then err value_error else ok []

  -- `_load_caps`
  unfoldable pub load_caps : Fields → Result (List Capability)
  load_caps ext = caps_of (get_or (txt "caps") null ext)

  abbrev pub text_or : Text → Text → Fields → Text
  text_or k default d = to_str py (get_or k (str default) d)

  -- `load_policy` on a document of the program's own.
  unfoldable pub load_extension : Fields → Option Text → Result Policy
  load_extension ext origin = do
    caps ← load_caps ext
    ok (record {
      server_id = text_or (txt "server_id") (stem_or_unknown origin) ext;
      manifest_hash = text_or (txt "source_manifest_hash") [] ext;
      caps = caps;
      backend_hint = get_or (txt "backend_hint") null ext;
      generated_by = text_or (txt "generated_by") generator ext;
    })

  -- `load_policy` once the source is read.
  unfoldable pub policy_of : Fields → Option Text → Result Policy
  policy_of doc origin = elim (get_or (txt "x-mcp-contract") null doc) [
    | obj ext ↦ load_extension ext origin
    | null ↦
        (if has (txt "permissions") doc || has (txt "version") doc
          then import_foreign py doc origin
          else err value_error)
    | _ ↦ err value_error
  ]

  unfoldable pub load_policy : Files → PolicySource → Result Policy
  load_policy files source = do (doc, origin) ← read_source files source; policy_of doc origin

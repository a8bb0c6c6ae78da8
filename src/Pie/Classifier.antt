-- ===== src/Pie/Classifier.antt =====
-- `pie/classifier.py`: `_classify_fs`, `_classify_proc`, `_classify_env`, and `classify_tool`.
use mcp_contract.Base.{
  ℕ, zero, suc, ◌+◌, ◌-◌, ◌<◌, ◌≤◌, ◌≡◌, ◌≢◌, ◌↔◌, ◌⊎◌, inl, inr, refl, sym, ap, ◌∙◌, Bool, true,
  false, not, ◌&&◌, ◌||◌, List, [], ◌∷◌, ◌++◌, map, reverse, append-nil, append_assoc, Option, none,
  some, Eq, ◌==◌, contains, if◌then◌else◌, length, take, is_empty, tail, keep, any, all, leb,
  nat_beq, arith, In, In-append, length-append, Distinct, All, All-append, All-at, contains_iff,
  eq_refl, eq_sym, or_false, add_new, add_all, In-add_new, In-add_all, add_new-Distinct,
  add_all-Distinct, ℤ, pos, negsuc, subst, Bool-cases, Option-cases, is_some, Text, txt, text_eq,
  nat_eq, lower, lower_code, starts_with, ends_with, split, split_from, join, starts_with_iff,
  ends_with_iff, Value, null, bool, int, float, str, arr, obj, Items, nil, cons, Fields, end, field,
  dict, list, items, keys, get, get_or, has, put, put_default, truthy, to_text, items-list, get-put,
  Result, ok, err, Exception, value_error, key_error, type_error, attribute_error, overflow_error,
  os_error, ◌>>=◌, Result-cases, IsKnown, Raises, Raises->>=, item-Raises, dict_of-Raises, traverse,
  traverse-map, item, iterate, dict_of, Builtins,
}
use mcp_contract.Models.{
  CapabilityId, net_http, fs_read, fs_write, proc_exec, env, CapabilityStatus, inferred,
  needs_review, denied, all_ids, id_eq, status_eq, class_eq, Evidence, Capability, ToolIr, Manifest,
  Policy, generator, find_cap, cap, if_inferred, granted, EventKind, net_connect, fs_open,
  proc_spawn, env_read, mcp_call, syscall, EventClass, within_policy, within_manifest,
  outside_contract, BehaviorEvent, Mode, observe, alert, enforce, Severity, info, warning, critical,
  ViolationReport,
}
use mcp_contract.Models.Codec.{to_str}
use mcp_contract.Proxy.Plan.{sort_texts}
use mcp_contract.Regex.{
  Regex, one, seq, alt, many, not_ahead, plus, find_iter, find_all, first_match, sub,
}
use mcp_contract.Pie.Patterns.{
  Unicode, is_upper, is_lower, is_number, net_param_re, fs_param_re, url_re, hostname_re,
  net_verb_re, read_verb_re, write_verb_re, moveish_re, path_re, proc_re, env_phrase_re, env_var_re,
}
use mcp_contract.Pie.Words.{
  file_extensions, known_tlds, net_name_tokens, fs_name_tokens, read_verbs, write_verbs,
  moveish_verbs, proc_name_tokens, name_parts, token_re, part_tokens, name_tokens, first_hit,
  name_hit, noted, quoted, note_hit, signal, dedupe_add, last_part, before_last, before_first,
  after_scheme, or_whole, lstrip_dots, rstrip_dots, label_of, schema_of, param_list, params_of,
  params, found, has_port, host_from_url, stripped, hostnames, net_context,
}
use mcp_contract.Pie.Net.{
  Hosts, no_hosts, add_url, add_urls, add_hostname, add_hostnames, hosts_in, format_of, net_params,
  net_confirmed, net_signal, classify_net,
}
pub mod Laws
pub mod Grants

module _ (u : Unicode) (tool : ToolIr) where
  unfoldable pub fs_params : List (Text × Fields) → List Evidence
  fs_params [] = []
  fs_params ((p, schema) ∷ ps) =
      note_hit (first_match fs_param_re p) (λ _.
        noted tool.name (txt "param")
          (quoted (txt "parameter '") p (txt "' suggests a filesystem path")))
      ++ fs_params ps

  abbrev pub fs_class : List Evidence
  fs_class =
      fs_params (params tool)
      ++ note_hit (name_hit fs_name_tokens tool.name) (λ t.
        noted tool.name (txt "name") (quoted (txt "filesystem term '") t (txt "' in tool name")))

  -- A verb in the tool's name, or else in its description.
  abbrev pub verb_evidence : Text → List Text → Regex → List Evidence
  verb_evidence kind verbs r = elim (name_hit verbs tool.name) [
    | some t ↦
        noted tool.name (txt "name") (quoted kind (txt " verb '") (t ++ txt "' in tool name")) ∷ []
    | none ↦
        note_hit (first_match r (stripped u tool))
          (λ t. noted tool.name (txt "description") (quoted kind (txt " verb '") (t ++ txt "'")))
  ]

  abbrev pub moves : Bool
  moves =
      found (name_hit moveish_verbs tool.name)
      || found (first_match (moveish_re u) (stripped u tool))

  -- A tool that moves or copies reads the source too.
  abbrev pub or_moved : List Evidence → List Evidence
  or_moved [] =
      if moves
      then noted tool.name (txt "description") (txt "move/copy implies reading the source") ∷ []
      else []
  or_moved (e ∷ es) = e ∷ es

  unfoldable pub read_evidence : List Evidence
  read_evidence = or_moved (verb_evidence (txt "read") read_verbs (read_verb_re u))

  unfoldable pub write_evidence : List Evidence
  write_evidence = verb_evidence (txt "write") write_verbs (write_verb_re u)

  -- A path literal, unless it is a bare root or a route template.
  abbrev pub is_path : Text → Text → Bool
  is_path candidate rest =
      not (is_empty candidate || candidate == txt "/" || candidate == txt "./")
      && not (starts_with rest (txt "{") || starts_with rest (txt "/{"))

  unfoldable pub add_paths :
      List Text × List Evidence → List (Text × Text) → List Text × List Evidence
  add_paths found_paths [] = found_paths
  add_paths (paths, evidence) ((m, rest) ∷ ms) =
      let candidate = rstrip_dots m in
      add_paths
        (if is_path candidate rest
          then (
            dedupe_add paths candidate,
            evidence ++ noted tool.name (txt "description") (txt "path literal " ++ candidate) ∷ [],
          )
          else (paths, evidence))
        ms

  unfoldable pub paths_in : List Text × List Evidence
  paths_in = add_paths ([], []) (find_iter (path_re u) (stripped u tool))

  -- The directions, both where none is known.
  abbrev pub fs_ids : Bool → Bool → List CapabilityId
  fs_ids true true = fs_read ∷ fs_write ∷ []
  fs_ids true false = fs_read ∷ []
  fs_ids false true = fs_write ∷ []
  fs_ids false false = fs_read ∷ fs_write ∷ []

  abbrev pub direction_evidence : CapabilityId → List Evidence
  direction_evidence fs_read = read_evidence
  direction_evidence fs_write = write_evidence
  direction_evidence _ = []

  abbrev pub fs_status : CapabilityStatus
  fs_status =
      if not (is_empty paths_in.0)
        && ((not (is_empty read_evidence) || not (is_empty write_evidence))
            && not (net_context u tool))
      then inferred
      else needs_review

  abbrev pub fs_signal : CapabilityId → Capability
  fs_signal cap_id =
      signal cap_id fs_status paths_in.0 (fs_class ++ (direction_evidence cap_id ++ paths_in.1))

  -- `_classify_fs`
  unfoldable pub classify_fs : List Capability
  classify_fs =
      if is_empty fs_class
      then []
      else map fs_signal (fs_ids (not (is_empty read_evidence)) (not (is_empty write_evidence)))

  abbrev pub flagged : CapabilityId → List Text → List Evidence → List Capability
  flagged cap_id values [] = []
  flagged cap_id values (e ∷ es) = signal cap_id needs_review values (e ∷ es) ∷ []

  -- `_classify_proc`
  unfoldable pub classify_proc : List Capability
  classify_proc = flagged proc_exec [] (
      note_hit (name_hit proc_name_tokens tool.name)
        (λ t. noted tool.name (txt "name") (quoted (txt "exec term '") t (txt "' in tool name")))
      ++ note_hit (first_match (proc_re u) tool.description)
          (λ t. noted tool.name (txt "description") (quoted (txt "exec term '") t (txt "'"))))

  abbrev pub var_evidence : List Text → List Evidence
  var_evidence =
      map (λ v. noted tool.name (txt "description") (txt "env-var-like identifier " ++ v))

  unfoldable pub dedupe_all : List Text → List Text → List Text
  dedupe_all values [] = values
  dedupe_all values (v ∷ vs) = dedupe_all (dedupe_add values v) vs

  -- `_classify_env`
  unfoldable pub classify_env : List Capability
  classify_env =
      let vars = find_all (env_var_re u) tool.description in
      flagged env (dedupe_all [] vars) (
        note_hit (first_match (env_phrase_re u) tool.description) (λ t.
          noted tool.name (txt "description") (quoted (txt "secret/credential term '") t (txt "'")))
        ++ var_evidence vars)

unfoldable pub classify_tool : Unicode → Builtins → ToolIr → List Capability
classify_tool u py tool =
    classify_net u py tool ++ (classify_fs u tool ++ (classify_proc u tool ++ classify_env u tool))

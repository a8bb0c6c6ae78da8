-- ===== src/Pie/Net.antt =====
-- `pie/classifier.py`: `_classify_net`.
use mcp_contract.Base.{
  ℕ, zero, suc, ◌+◌, ◌-◌, ◌<◌, ◌≤◌, ◌≡◌, ◌≢◌, ◌↔◌, ◌⊎◌, inl, inr, refl, sym, ap, ◌∙◌, Bool, true,
  false, not, ◌&&◌, ◌||◌, List, [], ◌∷◌, ◌++◌, map, reverse, append-nil, append_assoc, Option, none,
  some, Eq, ◌==◌, contains, if◌then◌else◌, length, take, is_empty, tail, keep, any, all, leb,
  nat_beq, arith, In, In-append, length-append, Distinct, All, All-append, All-at, contains_iff,
  eq_refl, eq_sym, or_false, add_new, add_all, In-add_new, In-add_all, add_new-Distinct,
  add_all-Distinct, ℤ, pos, negsuc, subst, Bool-cases, Option-cases, is_some, Text, txt, text_eq,
  nat_eq, lower, lower_code, starts_with, ends_with, split, split_from, join, starts_with_iff,
  ends_with_iff, Value, null, bool, int, float, str, arr, obj, Items, nil, cons, Fields, end, field,
  dict, list, items, keys, get, get_or, has, put, put_default, truthy, to_text, items-list, get-put,
  Result, ok, err, Exception, value_error, key_error, type_error, attribute_error, overflow_error,
  os_error, ◌>>=◌, Result-cases, IsKnown, Raises, Raises->>=, item-Raises, dict_of-Raises, traverse,
  traverse-map, item, iterate, dict_of, Builtins,
}
use mcp_contract.Models.{
  CapabilityId, net_http, fs_read, fs_write, proc_exec, env, CapabilityStatus, inferred,
  needs_review, denied, all_ids, id_eq, status_eq, class_eq, Evidence, Capability, ToolIr, Manifest,
  Policy, generator, find_cap, cap, if_inferred, granted, EventKind, net_connect, fs_open,
  proc_spawn, env_read, mcp_call, syscall, EventClass, within_policy, within_manifest,
  outside_contract, BehaviorEvent, Mode, observe, alert, enforce, Severity, info, warning, critical,
  ViolationReport,
}
use mcp_contract.Models.Codec.{to_str}
use mcp_contract.Proxy.Plan.{sort_texts}
use mcp_contract.Regex.{
  Regex, one, seq, alt, many, not_ahead, plus, find_iter, find_all, first_match, sub,
}
use mcp_contract.Pie.Patterns.{
  Unicode, is_upper, is_lower, is_number, net_param_re, fs_param_re, url_re, hostname_re,
  net_verb_re, read_verb_re, write_verb_re, moveish_re, path_re, proc_re, env_phrase_re, env_var_re,
}
use mcp_contract.Pie.Words.{
  file_extensions, known_tlds, net_name_tokens, fs_name_tokens, read_verbs, write_verbs,
  moveish_verbs, proc_name_tokens, name_parts, token_re, part_tokens, name_tokens, first_hit,
  name_hit, noted, quoted, note_hit, signal, dedupe_add, last_part, before_last, before_first,
  after_scheme, or_whole, lstrip_dots, rstrip_dots, label_of, schema_of, param_list, params_of,
  params, found, has_port, host_from_url, stripped, hostnames, net_context,
}
pub mod Laws

-- What `_classify_net` gathers from the description.
pub record Hosts : Type 0 where
  pub hosts : List Text
  pub review_hosts : List Text
  pub host_evidence : List Evidence
  pub review_evidence : List Evidence

abbrev pub no_hosts : Hosts
no_hosts = record { hosts = []; review_hosts = []; host_evidence = []; review_evidence = [] }

module _ (u : Unicode) (tool : ToolIr) where
  unfoldable pub add_url : Hosts → Text → Hosts
  add_url h url =
      let host = host_from_url u url in
      if is_empty host then h else record h {
        hosts = dedupe_add h.hosts host;
        host_evidence =
            h.host_evidence ++ noted tool.name (txt "description") (txt "URL literal " ++ url) ∷ [];
      }

  unfoldable pub add_urls : Hosts → List Text → Hosts
  add_urls h [] = h
  add_urls h (url ∷ urls) = add_urls (add_url h url) urls

  unfoldable pub add_hostname : Hosts → Text → Hosts
  add_hostname h candidate =
      if contains file_extensions (label_of candidate)
      then h
      else if contains known_tlds (label_of candidate)
      then record h {
        hosts = dedupe_add h.hosts candidate;
        host_evidence =
            h.host_evidence
            ++ noted tool.name (txt "description") (txt "hostname literal " ++ candidate) ∷ [];
      }
      else if contains h.hosts candidate
      then h
      else record h {
        review_hosts = dedupe_add h.review_hosts candidate;
        review_evidence =
            h.review_evidence
            ++ noted tool.name (txt "description") (
                quoted (txt "ambiguous hostname-like literal ") candidate
                  (txt " (unrecognized TLD, needs review)"))
              ∷ [];
      }

  unfoldable pub add_hostnames : Hosts → List Text → Hosts
  add_hostnames h [] = h
  add_hostnames h (c ∷ cs) = add_hostnames (add_hostname h c) cs

  unfoldable pub hosts_in : Hosts
  hosts_in =
      add_hostnames (add_urls no_hosts (find_all (url_re u) tool.description)) (hostnames u tool)

module _ (u : Unicode) (py : Builtins) (tool : ToolIr) where
  abbrev pub format_of : Fields → Text
  format_of schema = to_str py (get_or (txt "format") (str []) schema)

  unfoldable pub net_params : List (Text × Fields) → List Evidence
  net_params [] = []
  net_params ((p, schema) ∷ ps) =
      let rest = net_params ps in
      if found (first_match net_param_re p)
      then noted tool.name (txt "param")
          (quoted (txt "parameter '") p (txt "' suggests a network endpoint"))
        ∷ rest
      else if starts_with (lower (format_of schema)) (txt "uri")
      then noted tool.name (txt "param") (
          quoted (txt "parameter '") p
            (quoted (txt "' has JSON-Schema format '") (format_of schema) (txt "'")))
        ∷ rest
      else rest

  abbrev pub net_confirmed : List Evidence
  net_confirmed =
      note_hit (first_match (net_verb_re u) (stripped u tool))
        (λ t. noted tool.name (txt "description") (quoted (txt "network verb '") t (txt "'")))
      ++ note_hit (name_hit net_name_tokens tool.name) (λ t.
        noted tool.name (txt "name") (quoted (txt "network verb '") t (txt "' in tool name")))

  abbrev pub net_signal : Hosts → List Evidence → List Evidence → List Capability
  net_signal h param_evidence confirm_evidence =
      let evidence =
        h.host_evidence ++ (h.review_evidence ++ (param_evidence ++ confirm_evidence)) in
      let values = h.hosts ++ h.review_hosts in
      if not (is_empty h.hosts) && (is_empty param_evidence && is_empty h.review_hosts)
      then signal net_http inferred h.hosts evidence ∷ []
      else if is_empty values && (is_empty param_evidence && is_empty confirm_evidence)
      then []
      else signal net_http needs_review
          (if not (is_empty param_evidence) || is_empty values
            then values ++ txt "*" ∷ []
            else values)
          evidence
        ∷ []

  -- `_classify_net`
  unfoldable pub classify_net : List Capability
  classify_net = net_signal (hosts_in u tool) (net_params (params tool)) net_confirmed

-- ===== src/Tests/Classifying.antt =====
-- The tool classifier: runs, and the theorems at concrete inputs.
use mcp_contract.Base.{
  ◌≡◌, ◌≢◌, ◌↔◌, ◌⊎◌, inl, refl, ◌&&◌, ◌||◌, List, [], ◌∷◌, map, none, contains, leb, nat_beq, In,
  Text, txt, text_eq, nat_eq, lower_code, starts_with, obj, Fields, end, field,
}
use mcp_contract.Models.{
  CapabilityId, net_http, fs_read, proc_exec, env, CapabilityStatus, inferred, needs_review, id_eq,
  status_eq, class_eq, Capability, ToolIr, Manifest,
}
use mcp_contract.Proxy.Plan.{open_all, egress_plan, sort_texts, insert_text}
use mcp_contract.Regex.{rounds, run, pieces, search_from, fold, word, literal, any_word}
use mcp_contract.Regex.Laws.{Occurs}
use mcp_contract.Pie.Patterns.{
  Unicode, is_upper, is_lower, is_number, is_letter, is_alnum, is_host_char, is_path_char,
  is_var_char, net_param_re, fs_param_re, url_re, hostname_re, net_verb_re, read_verb_re,
  write_verb_re, moveish_re, path_re, proc_re, env_phrase_re, env_var_re,
}
use mcp_contract.Pie.Words.{
  name_parts, token_re, part_tokens, name_tokens, name_hit, dedupe_add, last_part, before_last,
  before_first, after_scheme, lstrip_dots, param_list, host_from_url, stripped, hostnames,
  net_context, proc_name_tokens,
}
use mcp_contract.Pie.Net.{
  add_url, add_urls, add_hostname, add_hostnames, hosts_in, net_params, classify_net,
}
use mcp_contract.Pie.Classifier.{
  fs_params, read_evidence, write_evidence, add_paths, paths_in, classify_fs, classify_proc,
  dedupe_all, classify_env, classify_tool,
}
use mcp_contract.Pie.Classifier.Grants.{Literal, classify_proc_iff, granted-Literal}
use mcp_contract.Pie.Infer.{infer_policy}
use mcp_contract.Tests.Fixtures.{inference, plain, digest}

-- The classes of the ASCII characters.
abbrev ascii : Unicode
ascii = record {
  is_word = λ c.
      leb b'a' c && leb c b'z'
      || leb b'A' c && leb c b'Z'
      || leb b'0' c && leb c b'9'
      || nat_beq c b'_';
  is_space = λ c. contains (txt " ") c;
  is_digit = λ c. leb b'0' c && leb c b'9';
}

abbrev tool_of : Text → Text → Fields → ToolIr
tool_of name description properties = record {
  name = name;
  description = description;
  input_schema = field (txt "properties") (obj properties) end;
  raw = end;
}

unfoldable classified : Unit {0}
unfolding inference text_eq nat_eq lower_code starts_with sort_texts insert_text rounds run pieces
    search_from fold word literal any_word is_upper is_lower is_number is_letter is_alnum
    is_host_char is_path_char is_var_char net_param_re fs_param_re url_re hostname_re net_verb_re
    read_verb_re write_verb_re moveish_re path_re proc_re env_phrase_re env_var_re name_parts
    token_re part_tokens name_tokens name_hit dedupe_add last_part before_last before_first
    after_scheme lstrip_dots param_list host_from_url stripped hostnames net_context add_url
    add_urls add_hostname add_hostnames hosts_in net_params classify_net fs_params read_evidence
    write_evidence add_paths paths_in classify_fs classify_proc dedupe_all classify_env
    classify_tool
classified = tt

abbrev classes_of : ToolIr → List (CapabilityId × CapabilityStatus × List Text)
classes_of t = map (λ c. (c.id, c.status, c.values)) (classify_tool ascii plain t)

name_tokens_test :
    name_tokens (txt "readHTTPFile_v2") ≡ map txt ("read" ∷ "http" ∷ "file" ∷ "v2" ∷ [])
unfolding classified
name_tokens_test = refl

file_test :
    classes_of (tool_of (txt "read_file") (txt "Reads /data/in.") end)
    ≡ (fs_read, inferred, txt "/data/in" ∷ []) ∷ []
unfolding classified
file_test = refl

host_test :
    classes_of (tool_of (txt "get") (txt "On api.site.com or a.zz") end)
    ≡ (net_http, needs_review, txt "api.site.com" ∷ txt "a.zz" ∷ []) ∷ []
unfolding classified
host_test = refl

shell_test :
    classes_of (tool_of (txt "run") (txt "A shell, API_X") end)
    ≡ (proc_exec, needs_review, []) ∷ (env, needs_review, txt "API_X" ∷ []) ∷ []
unfolding classified
shell_test = refl

abbrev any_site : ToolIr
any_site = tool_of (txt "get") (txt "http://*/") end

-- A host of a URL is not looked at: a "*" there becomes a grant.
any_site_test : classes_of any_site ≡ (net_http, inferred, txt "*" ∷ []) ∷ []
unfolding classified
any_site_test = refl

abbrev sites : Manifest
sites = record { server_name = txt "sites"; tools = any_site ∷ []; raw = end }

-- So the egress plan of the policy that is inferred is open.
open_test :
    (egress_plan (infer_policy (classify_tool ascii plain) digest sites none [] none)).mode
    ≡ open_all
unfolding classified egress_plan
open_test = refl

granted-Literal_example : (t : ToolIr) × In t (any_site ∷ []) × Literal ascii t net_http (txt "*")
unfolding classified
granted-Literal_example =
    granted-Literal ascii plain digest sites none [] none net_http _ (txt "*") refl refl (inl refl)

classify_proc_iff_example :
    ((classify_proc ascii any_site ≢ []) ↔ (
      ((t : Text) × In t (name_tokens any_site.name) × In t proc_name_tokens)
      ⊎ Occurs (proc_re ascii) any_site.description))
    × ((c : Capability)
        → In c (classify_proc ascii any_site)
        → (c.id ≡ proc_exec) × (c.status ≡ needs_review))
classify_proc_iff_example = classify_proc_iff ascii any_site

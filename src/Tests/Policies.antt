-- ===== src/Tests/Policies.antt =====
-- Policy documents: runs, and the theorems at a concrete policy.
use mcp_contract.Base.{
  ◌≡◌, starts_with, ◌↔◌, inr, refl, [], ◌∷◌, txt, text_eq, nat_eq, ok, err, Fields, none, null,
  Distinct, All, os_error, arith,
}
use mcp_contract.Models.{Policy, id_eq, status_eq, find_cap, granted, generator, env, inferred}
use mcp_contract.Documents.Emission.{granted_values, extension, policy_to_dict}
use mcp_contract.Documents.Policies.{load_policy, document, Files}
use mcp_contract.Documents.Imports.{storage_uri_to_prefix, strip_globs}
use mcp_contract.Documents.Policies.Laws.{
  IsEnvGrant, classes, load_policy-policy_to_dict, load_extension-Distinct, policy_to_dict_iff,
  load_extension-extension,
}
use mcp_contract.Tests.Documents.{lib, base}
use mcp_contract.Documents.Imports.{
  imported, import_foreign, grants, add_network, add_storage, add_environment,
}
use mcp_contract.Documents.Imports.Laws.{Asked, import_foreign-granted_iff}
use mcp_contract.Models.{Capability, CapabilityId, all_ids, net_http, fs_read, fs_write, proc_exec}
use mcp_contract.Base.{add_all, add_new, map, In, Text}
use mcp_contract.Tests.Fixtures.{plain, capability, github, reading}

abbrev saved : Policy
saved = record {
  server_id = txt "s";
  manifest_hash = txt "h";
  caps = github ∷ reading ∷ capability env inferred (txt "HOME" ∷ []) ∷ [];
  backend_hint = null;
  generated_by = generator;
}

abbrev no_files : Files
no_files = record {
  is_file = λ name. err os_error;
  read_text = λ name. err os_error;
  yaml_load = λ text. none;
  stem = λ name. name;
}

globs_off : storage_uri_to_prefix (txt "fs:///data/**/*") ≡ txt "/data"
unfolding storage_uri_to_prefix strip_globs text_eq starts_with
globs_off = refl

saved-Distinct : Distinct (classes saved.caps)
saved-Distinct = ground arith

saved_env : All IsEnvGrant (granted_values saved env)
unfolding granted find_cap id_eq status_eq
saved_env = (inr ground arith, tt)

abbrev saved_doc : (doc : Fields) × (policy_to_dict lib saved ≡ ok doc)
saved_doc = (policy_to_dict_iff lib saved).1 saved_env

load_policy-policy_to_dict_example : load_policy plain no_files (document saved_doc.0) ≡ ok saved
load_policy-policy_to_dict_example =
    load_policy-policy_to_dict plain lib no_files saved saved_doc.0 saved-Distinct saved_doc.1

load_extension-Distinct_example : Distinct (classes saved.caps)
load_extension-Distinct_example =
    load_extension-Distinct plain (extension saved) none saved
      (load_extension-extension plain saved none saved-Distinct)

policy_to_dict_iff_example :
    ((doc : Fields) × (policy_to_dict lib saved ≡ ok doc))
    ↔ All IsEnvGrant (granted_values saved env)
policy_to_dict_iff_example = policy_to_dict_iff lib saved

abbrev granted_host : Capability
granted_host = imported net_http (txt "api.github.com" ∷ txt "1.11.1.111/1" ∷ [])

abbrev foreign : Policy
foreign = record {
  server_id = txt "unknown";
  manifest_hash = [];
  caps =
      granted_host
      ∷ imported fs_read []
      ∷ imported fs_write []
      ∷ imported proc_exec []
      ∷ imported env []
      ∷ [];
  backend_hint = null;
  generated_by = generator;
}

import_base : import_foreign plain base none ≡ ok foreign
unfolding import_foreign grants add_network add_storage add_environment add_all add_new text_eq
    id_eq
import_base = refl

import_foreign-granted_iff_example :
    (map (λ (c : Capability). c.id) foreign.caps ≡ all_ids)
    × ((i : CapabilityId) (t : Text) → In t (granted_values foreign i) ↔ Asked plain base i t)
import_foreign-granted_iff_example = import_foreign-granted_iff plain base none foreign import_base

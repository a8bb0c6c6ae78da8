-- ===== src/Tests/Documents.antt =====
-- The structural check: runs, and its theorem at a concrete document.
use mcp_contract.Base.{
  ◌≡◌, starts_with, ◌↔◌, refl, [], ◌∷◌, txt, text_eq, nat_eq, nat_beq, null, str, arr, obj, Value,
  dict, list, Fields, false,
}
use mcp_contract.Proxy.Plan.{insert_text, sort_texts}
use mcp_contract.Documents.Conformance.{
  Builtin, policy_mcp_base_conforms, unexpected, unexpected_key, check_version, check_description,
  check_permissions, check_list, check_entries, check_items, check_network_perm, is_cidr,
}
use mcp_contract.Documents.Conformance.Schema.{IsBaseDocument}
use mcp_contract.Documents.Conformance.Laws.{policy_mcp_base_conforms_iff}

-- One digit is enough for these documents.
abbrev pub lib : Builtin
lib = record { is_digit = λ c. nat_beq c 49; printed = λ v. txt "[]"; same_number = λ v w. false }

abbrev host_perm : Value
host_perm = obj (dict ((txt "host", str (txt "api.github.com")) ∷ []))

abbrev cidr_perm : Value
cidr_perm = obj (dict ((txt "cidr", str (txt "1.11.1.111/1")) ∷ []))

abbrev network : Value
network = obj (dict ((txt "allow", arr (list (host_perm ∷ cidr_perm ∷ []))) ∷ []))

abbrev pub base : Fields
base = dict (
    (txt "version", str (txt "1.0"))
    ∷ (txt "permissions", obj (dict ((txt "network", network) ∷ [])))
    ∷ [])

base_conforms : policy_mcp_base_conforms lib (obj base) ≡ []
unfolding policy_mcp_base_conforms unexpected check_version check_description check_permissions
    check_list check_entries check_items check_network_perm is_cidr sort_texts text_eq starts_with
    nat_eq
base_conforms = refl

-- The key that makes the full document invalid.
full_does_not :
    policy_mcp_base_conforms lib (
      obj (
        dict (
          (txt "version", str (txt "1.0"))
          ∷ (txt "permissions", obj (dict []))
          ∷ (txt "x-mcp-contract", null)
          ∷ [])))
    ≡ record { place = []; kind = unexpected_key (txt "x-mcp-contract") } ∷ []
unfolding policy_mcp_base_conforms unexpected check_version check_description check_permissions
    sort_texts insert_text starts_with text_eq
full_does_not = refl

policy_mcp_base_conforms_iff_example :
    (policy_mcp_base_conforms lib (obj base) ≡ []) ↔ IsBaseDocument lib (obj base)
policy_mcp_base_conforms_iff_example = policy_mcp_base_conforms_iff lib (obj base)

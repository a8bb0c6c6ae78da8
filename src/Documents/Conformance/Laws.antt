-- ===== src/Documents/Conformance/Laws.antt =====
-- What the structural check accepts, about `policy/conformance.py`.
use mcp_contract.Base.{
  ℕ, suc, ◌≡◌, ◌↔◌, true, false, List, [], ◌∷◌, ◌++◌, Option, none, some, arith, All, txt, text_eq,
  nat_eq, starts_with_iff, Value, null, bool, str, arr, obj, cons, end, field, items, get,
}
use mcp_contract.Models.{id_eq, status_eq, class_eq}
use mcp_contract.Documents.Conformance.{
  Step, at_key, at_index, Problem, Builtin, problem, unless, below, root_keys, permission_keys,
  is_true, is_cidr_value, check_network_perm, check_access_types, check_access_value, check_access,
  check_storage_perm, check_env, check_items, check_entries, check_list, if_given,
  check_environment, is_unique, check_permissions, check_version, check_description, check_granted,
  policy_mcp_base_conforms,
}
use mcp_contract.Documents.Conformance.{not_unique}
use mcp_contract.Documents.Conformance.Schema.{
  IsText, Required, Optional, IsListOf, IsEnvPerm, IsVersion, IsLists, IsEnvironment, IsCidr,
  IsNetworkPerm, IsAccessList, IsStoragePerm, IsPermissions, IsBaseDocument,
}
use mcp_contract.Documents.Conformance.Parts.{
  append-nil_iff, both, both3, both4, unexpected_iff, is_name_iff, check_uri_iff,
  check_access_types_iff, check_env_iff, is_unique_iff,
}

module _ (check : Value → List Step → List Problem) (P : Value → Type 0)
    (sound : (v : Value) (place : List Step) → (check v place ≡ []) ↔ P v) where
  check_items_iff :
      (n : ℕ) (vs : List Value) (place : List Step) → (check_items check n vs place ≡ []) ↔ All P vs
  unfolding check_items
  check_items_iff n [] place = ground arith
  check_items_iff n (v ∷ vs) place =
      let item = place ++ at_index n ∷ [] in
      ground (
        arith,
        append-nil_iff (check v item) (check_items check (suc n) vs place),
        sound v item,
        check_items_iff (suc n) vs place,
      )

  check_entries_iff :
      (o : Option Value) (place : List Step) → (check_entries check o place ≡ []) ↔ IsListOf P o
  unfolding check_entries
  check_entries_iff none place = ground arith
  check_entries_iff (some null) place = ground arith
  check_entries_iff (some (arr vs)) place = check_items_iff 0 (items vs) place
  check_entries_iff (some _) place = ground arith

  check_list_iff : (v : Value) (place : List Step) → (check_list check v place ≡ []) ↔ IsLists P v
  unfolding check_list
  check_list_iff (obj fs) place =
      both3 (unexpected_iff place (txt "allow" ∷ txt "deny" ∷ []) fs)
        (check_entries_iff (get (txt "allow") fs) (below place (txt "allow")))
        (check_entries_iff (get (txt "deny") fs) (below place (txt "deny")))
  check_list_iff _ place = ground arith

  if_given_iff :
      (o : Option Value) (place : List Step) → (if_given check o place ≡ []) ↔ Optional P o
  if_given_iff none place = ground arith
  if_given_iff (some v) place = sound v place

check_environment_iff :
    (v : Value) (place : List Step) → (check_environment v place ≡ []) ↔ IsEnvironment v
unfolding check_environment
check_environment_iff (obj fs) place = both (unexpected_iff place (txt "allow" ∷ []) fs) (
    check_entries_iff check_env IsEnvPerm check_env_iff (get (txt "allow") fs)
      (below place (txt "allow")))
check_environment_iff _ place = ground arith

check_version_iff : (o : Option Value) → (check_version o ≡ []) ↔ Required IsVersion o
unfolding check_version
check_version_iff none = ground arith
check_version_iff (some (str s)) = ground (arith, starts_with_iff s (txt "1."))
check_version_iff (some _) = ground arith

check_description_iff : (o : Option Value) → (check_description o ≡ []) ↔ Optional IsText o
unfolding check_description
check_description_iff none = ground arith
check_description_iff (some (str s)) = ground arith
check_description_iff (some _) = ground arith

is_true_iff : (v : Value) → (is_true v ≡ true) ↔ (v ≡ bool true)
is_true_iff (bool true) = ground arith
is_true_iff (bool false) = ground arith
is_true_iff _ = ground arith

module _ (lib : Builtin) where
  is_cidr_value_iff : (v : Value) → (is_cidr_value lib v ≡ true) ↔ IsCidr lib v
  is_cidr_value_iff (str s) = ground arith
  is_cidr_value_iff _ = ground arith

  check_network_perm_iff :
      (v : Value) (place : List Step) → (check_network_perm lib v place ≡ []) ↔ IsNetworkPerm lib v
  unfolding check_network_perm
  check_network_perm_iff (obj (field k v end)) place =
      ground (arith, is_name_iff v, is_cidr_value_iff v, is_true_iff v)
  check_network_perm_iff (obj _) place = ground arith
  check_network_perm_iff _ place = ground arith

  check_access_iff :
      (o : Option Value) (place : List Step)
      → (check_access lib o place ≡ []) ↔ Required IsAccessList o
  unfolding check_access check_access_value
  check_access_iff none place = ground arith
  check_access_iff (some (arr (cons v vs))) place =
      let inner = below place (txt "access") in
      ground (
        arith,
        is_unique_iff lib (v ∷ items vs),
        append-nil_iff (unless (is_unique lib (v ∷ items vs)) (problem inner not_unique))
            (check_access_types (v ∷ items vs) inner),
        check_access_types_iff (v ∷ items vs) inner,
      )
  check_access_iff (some _) place = ground arith

  check_storage_perm_iff :
      (v : Value) (place : List Step) → (check_storage_perm lib v place ≡ []) ↔ IsStoragePerm v
  unfolding check_storage_perm
  check_storage_perm_iff (obj fs) place =
      both3 (unexpected_iff place (txt "uri" ∷ txt "access" ∷ []) fs)
        (check_uri_iff (get (txt "uri") fs) place) (check_access_iff (get (txt "access") fs) place)
  check_storage_perm_iff _ place = ground arith

  check_permissions_iff :
      (v : Value) (place : List Step) → (check_permissions lib v place ≡ []) ↔ IsPermissions lib v
  unfolding check_permissions
  check_permissions_iff (obj fs) place =
      both4 (unexpected_iff place permission_keys fs)
        (if_given_iff _ _ (check_list_iff _ _ check_network_perm_iff) (get (txt "network") fs)
          (below place (txt "network")))
        (if_given_iff _ _ (check_list_iff _ _ check_storage_perm_iff) (get (txt "storage") fs)
          (below place (txt "storage")))
        (if_given_iff _ _ check_environment_iff (get (txt "environment") fs)
          (below place (txt "environment")))
  check_permissions_iff _ place = ground arith

  check_granted_iff :
      (o : Option Value) → (check_granted lib o ≡ []) ↔ Required (IsPermissions lib) o
  check_granted_iff none = ground arith
  check_granted_iff (some v) = check_permissions_iff v (at_key (txt "permissions") ∷ [])

  -- The check reports no problem for a document exactly where the document has no other keys than the
  -- schema names, a version 1, a description that is a text if any, and permissions in which the
  -- lists of network, storage and environment are well formed: each network item has one key, a host,
  -- a CIDR or the defaults; each storage item a URI and one access or both, none twice; each
  -- environment item a name without "*". `runtime`, `resources` and `ipc` may be anything.
  pub policy_mcp_base_conforms_iff :
      (doc : Value) → (policy_mcp_base_conforms lib doc ≡ []) ↔ IsBaseDocument lib doc
  unfolding policy_mcp_base_conforms
  policy_mcp_base_conforms_iff (obj fs) =
      both4 (unexpected_iff [] root_keys fs) (check_version_iff (get (txt "version") fs))
        (check_description_iff (get (txt "description") fs))
        (check_granted_iff (get (txt "permissions") fs))
  policy_mcp_base_conforms_iff _ = ground arith

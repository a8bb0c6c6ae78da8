-- ===== src/Documents/Imports.antt =====
-- `policy/io.py`: `_import_foreign`, a policy from the permissions of a policy-mcp document.
use mcp_contract.Base.{
  or_value, Bool, false, ◌&&◌, ◌||◌, List, [], ◌∷◌, ◌++◌, map, reverse, Option, none, some, ◌==◌,
  if◌then◌else◌, is_empty, any, nat_beq, add_all, Text, txt, text_eq, nat_eq, starts_with, Value,
  null, str, arr, obj, nil, Fields, end, items, get_or, has, truthy, Result, ok, err, value_error,
  type_error, attribute_error, ◌>>=◌, iterate, Builtins,
}
use mcp_contract.Models.{
  CapabilityId, all_ids, net_http, fs_read, fs_write, env, inferred, denied, id_eq, status_eq,
  class_eq, Capability, Policy, generator,
}
use mcp_contract.Models.Codec.{to_str}
use mcp_contract.Documents.Emission.{fs_scheme}
pub mod Loops
pub mod Sections
pub mod Laws

abbrev pub as_dict : Value → Result Fields
as_dict (obj fs) = ok fs
as_dict _ = err attribute_error

-- `for grant in (permissions.get(k) or {}).get("allow") or []`
unfoldable pub grants : Text → Fields → Result (List Value)
grants k permissions = do
  lists ← as_dict (or_value (get_or k null permissions) (obj end))
  iterate (or_value (get_or (txt "allow") null lists) (arr nil))

-- `_storage_uri_to_prefix`, on the path read from its end: `/**` and `/*` are taken off.
unfoldable pub strip_globs : Text → Text
strip_globs [] = []
strip_globs (c ∷ []) = c ∷ []
strip_globs (c ∷ d ∷ []) = if nat_beq c 42 && nat_beq d 47 then [] else c ∷ d ∷ []
strip_globs (c ∷ d ∷ e ∷ s) =
    let short = strip_globs (e ∷ s) in
    let long = strip_globs s in
    if nat_beq c 42 && nat_beq d 47
    then short
    else if nat_beq c 42 && (nat_beq d 42 && nat_beq e 47)
    then long
    else c ∷ d ∷ e ∷ s

-- `uri.removeprefix("fs://")`
abbrev pub drop_five : Text → Text
drop_five (a ∷ b ∷ c ∷ d ∷ e ∷ s) = s
drop_five s = s

abbrev pub without_scheme : Text → Text
without_scheme uri = if starts_with uri fs_scheme then drop_five uri else uri

unfoldable pub storage_uri_to_prefix : Text → Text
storage_uri_to_prefix uri =
    let path = reverse (strip_globs (reverse (without_scheme uri))) in
    if path == txt "**" || path == txt "*" || is_empty path then txt "/" else path

unfoldable pub occurs : Text → Text → Bool
occurs t [] = is_empty t
occurs t (c ∷ s) = starts_with (c ∷ s) t || occurs t s

abbrev pub is_text : Text → Value → Bool
is_text t (str s) = s == t
is_text t _ = false

-- `token in access`
unfoldable pub has_token : Text → Value → Result Bool
has_token t (arr vs) = ok (any (is_text t) (items vs))
has_token t (obj fs) = ok (has t fs)
has_token t (str s) = ok (occurs t s)
has_token t _ = err type_error

abbrev pub imported : CapabilityId → List Text → Capability
imported cap_id [] = record { id = cap_id; status = denied; values = []; evidence = [] }
imported cap_id (v ∷ vs) = record {
  id = cap_id;
  status = inferred;
  values = v ∷ vs;
  evidence =
      record {
        tool = [];
        source = txt "override";
        detail = txt "imported from policy-mcp permissions";
      }
      ∷ [];
}

abbrev pub stem_or_unknown : Option Text → Text
stem_or_unknown none = txt "unknown"
stem_or_unknown (some s) = s

-- The values found for each class.
abbrev pub Values : Type 0
Values = CapabilityId → List Text

-- `values[cap_id].append(t)`
abbrev pub add_value : CapabilityId → Text → Values → Values
add_value cap_id t values = λ i. if i == cap_id then values i ++ t ∷ [] else values i

abbrev pub add_if : Bool → CapabilityId → Text → Values → Values
add_if b cap_id t values = if b then add_value cap_id t values else values

module _ (py : Builtins) where
  -- The loop over the network grants.
  unfoldable pub add_network : List Value → Values → Result Values
  add_network [] values = ok values
  add_network (v ∷ vs) values = do
    grant ← as_dict v
    let target = or_value (get_or (txt "host") null grant) (get_or (txt "cidr") null grant)
    add_network vs (add_if (truthy target) net_http (to_str py target) values)

  abbrev pub direction : Fields → Text → Values → Result Values
  direction grant prefix values = do
    let access = get_or (txt "access") null grant
    r ← has_token (txt "read") access
    w ← has_token (txt "write") access
    ok (add_if w fs_write prefix (add_if r fs_read prefix values))

  -- The loop over the storage grants.
  unfoldable pub add_storage : List Value → Values → Result Values
  add_storage [] values = ok values
  add_storage (v ∷ vs) values = do
    grant ← as_dict v
    let uri = get_or (txt "uri") null grant
    values' ←
        (if truthy uri && truthy (get_or (txt "access") null grant)
          then direction grant (storage_uri_to_prefix (to_str py uri)) values
          else ok values)
    add_storage vs values'

  -- The loop over the environment grants.
  unfoldable pub add_environment : List Value → Values → Result Values
  add_environment [] values = ok values
  add_environment (v ∷ vs) values = do
    grant ← as_dict v
    let key = get_or (txt "key") null grant
    add_environment vs (add_if (truthy key) env (to_str py key) values)

  abbrev pub imported_permissions : Value → Result Fields
  imported_permissions v = elim (or_value v (obj end)) [ obj fs ↦ ok fs | _ ↦ err value_error ]

  -- `_import_foreign`
  unfoldable pub import_foreign : Fields → Option Text → Result Policy
  import_foreign doc origin = do
    permissions ← imported_permissions (get_or (txt "permissions") null doc)
    network ← grants (txt "network") permissions
    hosts ← add_network network (λ i. [])
    storage ← grants (txt "storage") permissions
    paths ← add_storage storage hosts
    environment ← grants (txt "environment") permissions
    values ← add_environment environment paths
    ok (record {
      server_id = stem_or_unknown origin;
      manifest_hash = [];
      caps = map (λ i. imported i (add_all [] (values i))) all_ids;
      backend_hint = null;
      generated_by = generator;
    })

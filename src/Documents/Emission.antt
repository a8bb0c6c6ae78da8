-- ===== src/Documents/Emission.antt =====
-- `policy/io.py`: policies written as policy-mcp documents.
use mcp_contract.Base.{
  List, [], ◌∷◌, ◌++◌, map, none, some, ◌==◌, contains, if◌then◌else◌, add_new, Text, txt, text_eq,
  nat_eq, Value, str, arr, obj, Fields, dict, list, Result, ok, err, value_error, ◌>>=◌,
}
use mcp_contract.Models.{
  CapabilityId, net_http, fs_read, fs_write, env, id_eq, status_eq, class_eq, Policy, granted,
}
use mcp_contract.Models.Codec.{capability_to_dict}
use mcp_contract.Documents.Conformance.{Builtin, is_cidr}

abbrev pub granted_values : Policy → CapabilityId → List Text
granted_values p cap_id = elim (granted p cap_id) [ none ↦ [] | some c ↦ c.values ]

abbrev pub policy_description : Policy → Value
policy_description p =
    str (txt "Least-privilege policy for " ++ (p.server_id ++ txt ", generated by mcp-contract"))

-- `access_by_path.setdefault(path, [])`, with the token appended once.
unfoldable pub grant_access : Text → List (Text × List Text) → Text → List (Text × List Text)
grant_access token [] path = (path, token ∷ []) ∷ []
grant_access token ((p, tokens) ∷ entries) path =
    if path == p
    then (p, add_new tokens token) ∷ entries
    else (p, tokens) ∷ grant_access token entries path

unfoldable pub grant_all : Text → List (Text × List Text) → List Text → List (Text × List Text)
grant_all token entries [] = entries
grant_all token entries (path ∷ paths) = grant_all token (grant_access token entries path) paths

abbrev pub fs_scheme : Text
fs_scheme = txt "fs://"

abbrev pub storage_entry : Text × List Text → Value
storage_entry (path, access) =
    obj (
      dict
        ((txt "uri", str (fs_scheme ++ path)) ∷ (txt "access", arr (list (map str access))) ∷ []))

-- The grants of environment variables; a name with a wildcard is refused, `*` alone is left out.
unfoldable pub env_allow : List Text → Result (List Value)
env_allow [] = ok []
env_allow (key ∷ ks) =
    if key == txt "*"
    then env_allow ks
    else if contains key 42
    then err value_error
    else (do rest ← env_allow ks; ok (obj (dict ((txt "key", str key) ∷ [])) ∷ rest))

-- A permission with its list of grants, where it has any.
abbrev pub permission : Text → List Value → List (Text × Value)
permission k [] = []
permission k (v ∷ vs) = (k, obj (dict ((txt "allow", arr (list (v ∷ vs))) ∷ []))) ∷ []

-- The block `x-mcp-contract`.
abbrev pub extension : Policy → Fields
extension p = dict (
    (txt "schema", str (txt "policy-mcp/v1"))
    ∷ (txt "server_id", str p.server_id)
    ∷ (txt "source_manifest_hash", str p.manifest_hash)
    ∷ (txt "generated_by", str p.generated_by)
    ∷ (txt "backend_hint", p.backend_hint)
    ∷ (txt "caps", arr (list (map capability_to_dict p.caps)))
    ∷ [])

module _ (lib : Builtin) where
  -- `_net_grant`
  abbrev pub net_grant : Text → Value
  net_grant value =
      if is_cidr lib value
      then obj (dict ((txt "cidr", str value) ∷ []))
      else obj (dict ((txt "host", str value) ∷ []))

  -- `_permissions_block`
  unfoldable pub permissions_block : Policy → Result Value
  permissions_block p = do
    envs ← env_allow (granted_values p env)
    let reads = grant_all (txt "read") [] (granted_values p fs_read)
    let storage = grant_all (txt "write") reads (granted_values p fs_write)
    ok (
        obj (
          dict (
            permission (txt "network") (map net_grant (granted_values p net_http))
            ++ (permission (txt "storage") (map storage_entry storage)
                ++ permission (txt "environment") envs))))

  unfoldable pub policy_to_dict : Policy → Result Fields
  policy_to_dict p = do
    permissions ← permissions_block p
    ok (
        dict (
          (txt "version", str (txt "1.0"))
          ∷ (txt "description", policy_description p)
          ∷ (txt "permissions", permissions)
          ∷ (txt "x-mcp-contract", obj (extension p))
          ∷ []))

  unfoldable pub policy_to_policy_mcp_base : Policy → Result Fields
  policy_to_policy_mcp_base p = do
    permissions ← permissions_block p
    ok (
        dict (
          (txt "version", str (txt "1.0"))
          ∷ (txt "description", policy_description p)
          ∷ (txt "permissions", permissions)
          ∷ []))

  -- `policy_hash`; `digest` is the SHA-256, in hexadecimal, of a document's canonical JSON text.
  unfoldable pub policy_hash : (Value → Result Text) → Policy → Result Text
  policy_hash digest p = do
    permissions ← permissions_block p
    let caps = arr (list (map capability_to_dict p.caps))
    d ← digest (obj (dict ((txt "permissions", permissions) ∷ (txt "caps", caps) ∷ [])))
    ok (txt "sha256:" ++ d)

  -- `dump_policy` to a file; `safe_dump` is `yaml.safe_dump`, and `write_text` writes a file.
  unfoldable pub dump_policy :
      (Fields → Text) → (Text → Text → Result Text) → Policy → Text → Result Text
  dump_policy safe_dump write_text p path = do
    doc ← policy_to_dict p
    write_text path (safe_dump doc)

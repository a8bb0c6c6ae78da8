-- ===== src/Documents/Conformance/Schema.antt =====
-- The policy-mcp/v1 schema of a base document, as predicates, about `policy/conformance.py`.
use mcp_contract.Base.{
  ◌≡◌, ◌≢◌, ◌⊎◌, true, List, [], ◌∷◌, ◌++◌, Option, none, some, In, All, Distinct, Text, txt,
  text_eq, nat_eq, Value, null, bool, str, arr, obj, Fields, end, field, items, keys, get,
}
use mcp_contract.Models.{id_eq, status_eq, class_eq}
use mcp_contract.Documents.Conformance.{Builtin, root_keys, permission_keys, is_cidr}

-- The schema. A node of it is a predicate on the documents.
abbrev pub OnlyKeys : List Text → Fields → Type 0
OnlyKeys allowed fs = All (λ k. In k allowed) (keys fs)

abbrev pub IsName : Value → Type 0
IsName (str s) = s ≢ []
IsName _ = ⊥

abbrev pub IsText : Value → Type 0
IsText (str s) = Unit
IsText _ = ⊥

abbrev pub Required : (Value → Type 0) → Option Value → Type 0
Required P none = ⊥
Required P (some v) = P v

abbrev pub Optional : (Value → Type 0) → Option Value → Type 0
Optional P none = Unit
Optional P (some v) = P v

-- A list that is absent, null, or has only such items.
abbrev pub IsListOf : (Value → Type 0) → Option Value → Type 0
IsListOf P none = Unit
IsListOf P (some null) = Unit
IsListOf P (some (arr vs)) = All P (items vs)
IsListOf P (some _) = ⊥

abbrev pub IsAccess : Value → Type 0
IsAccess (str s) = (s ≡ txt "read") ⊎ (s ≡ txt "write")
IsAccess _ = ⊥

abbrev pub IsEnvName : Value → Type 0
IsEnvName (str s) = (s ≢ []) × ¬ (In 42 s)
IsEnvName _ = ⊥

abbrev pub IsEnvPerm : Value → Type 0
IsEnvPerm (obj fs) = OnlyKeys (txt "key" ∷ []) fs × Required IsEnvName (get (txt "key") fs)
IsEnvPerm _ = ⊥

abbrev pub IsVersion : Value → Type 0
IsVersion (str s) = (rest : Text) × (s ≡ txt "1." ++ rest)
IsVersion _ = ⊥

abbrev pub IsLists : (Value → Type 0) → Value → Type 0
IsLists P (obj fs) =
    OnlyKeys (txt "allow" ∷ txt "deny" ∷ []) fs
    × IsListOf P (get (txt "allow") fs)
    × IsListOf P (get (txt "deny") fs)
IsLists P _ = ⊥

abbrev pub IsEnvironment : Value → Type 0
IsEnvironment (obj fs) = OnlyKeys (txt "allow" ∷ []) fs × IsListOf IsEnvPerm (get (txt "allow") fs)
IsEnvironment _ = ⊥

-- One access or both, none twice.
abbrev pub IsAccessList : Value → Type 0
IsAccessList (arr vs) = (items vs ≢ []) × Distinct (items vs) × All IsAccess (items vs)
IsAccessList _ = ⊥

abbrev pub IsStoragePerm : Value → Type 0
IsStoragePerm (obj fs) =
    OnlyKeys (txt "uri" ∷ txt "access" ∷ []) fs
    × Required IsName (get (txt "uri") fs)
    × Required IsAccessList (get (txt "access") fs)
IsStoragePerm _ = ⊥

module _ (lib : Builtin) where
  abbrev pub IsCidr : Value → Type 0
  IsCidr (str s) = is_cidr lib s ≡ true
  IsCidr _ = ⊥

  -- Exactly one of `host`, `cidr` and `defaults`.
  abbrev pub IsNetworkPerm : Value → Type 0
  IsNetworkPerm (obj (field k v end)) =
      ((k ≡ txt "host") × IsName v)
      ⊎ (((k ≡ txt "cidr") × IsCidr v) ⊎ ((k ≡ txt "defaults") × (v ≡ bool true)))
  IsNetworkPerm _ = ⊥

  abbrev pub IsPermissions : Value → Type 0
  IsPermissions (obj fs) =
      OnlyKeys permission_keys fs
      × Optional (IsLists IsNetworkPerm) (get (txt "network") fs)
      × Optional (IsLists IsStoragePerm) (get (txt "storage") fs)
      × Optional IsEnvironment (get (txt "environment") fs)
  IsPermissions _ = ⊥

  abbrev pub IsBaseDocument : Value → Type 0
  IsBaseDocument (obj fs) =
      OnlyKeys root_keys fs
      × Required IsVersion (get (txt "version") fs)
      × Optional IsText (get (txt "description") fs)
      × Required IsPermissions (get (txt "permissions") fs)
  IsBaseDocument _ = ⊥

-- ===== src/Documents/Imports/Laws.antt =====
-- What importing a foreign document grants, about `_import_foreign` of `policy/io.py`.
use mcp_contract.Base.{
  ◌≡◌, ◌↔◌, ◌⊎◌, refl, ap, ◌∙◌, List, [], ◌∷◌, map, Option, none, some, arith, In, add_all,
  In-add_all, Text, txt, text_eq, nat_eq, Value, null, obj, Fields, get_or, Result, ok, bind-ok,
  Builtins,
}
use mcp_contract.Models.{
  CapabilityId, net_http, fs_read, fs_write, proc_exec, env, all_ids, id_eq, status_eq, class_eq,
  Capability, Policy, find_cap, if_inferred, granted,
}
use mcp_contract.Documents.Emission.{granted_values}
use mcp_contract.Documents.Imports.{
  Values, grants, add_network, add_storage, add_environment, imported, imported_permissions,
  import_foreign,
}
use mcp_contract.Documents.Imports.Loops.{
  Some, Adds, NamesHost, OpensPath, NamesKey, add_network-Adds, add_storage-Adds,
  add_environment-Adds,
}
use mcp_contract.Documents.Imports.Sections.{Allows, grants-Allows}

-- What an imported policy may grant: nothing of `proc.exec`, and of another class what a grant of
-- its section asks for.
abbrev pub Asked : Builtins → Fields → CapabilityId → Text → Type 0
Asked py doc net_http t = Allows doc (txt "network") (NamesHost py t)
Asked py doc fs_read t = Allows doc (txt "storage") (OpensPath py (txt "read") t)
Asked py doc fs_write t = Allows doc (txt "storage") (OpensPath py (txt "write") t)
Asked py doc proc_exec t = ⊥
Asked py doc CapabilityId.env t = Allows doc (txt "environment") (NamesKey py t)

imported-id : (cap_id : CapabilityId) (vs : List Text) → (imported cap_id vs).id ≡ cap_id
imported-id cap_id [] = refl
imported-id cap_id (v ∷ vs) = refl

abbrev caps_with : Values → List Capability
caps_with values = map (λ i. imported i (values i)) all_ids

caps_with-ids : (values : Values) → map (λ (c : Capability). c.id) (caps_with values) ≡ all_ids
caps_with-ids values =
    rw
      (
        imported-id net_http (values net_http),
        imported-id fs_read (values fs_read),
        imported-id fs_write (values fs_write),
        imported-id proc_exec (values proc_exec),
        imported-id CapabilityId.env (values CapabilityId.env),
      )
      refl

find_cap-caps_with :
    (values : Values) (i : CapabilityId)
    → find_cap (caps_with values) i ≡ some (imported i (values i))
unfolding find_cap id_eq
find_cap-caps_with values net_http = rw (imported-id net_http (values net_http)) refl
find_cap-caps_with values fs_read =
    rw (imported-id net_http (values net_http), imported-id fs_read (values fs_read)) refl
find_cap-caps_with values fs_write =
    rw
      (
        imported-id net_http (values net_http),
        imported-id fs_read (values fs_read),
        imported-id fs_write (values fs_write),
      )
      refl
find_cap-caps_with values proc_exec =
    rw
      (
        imported-id net_http (values net_http),
        imported-id fs_read (values fs_read),
        imported-id fs_write (values fs_write),
        imported-id proc_exec (values proc_exec),
      )
      refl
find_cap-caps_with values CapabilityId.env =
    rw
      (
        imported-id net_http (values net_http),
        imported-id fs_read (values fs_read),
        imported-id fs_write (values fs_write),
        imported-id proc_exec (values proc_exec),
        imported-id CapabilityId.env (values CapabilityId.env),
      )
      refl

imported-values :
    (i : CapabilityId) (vs : List Text)
    → (elim (if_inferred (some (imported i vs))) [ none ↦ [] | some c ↦ c.values ]) ≡ vs
unfolding status_eq
imported-values i [] = refl
imported-values i (v ∷ vs) = refl

granted_values-caps_with :
    (p : Policy) (values : Values) (i : CapabilityId)
    → p.caps ≡ caps_with values
    → granted_values p i ≡ values i
unfolding granted
granted_values-caps_with p values i e =
    let k : find_cap p.caps i ≡ some (imported i (values i)) =
      ap (λ cs. find_cap cs i) e ∙ find_cap-caps_with values i in
    ap (λ o. elim (if_inferred o) [ none ↦ [] | some c ↦ c.values ]) k
    ∙ imported-values i (values i)

In-deduped : (t : Text) (vs : List Text) → In t (add_all [] vs) ↔ In t vs
In-deduped t vs = ground (arith, In-add_all t [] vs)

module _ (py : Builtins) (doc : Fields) where
  NamesHost-obj : (t : Text) (v : Value) → NamesHost py t v → (fs : Fields) × (v ≡ obj fs)
  NamesHost-obj t (obj fs) h = (fs, refl)
  NamesHost-obj t _ h = elim h [ ]

  OpensPath-obj :
      (token t : Text) (v : Value) → OpensPath py token t v → (fs : Fields) × (v ≡ obj fs)
  OpensPath-obj token t (obj fs) h = (fs, refl)
  OpensPath-obj token t _ h = elim h [ ]

  NamesKey-obj : (t : Text) (v : Value) → NamesKey py t v → (fs : Fields) × (v ≡ obj fs)
  NamesKey-obj t (obj fs) h = (fs, refl)
  NamesKey-obj t _ h = elim h [ ]

  -- The values after the three loops are those that the grants ask for.
  found-Asked :
      (permissions : Fields) (network storage environment : List Value)
      (hosts paths values : Values)
      → imported_permissions py (get_or (txt "permissions") null doc) ≡ ok permissions
      → grants (txt "network") permissions ≡ ok network
      → add_network py network (λ i. []) ≡ ok hosts
      → grants (txt "storage") permissions ≡ ok storage
      → add_storage py storage hosts ≡ ok paths
      → grants (txt "environment") permissions ≡ ok environment
      → add_environment py environment paths ≡ ok values
      → (i : CapabilityId) (t : Text) → In t (values i) ↔ Asked py doc i t
  found-Asked permissions network storage environment hosts paths values p gn n gs s ge e i t =
      let n' : Adds (ok hosts) (λ i. []) (λ i t. (i ≡ net_http) × Some (NamesHost py t) network) =
        rw n at (add_network-Adds py network (λ i. [])) in
      let s' : Adds (ok paths) hosts (λ i t.
        ((i ≡ fs_read) × Some (OpensPath py (txt "read") t) storage)
        ⊎ ((i ≡ fs_write) × Some (OpensPath py (txt "write") t) storage)) =
        rw s at (add_storage-Adds py storage hosts) in
      let e' : Adds (ok values) paths
          (λ i t. (i ≡ CapabilityId.env) × Some (NamesKey py t) environment) =
        rw e at (add_environment-Adds py environment paths) in
      let net =
        grants-Allows (NamesHost py t) (NamesHost-obj t) py doc permissions (txt "network") network
          p gn in
      let store : (token : Text)
          → Some (OpensPath py token t) storage
            ↔ Allows doc (txt "storage") (OpensPath py token t) =
        λ token.
          grants-Allows (OpensPath py token t) (OpensPath-obj token t) py doc permissions
            (txt "storage") storage p gs in
      let keyed =
        grants-Allows (NamesKey py t) (NamesKey-obj t) py doc permissions (txt "environment")
          environment p ge in
      elim i as (λ k. In t (values k) ↔ Asked py doc k t) [
        | net_http ↦ ground (arith, n' net_http t, s' net_http t, e' net_http t, net)
        | fs_read ↦ ground (arith, n' fs_read t, s' fs_read t, e' fs_read t, store (txt "read"))
        | fs_write ↦
            ground (arith, n' fs_write t, s' fs_write t, e' fs_write t, store (txt "write"))
        | proc_exec ↦ ground (arith, n' proc_exec t, s' proc_exec t, e' proc_exec t)
        | env ↦
            ground
              (arith, n' CapabilityId.env t, s' CapabilityId.env t, e' CapabilityId.env t, keyed)
      ]

  caps-of : {p q : Policy} → Result.ok p ≡ ok q → q.caps ≡ p.caps
  caps-of h = cc

  -- A policy imported from a foreign document lists the five classes in order, and grants of each
  -- exactly the values that its permissions ask for: for net.http the hosts of the network grants, or
  -- their CIDRs where they have no host; for fs.read and fs.write the path prefixes of the storage
  -- grants whose access has "read" or "write"; for env the keys of the environment grants; and for
  -- proc.exec none.
  pub import_foreign-granted_iff :
      (origin : Option Text) (p : Policy)
      → import_foreign py doc origin ≡ ok p
      → (map (λ (c : Capability). c.id) p.caps ≡ all_ids)
        × ((i : CapabilityId) (t : Text) → In t (granted_values p i) ↔ Asked py doc i t)
  unfolding import_foreign
  import_foreign-granted_iff origin p h =
      let (permissions, hp, h1) =
        bind-ok (imported_permissions py (get_or (txt "permissions") null doc)) _ p h in
      let (network, gn, h2) = bind-ok (grants (txt "network") permissions) _ p h1 in
      let (hosts, n, h3) = bind-ok (add_network py network (λ i. [])) _ p h2 in
      let (storage, gs, h4) = bind-ok (grants (txt "storage") permissions) _ p h3 in
      let (paths, s, h5) = bind-ok (add_storage py storage hosts) _ p h4 in
      let (environment, ge, h6) = bind-ok (grants (txt "environment") permissions) _ p h5 in
      let (values, e, h7) = bind-ok (add_environment py environment paths) _ p h6 in
      let caps : p.caps ≡ caps_with (λ i. add_all [] (values i)) = caps-of h7 in
      (
        rw caps (caps_with-ids (λ i. add_all [] (values i))),
        λ i t.
            let found =
              found-Asked permissions network storage environment hosts paths values hp gn n gs s ge
                e i t in
            let same = granted_values-caps_with p (λ i. add_all [] (values i)) i caps in
            rw same (ground (arith, In-deduped t (values i), found)),
      )

-- ===== src/Documents/Imports/Loops.antt =====
-- What the loops over the grants add, about `_import_foreign` of `policy/io.py`.
use mcp_contract.Base.{
  ◌≡◌, ◌↔◌, ◌⊎◌, inl, inr, Bool, true, false, ◌&&◌, List, [], ◌∷◌, if◌then◌else◌, arith, In,
  In-append, Bool-cases, Text, txt, text_eq, nat_eq, Value, null, obj, Fields, get_or, truthy,
  Result, ok, err, Exception, ◌>>=◌, Result-cases, Builtins,
}
use mcp_contract.Models.{CapabilityId, net_http, fs_read, fs_write, env, id_eq, status_eq, class_eq}
use mcp_contract.Models.Codec.{to_str}
use mcp_contract.Base.{or_value}
use mcp_contract.Documents.Imports.{
  Values, has_token, storage_uri_to_prefix, add_if, add_network, direction, add_storage,
  add_environment,
}

-- Some value of a list has the property.
abbrev pub Some : (Value → Type 0) → List Value → Type 0
Some P [] = ⊥
Some P (v ∷ vs) = P v ⊎ Some P vs

-- A loop adds to the values of the classes what the predicate says, and nothing else.
abbrev pub Adds : Result Values → Values → (CapabilityId → Text → Type 0) → Type 0
Adds (err e) values P = Unit
Adds (ok found) values P =
    (i : CapabilityId) (t : Text) → In t (found i) ↔ (In t (values i) ⊎ P i t)

Adds-step :
    (m : Result Values) (values between : Values) (P Q : CapabilityId → Text → Type 0)
    → Adds m between P
    → ((i : CapabilityId) (t : Text) → (In t (between i) ⊎ P i t) ↔ (In t (values i) ⊎ Q i t))
    → Adds m values Q
Adds-step (err e) values between P Q a h = tt
Adds-step (ok found) values between P Q a h =
    λ i t. (λ x. (h i t).0 ((a i t).0 x), λ y. (a i t).1 ((h i t).1 y))

Adds->>= :
    (m : Result Values) (f : Values → Result Values) (values : Values)
    (P Q : CapabilityId → Text → Type 0)
    → Adds m values P
    → ((found : Values) → Adds (f found) found Q)
    → Adds (m >>= f) values (λ i t. P i t ⊎ Q i t)
Adds->>= (err e) f values P Q a h = tt
Adds->>= (ok found) f values P Q a h =
    Adds-step (f found) values found Q (λ i t. P i t ⊎ Q i t) (h found) λ i t. ground (arith, a i t)

add_if-Adds :
    (b : Bool) (c : CapabilityId) (u : Text) (values : Values)
    → Adds (ok (add_if b c u values)) values (λ i t. (b ≡ true) × (i ≡ c) × (t ≡ u))
add_if-Adds false c u values = λ i t. ground arith
add_if-Adds true c u values = λ i t. ground (arith, In-append t (values i) (u ∷ []))

token-cases :
    (t : Text) (v : Value)
    → ((b : Bool) × (has_token t v ≡ ok b)) ⊎ ((e : Exception) × (has_token t v ≡ err e))
token-cases t v = Result-cases (has_token t v)

module _ (py : Builtins) where
  -- A network grant of a host, or of a CIDR where it has none.
  abbrev pub NamesHost : Text → Value → Type 0
  NamesHost t (obj grant) =
      let target = or_value (get_or (txt "host") null grant) (get_or (txt "cidr") null grant) in
      (truthy target ≡ true) × (t ≡ to_str py target)
  NamesHost t _ = ⊥

  -- A storage grant with a URI, whose access has the token, of the prefix of the URI.
  abbrev pub OpensPath : Text → Text → Value → Type 0
  OpensPath token t (obj grant) =
      let uri = get_or (txt "uri") null grant in
      let access = get_or (txt "access") null grant in
      (truthy uri ≡ true)
      × (truthy access ≡ true)
      × (has_token token access ≡ ok true)
      × (t ≡ storage_uri_to_prefix (to_str py uri))
  OpensPath token t _ = ⊥

  -- An environment grant of a variable.
  abbrev pub NamesKey : Text → Value → Type 0
  NamesKey t (obj grant) =
      let key = get_or (txt "key") null grant in (truthy key ≡ true) × (t ≡ to_str py key)
  NamesKey t _ = ⊥

  pub add_network-Adds :
      (vs : List Value) (values : Values)
      → Adds (add_network py vs values) values (λ i t. (i ≡ net_http) × Some (NamesHost t) vs)
  unfolding add_network
  add_network-Adds [] values = λ i t. ground arith
  add_network-Adds (obj grant ∷ vs) values =
      let target = or_value (get_or (txt "host") null grant) (get_or (txt "cidr") null grant) in
      let next = add_if (truthy target) net_http (to_str py target) values in
      Adds-step (add_network py vs next) values next (λ i t. (i ≡ net_http) × Some (NamesHost t) vs)
        (λ i t. (i ≡ net_http) × (NamesHost t (obj grant) ⊎ Some (NamesHost t) vs))
        (add_network-Adds vs next)
        λ i t. ground (arith, add_if-Adds (truthy target) net_http (to_str py target) values i t)
  add_network-Adds (_ ∷ vs) values = tt

  pub add_environment-Adds :
      (vs : List Value) (values : Values)
      → Adds (add_environment py vs values) values (λ i t. (i ≡ env) × Some (NamesKey t) vs)
  unfolding add_environment
  add_environment-Adds [] values = λ i t. ground arith
  add_environment-Adds (obj grant ∷ vs) values =
      let key = get_or (txt "key") null grant in
      let next = add_if (truthy key) CapabilityId.env (to_str py key) values in
      Adds-step (add_environment py vs next) values next
        (λ i t. (i ≡ CapabilityId.env) × Some (NamesKey t) vs)
        (λ i t. (i ≡ CapabilityId.env) × (NamesKey t (obj grant) ⊎ Some (NamesKey t) vs))
        (add_environment-Adds vs next)
        λ i t. ground (arith, add_if-Adds (truthy key) CapabilityId.env (to_str py key) values i t)
  add_environment-Adds (_ ∷ vs) values = tt

  -- What one storage grant adds.
  abbrev Opens : Value → CapabilityId → Text → Type 0
  Opens v i t =
      ((i ≡ fs_read) × OpensPath (txt "read") t v) ⊎ ((i ≡ fs_write) × OpensPath (txt "write") t v)

  direction-Adds :
      (grant : Fields) (prefix : Text) (values : Values)
      → let access = get_or (txt "access") null grant in
        Adds (direction py grant prefix values) values (λ i t.
          ((i ≡ fs_read) × (has_token (txt "read") access ≡ ok true) × (t ≡ prefix))
          ⊎ ((i ≡ fs_write) × (has_token (txt "write") access ≡ ok true) × (t ≡ prefix)))
  direction-Adds grant prefix values =
      let access = get_or (txt "access") null grant in
      elim (token-cases (txt "read") access) [
        | inr (e, r) ↦ rw (r, Adds) tt
        | inl (r, p) ↦ elim (token-cases (txt "write") access) [
          | inr (e, q) ↦ rw (p, q, Adds) tt
          | inl (w, q) ↦
              rw (p, q)
                (λ i t. ground (
                  arith,
                  add_if-Adds r fs_read prefix values i t,
                  add_if-Adds w fs_write prefix (add_if r fs_read prefix values) i t,
                ))
        ]
      ]

  storage_step-Adds :
      (grant : Fields) (values : Values)
      → let uri = get_or (txt "uri") null grant in
        Adds
          (if truthy uri && truthy (get_or (txt "access") null grant)
            then direction py grant (storage_uri_to_prefix (to_str py uri)) values
            else ok values)
          values
          (Opens (obj grant))
  storage_step-Adds grant values =
      let uri = get_or (txt "uri") null grant in
      let prefix = storage_uri_to_prefix (to_str py uri) in
      let both = truthy uri && truthy (get_or (txt "access") null grant) in
      let access = get_or (txt "access") null grant in
      elim (Bool-cases both) [
        | inl y ↦ rw y (
            Adds-step (direction py grant prefix values) values values
              (λ i t.
                ((i ≡ fs_read) × (has_token (txt "read") access ≡ ok true) × (t ≡ prefix))
                ⊎ ((i ≡ fs_write) × (has_token (txt "write") access ≡ ok true) × (t ≡ prefix)))
              (Opens (obj grant)) (direction-Adds grant prefix values) λ i t. ground arith)
        | inr n ↦ rw n (λ i t. ground arith)
      ]

  pub add_storage-Adds :
      (vs : List Value) (values : Values)
      → Adds (add_storage py vs values) values (λ i t.
        ((i ≡ fs_read) × Some (OpensPath (txt "read") t) vs)
        ⊎ ((i ≡ fs_write) × Some (OpensPath (txt "write") t) vs))
  unfolding add_storage
  add_storage-Adds [] values = λ i t. ground arith
  add_storage-Adds (obj grant ∷ vs) values =
      let uri = get_or (txt "uri") null grant in
      let step : Result Values =
        (if truthy uri && truthy (get_or (txt "access") null grant)
          then direction py grant (storage_uri_to_prefix (to_str py uri)) values
          else ok values) in
      let later : CapabilityId → Text → Type 0 = λ i t.
        ((i ≡ fs_read) × Some (OpensPath (txt "read") t) vs)
        ⊎ ((i ≡ fs_write) × Some (OpensPath (txt "write") t) vs) in
      Adds-step (step >>= add_storage py vs) values values
        (λ i t. Opens (obj grant) i t ⊎ later i t)
        (λ i t.
          ((i ≡ fs_read) × Some (OpensPath (txt "read") t) (obj grant ∷ vs))
          ⊎ ((i ≡ fs_write) × Some (OpensPath (txt "write") t) (obj grant ∷ vs)))
        (Adds->>= step (add_storage py vs) values (Opens (obj grant)) later
          (storage_step-Adds grant values) λ found. add_storage-Adds vs found)
        λ i t. ground arith
  add_storage-Adds (_ ∷ vs) values = tt

-- ===== src/Documents/Policies/Laws.antt =====
-- What writing and reading a policy preserves, about `policy/io.py`.
use mcp_contract.Base.{
  bind-ok, ok-inj, ◌≡◌, ◌↔◌, ◌⊎◌, inl, inr, refl, Bool, true, false, List, [], ◌∷◌, map, Option,
  none, ◌==◌, contains, if◌then◌else◌, all, arith, In, Distinct, All, contains_iff, subst,
  Bool-cases, Text, txt, text_eq, nat_eq, Value, null, arr, Fields, items, get_or, truthy,
  items-list, Result, ok, err, value_error, Builtins,
}
use mcp_contract.Models.{CapabilityId, env, id_eq, status_eq, class_eq, Capability, Policy}
use mcp_contract.Models.Codec.{capability_to_dict}
use mcp_contract.Models.Codec.RoundTrip.{capability_from_dict-capability_to_dict}
use mcp_contract.Documents.Conformance.{Builtin}
use mcp_contract.Documents.Emission.{
  extension, env_allow, granted_values, permissions_block, policy_to_dict,
}
use mcp_contract.Documents.Policies.{
  load_cap, caps_of, load_caps_from, unless_seen, load_caps, load_extension, policy_of, load_policy,
  document, Files, read_source,
}

-- The classes of a policy's capabilities, which its documents list once each.
abbrev pub classes : List Capability → List CapabilityId
classes cs = map (λ (c : Capability). c.id) cs

All-fresh : (xs : List CapabilityId) → All (λ x. ¬ (In x [])) xs
All-fresh [] = tt
All-fresh (x ∷ xs) = (λ i. i, All-fresh xs)

fresh_iff :
    (c : CapabilityId) (seen xs : List CapabilityId)
    → All (λ x. ¬ (In x (c ∷ seen))) xs ↔ ((¬ (In c xs)) × All (λ x. ¬ (In x seen)) xs)
fresh_iff c seen [] = ground arith
fresh_iff c seen (x ∷ xs) = ground (arith, fresh_iff c seen xs)

not-contains :
    (seen : List CapabilityId) (c : CapabilityId) → ¬ (In c seen) → contains seen c ≡ false
not-contains seen c n = ground (arith, contains_iff seen c)

module _ (py : Builtins) where
  load_cap-capability_to_dict : (c : Capability) → load_cap py (capability_to_dict c) ≡ ok c
  unfolding load_cap capability_to_dict text_eq
  load_cap-capability_to_dict c = capability_from_dict-capability_to_dict py c

  load_caps_from-map :
      (seen : List CapabilityId) (cs : List Capability)
      → Distinct (classes cs)
      → All (λ c. ¬ (In c seen)) (classes cs)
      → load_caps_from py seen (map capability_to_dict cs) ≡ ok cs
  unfolding load_caps_from
  load_caps_from-map seen [] d a = refl
  load_caps_from-map seen (c ∷ cs) d a = rw (
    load_cap-capability_to_dict c,
    not-contains seen c.id a.0,
    load_caps_from-map (c.id ∷ seen) cs d.1 ((fresh_iff c.id seen (classes cs)).1 (d.0, a.1)),
  )

  unless_seen-ok :
      (b : Bool) (c : Capability) (rest : Result (List Capability)) (cs : List Capability)
      → unless_seen b c rest ≡ ok cs
      → (b ≡ false) × (others : List Capability) × (rest ≡ ok others) × (cs ≡ c ∷ others)
  unless_seen-ok true c rest cs h = cc
  unless_seen-ok false c (err e) cs h = cc
  unless_seen-ok false c (ok others) cs h = (refl, others, refl, cc)

  load_caps_from-Distinct :
      (seen : List CapabilityId) (vs : List Value) (cs : List Capability)
      → load_caps_from py seen vs ≡ ok cs
      → Distinct (classes cs) × All (λ c. ¬ (In c seen)) (classes cs)
  unfolding load_caps_from
  load_caps_from-Distinct seen [] [] h = (tt, tt)
  load_caps_from-Distinct seen [] (c ∷ cs) h = cc
  load_caps_from-Distinct seen (v ∷ vs) cs h =
      let (c, p, k) = bind-ok (load_cap py v) _ cs h in
      let (b, others, q, e) =
        unless_seen-ok (contains seen c.id) c (load_caps_from py (c.id ∷ seen) vs) cs k in
      let (d, a) = load_caps_from-Distinct (c.id ∷ seen) vs others q in
      let (n, fresh) = (fresh_iff c.id seen (classes others)).0 a in
      rw e ((n, d), (λ i. cc (b, (contains_iff seen c.id).1 i), fresh))

  none_or_refused :
      (b : Bool) (cs : List Capability)
      → (if b then err value_error else ok []) ≡ ok cs
      → Distinct (classes cs)
  none_or_refused true cs h = cc
  none_or_refused false [] h = tt
  none_or_refused false (c ∷ cs) h = cc

  caps_of-Distinct :
      (v : Value) (cs : List Capability) → caps_of py v ≡ ok cs → Distinct (classes cs)
  caps_of-Distinct (arr vs) cs h = (load_caps_from-Distinct [] (items vs) cs h).0
  caps_of-Distinct v cs h = none_or_refused (truthy v) cs h

  load_caps-Distinct :
      (ext : Fields) (cs : List Capability) → load_caps py ext ≡ ok cs → Distinct (classes cs)
  unfolding load_caps
  load_caps-Distinct ext cs h = caps_of-Distinct (get_or (txt "caps") null ext) cs h

  pub load_extension-extension :
      (p : Policy) (origin : Option Text)
      → Distinct (classes p.caps)
      → load_extension py (extension p) origin ≡ ok p
  unfolding load_extension load_caps text_eq
  load_extension-extension p origin d = rw (
    items-list (map capability_to_dict p.caps),
    load_caps_from-map [] p.caps d (All-fresh (classes p.caps)),
  )

  -- A policy with at most one capability of each class, once written, is loaded as it was.
  pub load_policy-policy_to_dict :
      (lib : Builtin) (files : Files) (p : Policy) (doc : Fields)
      → Distinct (classes p.caps)
      → policy_to_dict lib p ≡ ok doc
      → load_policy py files (document doc) ≡ ok p
  unfolding policy_to_dict load_policy read_source policy_of text_eq
  load_policy-policy_to_dict lib files p doc d h =
      let (permissions, q, e) = bind-ok (permissions_block lib p) _ doc h in
      subst (λ doc. policy_of py doc none ≡ ok p) (ok-inj e) (load_extension-extension p none d)

  -- A policy that is read from a document of the program's own names no class twice.
  pub load_extension-Distinct :
      (ext : Fields) (origin : Option Text) (p : Policy)
      → load_extension py ext origin ≡ ok p
      → Distinct (classes p.caps)
  unfolding load_extension
  load_extension-Distinct ext origin p h =
      let (cs, q, e) = bind-ok (load_caps py ext) _ p h in
      subst (λ (p : Policy). Distinct (classes p.caps)) (ok-inj e) (load_caps-Distinct ext cs q)

-- What may be granted of the environment: one variable by its name, or all.
abbrev pub IsEnvGrant : Text → Type 0
IsEnvGrant key = (key ≡ txt "*") ⊎ (¬ (In 42 key))

plain_name : (k : Text) → IsEnvGrant k → (k == txt "*") ≡ false → contains k 42 ≡ false
plain_name k g one = ground (arith, contains_iff k 42)

star_name : (k : Text) → (k == txt "*") ≡ true → IsEnvGrant k
star_name k all = ground arith

env_allow-accepts :
    (ks : List Text) → All IsEnvGrant ks → (vs : List Value) × (env_allow ks ≡ ok vs)
unfolding env_allow
env_allow-accepts [] a = ([], refl)
env_allow-accepts (k ∷ ks) (g, a) =
    let (vs, e) = env_allow-accepts ks a in
    elim (Bool-cases (k == txt "*")) [
      | inl all ↦ rw all (vs, e)
      | inr one ↦ rw (one, plain_name k g one, e) (_, refl)
    ]

env_allow-ok : (ks : List Text) (vs : List Value) → env_allow ks ≡ ok vs → All IsEnvGrant ks
unfolding env_allow
env_allow-ok [] vs h = tt
env_allow-ok (k ∷ ks) vs h = elim (Bool-cases (k == txt "*")) [
  | inl all ↦ (star_name k all, env_allow-ok ks vs (rw all at h))
  | inr one ↦ elim (Bool-cases (contains k 42)) [
    | inl star ↦ cc (rw (one, star) at h)
    | inr none_in ↦
        (let (rest, r, _) = bind-ok (env_allow ks) _ vs (rw (one, none_in) at h) in
          (inr (λ i. cc ((contains_iff k 42).1 i, none_in)), env_allow-ok ks rest r))
  ]
]

-- A policy can be written exactly when no environment variable that it grants has a `*` in its
-- name, other than the grant `*` of all variables.
pub policy_to_dict_iff :
    (lib : Builtin) (p : Policy)
    → ((doc : Fields) × (policy_to_dict lib p ≡ ok doc)) ↔ All IsEnvGrant (granted_values p env)
unfolding policy_to_dict permissions_block
policy_to_dict_iff lib p = (
  λ (doc, h).
      let (v, q, _) = bind-ok (permissions_block lib p) _ doc h in
      let (vs, r, _) = bind-ok (env_allow (granted_values p env)) _ v q in
      env_allow-ok (granted_values p env) vs r,
  λ a. let (vs, e) = env_allow-accepts (granted_values p env) a in rw e (_, refl),
)

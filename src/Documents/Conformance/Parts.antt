-- ===== src/Documents/Conformance/Parts.antt =====
-- The parts of the structural check, about `policy/conformance.py`: keys, texts, accesses.
use mcp_contract.Base.{
  ◌≡◌, ◌≢◌, ◌↔◌, true, not, List, [], ◌∷◌, ◌++◌, map, Option, none, some, contains, keep, arith, In,
  All, Distinct, any, contains_iff, Text, txt, text_eq, nat_eq, Value, str, obj, Fields, keys, get,
}
use mcp_contract.Models.{id_eq, status_eq, class_eq}
use mcp_contract.Proxy.Plan.{sort_texts, insert_text}
use mcp_contract.Documents.Conformance.{
  Step, Problem, unexpected, is_name, is_access, check_uri, check_access_types, check_env_value,
  check_env, Builtin, same_value, hashable, is_unique,
}
use mcp_contract.Documents.Conformance.{unexpected_key}
use mcp_contract.Documents.Conformance.Schema.{
  OnlyKeys, IsName, Required, IsAccess, IsEnvName, IsEnvPerm,
}

pub append-nil_iff : {A : Type 0} (xs ys : List A) → (xs ++ ys ≡ []) ↔ ((xs ≡ []) × (ys ≡ []))
append-nil_iff [] ys = ground arith
append-nil_iff (x ∷ xs) ys = ground arith

-- Problems in turn: none is reported where none is in each part.
pub both :
    {A : Type 0} {xs ys : List A} {P Q : Type 0}
    → (xs ≡ []) ↔ P
    → (ys ≡ []) ↔ Q
    → (xs ++ ys ≡ []) ↔ (P × Q)
both {xs = xs} {ys = ys} p q = (
  λ h. let (x, y) = (append-nil_iff xs ys).0 h in (p.0 x, q.0 y),
  λ (a, b). (append-nil_iff xs ys).1 (p.1 a, q.1 b),
)

pub both3 :
    {A : Type 0} {xs ys zs : List A} {P Q R : Type 0}
    → (xs ≡ []) ↔ P
    → (ys ≡ []) ↔ Q
    → (zs ≡ []) ↔ R
    → (xs ++ (ys ++ zs) ≡ []) ↔ (P × Q × R)
both3 p q r =
    let e = both p (both q r) in
    (λ h. let (a, b) = e.0 h in (a, b.0, b.1), λ (a, b, c). e.1 (a, (b, c)))

pub both4 :
    {A : Type 0} {xs ys zs ws : List A} {P Q R S : Type 0}
    → (xs ≡ []) ↔ P
    → (ys ≡ []) ↔ Q
    → (zs ≡ []) ↔ R
    → (ws ≡ []) ↔ S
    → (xs ++ (ys ++ (zs ++ ws)) ≡ []) ↔ (P × Q × R × S)
both4 p q r s =
    let e = both p (both3 q r s) in
    (λ h. let (a, b) = e.0 h in (a, b.0, b.1, b.2), λ (a, b, c, d). e.1 (a, (b, c, d)))

map-nil_iff : {A B : Type 0} (f : A → B) (xs : List A) → (map f xs ≡ []) ↔ (xs ≡ [])
map-nil_iff f [] = ground arith
map-nil_iff f (x ∷ xs) = ground arith

insert_text-filled : (t : Text) (ts : List Text) → insert_text t ts ≢ []
unfolding insert_text
insert_text-filled t [] = ground arith
insert_text-filled t (u ∷ us) = ground arith

sort_texts-nil_iff : (ts : List Text) → (sort_texts ts ≡ []) ↔ (ts ≡ [])
unfolding sort_texts
sort_texts-nil_iff [] = ground arith
sort_texts-nil_iff (t ∷ ts) = ground (arith, insert_text-filled t (sort_texts ts))

keep-nil_iff :
    (allowed ks : List Text)
    → (keep (λ k. not (contains allowed k)) ks ≡ []) ↔ All (λ k. In k allowed) ks
keep-nil_iff allowed [] = ground arith
keep-nil_iff allowed (k ∷ ks) = ground (arith, keep-nil_iff allowed ks, contains_iff allowed k)

-- No key is reported exactly where all are allowed.
pub unexpected_iff :
    (place : List Step) (allowed : List Text) (fs : Fields)
    → (unexpected place allowed fs ≡ []) ↔ OnlyKeys allowed fs
unfolding unexpected
unexpected_iff place allowed fs =
    let ks = keep (λ k. not (contains allowed k)) (keys fs) in
    ground (
      arith,
      map-nil_iff {B = Problem} (λ k. record { place = place; kind = unexpected_key k })
          (sort_texts ks),
      sort_texts-nil_iff ks,
      keep-nil_iff allowed (keys fs),
    )

pub is_name_iff : (v : Value) → (is_name v ≡ true) ↔ IsName v
is_name_iff (str []) = ground arith
is_name_iff (str (c ∷ s)) = ground arith
is_name_iff _ = ground arith

pub check_uri_iff :
    (o : Option Value) (place : List Step) → (check_uri o place ≡ []) ↔ Required IsName o
unfolding check_uri
check_uri_iff none place = ground arith
check_uri_iff (some v) place = ground (arith, is_name_iff v)

is_access_iff : (v : Value) → (is_access v ≡ true) ↔ IsAccess v
is_access_iff (str s) = ground arith
is_access_iff _ = ground arith

pub check_access_types_iff :
    (vs : List Value) (place : List Step) → (check_access_types vs place ≡ []) ↔ All IsAccess vs
unfolding check_access_types
check_access_types_iff [] place = ground arith
check_access_types_iff (v ∷ vs) place =
    ground (arith, is_access_iff v, check_access_types_iff vs place)

check_env_value_iff :
    (o : Option Value) (place : List Step) → (check_env_value o place ≡ []) ↔ Required IsEnvName o
unfolding check_env_value
check_env_value_iff none place = ground arith
check_env_value_iff (some (str [])) place = ground arith
check_env_value_iff (some (str (c ∷ s))) place = ground (arith, contains_iff (c ∷ s) 42)
check_env_value_iff (some _) place = ground arith

pub check_env_iff : (v : Value) (place : List Step) → (check_env v place ≡ []) ↔ IsEnvPerm v
unfolding check_env
check_env_iff (obj fs) place = ground (
  arith,
  append-nil_iff (unexpected place (txt "key" ∷ []) fs)
      (check_env_value (get (txt "key") fs) place),
  unexpected_iff place (txt "key" ∷ []) fs,
  check_env_value_iff (get (txt "key") fs) place,
)
check_env_iff _ place = ground arith

module _ (lib : Builtin) where
  -- Among accesses, equality as the code computes it is equality.
  occurs_iff :
      (v : Value) (vs : List Value)
      → IsAccess v
      → All IsAccess vs
      → (any (λ w. same_value lib (hashable lib v) (hashable lib w)) vs ≡ true) ↔ In v vs
  occurs_iff (str s) [] h a = ground arith
  occurs_iff (str s) (str t ∷ vs) h (k, a) = ground (arith, occurs_iff (str s) vs h a)
  occurs_iff (str s) (_ ∷ vs) h (k, a) = elim k [ ]
  occurs_iff _ vs h a = elim h [ ]

  pub is_unique_iff : (vs : List Value) → All IsAccess vs → (is_unique lib vs ≡ true) ↔ Distinct vs
  unfolding is_unique
  is_unique_iff [] a = ground arith
  is_unique_iff (v ∷ vs) (k, a) = ground (arith, occurs_iff v vs k a, is_unique_iff vs a)

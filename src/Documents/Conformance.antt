-- ===== src/Documents/Conformance.antt =====
-- `policy/conformance.py`: the structural check of a policy-mcp/v1 base document. A problem keeps its
-- place in the document and its kind; the wording of the messages is left out.
use mcp_contract.Base.{
  ℕ, zero, suc, ◌+◌, ◌-◌, ◌<◌, ◌≤◌, ◌≡◌, ◌≢◌, ◌↔◌, ◌⊎◌, inl, inr, refl, sym, ap, ◌∙◌, Bool, true,
  false, not, ◌&&◌, ◌||◌, List, [], ◌∷◌, ◌++◌, map, reverse, append-nil, append_assoc, Option, none,
  some, Eq, ◌==◌, contains, if◌then◌else◌, length, take, is_empty, tail, keep, any, all, leb,
  nat_beq, arith, In, In-append, length-append, Distinct, All, All-append, All-at, contains_iff,
  eq_refl, eq_sym, or_false, add_new, add_all, In-add_new, In-add_all, add_new-Distinct,
  add_all-Distinct, ℤ, pos, negsuc, subst, Bool-cases, Option-cases, is_some, Text, txt, text_eq,
  nat_eq, lower, lower_code, starts_with, ends_with, split, split_from, join, starts_with_iff,
  ends_with_iff, Value, null, bool, int, float, str, arr, obj, Items, nil, cons, Fields, end, field,
  dict, list, items, keys, get, get_or, has, put, put_default, truthy, to_text, items-list, get-put,
  Result, ok, err, Exception, value_error, key_error, type_error, attribute_error, overflow_error,
  os_error, ◌>>=◌, Result-cases, IsKnown, Raises, Raises->>=, item-Raises, dict_of-Raises, traverse,
  traverse-map, item, iterate, dict_of, Builtins,
}
use mcp_contract.Models.{
  CapabilityId, net_http, fs_read, fs_write, proc_exec, env, CapabilityStatus, inferred,
  needs_review, denied, all_ids, id_eq, status_eq, class_eq, Evidence, Capability, ToolIr, Manifest,
  Policy, generator, find_cap, cap, if_inferred, granted, EventKind, net_connect, fs_open,
  proc_spawn, env_read, mcp_call, syscall, EventClass, within_policy, within_manifest,
  outside_contract, BehaviorEvent, Mode, observe, alert, enforce, Severity, info, warning, critical,
  ViolationReport,
}
use mcp_contract.Proxy.Plan.{sort_texts}
pub mod Schema
pub mod Parts
pub mod Laws

pub data Step : Type 0 where
  at_key : Text → Step
  at_index : ℕ → Step

pub data Kind : Type 0 where
  not_mapping not_list not_text not_true not_one_of not_unique : Kind
  bad_version bad_cidr bad_text bad_access bad_access_type bad_env_key : Kind
  unexpected_key missing_key : Text → Kind

pub record Problem : Type 0 where
  pub place : List Step
  pub kind : Kind

-- The digits of a regular expression's `\d`, what `repr` prints for a list or a mapping, and whether
-- `==` holds of two numbers.
pub record Builtin : Type 0 where
  pub is_digit : ℕ → Bool
  pub printed : Value → Text
  pub same_number : Value → Value → Bool

abbrev problem : List Step → Kind → List Problem
problem place kind = record { place = place; kind = kind } ∷ []

abbrev unless : Bool → List Problem → List Problem
unless b problems = if b then [] else problems

abbrev below : List Step → Text → List Step
below place k = place ++ at_key k ∷ []

-- `for key in sorted(k for k in node if k not in allowed)`
unfoldable pub unexpected : List Step → List Text → Fields → List Problem
unexpected place allowed fs =
    map (λ k. record { place = place; kind = unexpected_key k })
      (sort_texts (keep (λ k. not (contains allowed k)) (keys fs)))

abbrev pub root_keys : List Text
root_keys = txt "version" ∷ txt "description" ∷ txt "permissions" ∷ []

abbrev pub permission_keys : List Text
permission_keys =
    txt "storage"
    ∷ txt "network"
    ∷ txt "environment"
    ∷ txt "runtime"
    ∷ txt "resources"
    ∷ txt "ipc"
    ∷ []

-- A text that is not empty.
abbrev pub is_name : Value → Bool
is_name (str (c ∷ s)) = true
is_name _ = false

abbrev pub is_true : Value → Bool
is_true (bool true) = true
is_true _ = false

abbrev pub is_access : Value → Bool
is_access (str s) = s == txt "read" || s == txt "write"
is_access _ = false

unfoldable pub check_uri : Option Value → List Step → List Problem
check_uri none place = problem place (missing_key (txt "uri"))
check_uri (some v) place = unless (is_name v) (problem (below place (txt "uri")) bad_text)

unfoldable pub check_access_types : List Value → List Step → List Problem
check_access_types [] place = []
check_access_types (v ∷ vs) place =
    unless (is_access v) (problem place bad_access_type) ++ check_access_types vs place

-- One item of `environment.allow`.
unfoldable pub check_env_value : Option Value → List Step → List Problem
check_env_value none place = problem place (missing_key (txt "key"))
check_env_value (some (str (c ∷ s))) place =
    unless (not (contains (c ∷ s) 42)) (problem (below place (txt "key")) bad_env_key)
check_env_value (some _) place = problem (below place (txt "key")) bad_text

unfoldable pub check_env : Value → List Step → List Problem
check_env (obj fs) place =
    unexpected place (txt "key" ∷ []) fs ++ check_env_value (get (txt "key") fs) place
check_env _ place = problem place not_mapping

module _ (lib : Builtin) where
  -- Up to `n` digits are read, and at least one.
  abbrev more_digits : ℕ → Text → Text
  more_digits zero s = s
  more_digits (suc n) [] = []
  more_digits (suc n) (c ∷ s) = let rest = more_digits n s in if lib.is_digit c then rest else c ∷ s

  abbrev digits : ℕ → Text → Option Text
  digits n [] = none
  digits n (c ∷ s) = if lib.is_digit c then some (more_digits n s) else none

  abbrev after : ℕ → Option Text → Option Text
  after c (some (d ∷ s)) = if d == c then some s else none
  after c _ = none

  abbrev three : Option Text → Option Text
  three none = none
  three (some s) = digits 2 s

  abbrev two : Option Text → Option Text
  two none = none
  two (some s) = digits 1 s

  -- `$`: the end, or a line feed before it.
  abbrev at_end : Option Text → Bool
  at_end (some []) = true
  at_end (some (c ∷ [])) = c == 10
  at_end _ = false

  -- `_CIDR_RE`
  unfoldable pub is_cidr : Text → Bool
  is_cidr s =
      let first = after 46 (three (some s)) in
      let second = after 46 (three first) in
      let third = after 46 (three second) in at_end (two (after 47 (three third)))

  abbrev pub is_cidr_value : Value → Bool
  is_cidr_value (str s) = is_cidr s
  is_cidr_value _ = false

  abbrev single_key : List Step → Text → Value → List Problem
  single_key place k v =
      if k == txt "host"
      then unless (is_name v) (problem (below place k) bad_text)
      else if k == txt "cidr"
      then unless (is_cidr_value v) (problem (below place k) bad_cidr)
      else if k == txt "defaults"
      then unless (is_true v) (problem (below place k) not_true)
      else problem place not_one_of

  -- `_check_network_perm`
  unfoldable pub check_network_perm : Value → List Step → List Problem
  check_network_perm (obj (field k v end)) place = single_key place k v
  check_network_perm (obj _) place = problem place not_one_of
  check_network_perm _ place = problem place not_mapping

  -- `_hashable`
  abbrev pub hashable : Value → Value
  hashable (arr vs) = str (lib.printed (arr vs))
  hashable (obj fs) = str (lib.printed (obj fs))
  hashable v = v

  -- `==` of values that can be hashed.
  abbrev pub same_value : Value → Value → Bool
  same_value (str s) (str t) = s == t
  same_value (str s) _ = false
  same_value null null = true
  same_value null _ = false
  same_value _ null = false
  same_value _ (str t) = false
  same_value v w = lib.same_number v w

  -- `len(set(map(_hashable, access))) == len(access)`
  unfoldable pub is_unique : List Value → Bool
  is_unique [] = true
  is_unique (v ∷ vs) = not (any (λ w. same_value (hashable v) (hashable w)) vs) && is_unique vs

  unfoldable pub check_access_value : Value → List Step → List Problem
  check_access_value (arr (cons v vs)) place =
      unless (is_unique (v ∷ items vs)) (problem place not_unique)
      ++ check_access_types (v ∷ items vs) place
  check_access_value _ place = problem place bad_access

  unfoldable pub check_access : Option Value → List Step → List Problem
  check_access none place = problem place (missing_key (txt "access"))
  check_access (some v) place = check_access_value v (below place (txt "access"))

  -- `_check_storage_perm`
  unfoldable pub check_storage_perm : Value → List Step → List Problem
  check_storage_perm (obj fs) place =
      unexpected place (txt "uri" ∷ txt "access" ∷ []) fs
      ++ (check_uri (get (txt "uri") fs) place ++ check_access (get (txt "access") fs) place)
  check_storage_perm _ place = problem place not_mapping

-- `for index, item in enumerate(items): item_check(item, ...)`
unfoldable pub check_items :
    (Value → List Step → List Problem) → ℕ → List Value → List Step → List Problem
check_items item_check n [] place = []
check_items item_check n (v ∷ vs) place =
    item_check v (place ++ at_index n ∷ []) ++ check_items item_check (suc n) vs place

-- One list of a permission, where it is given; `null` stands for no list.
unfoldable pub check_entries :
    (Value → List Step → List Problem) → Option Value → List Step → List Problem
check_entries item_check none place = []
check_entries item_check (some null) place = []
check_entries item_check (some (arr vs)) place = check_items item_check 0 (items vs) place
check_entries item_check (some _) place = problem place not_list

-- `_check_list`
unfoldable pub check_list : (Value → List Step → List Problem) → Value → List Step → List Problem
check_list item_check (obj fs) place =
    unexpected place (txt "allow" ∷ txt "deny" ∷ []) fs
    ++ (check_entries item_check (get (txt "allow") fs) (below place (txt "allow"))
        ++ check_entries item_check (get (txt "deny") fs) (below place (txt "deny")))
check_list item_check _ place = problem place not_mapping

-- A permission that is absent is not checked.
abbrev pub if_given : (Value → List Step → List Problem) → Option Value → List Step → List Problem
if_given check none place = []
if_given check (some v) place = check v place

-- `_check_environment`
unfoldable pub check_environment : Value → List Step → List Problem
check_environment (obj fs) place =
    unexpected place (txt "allow" ∷ []) fs
    ++ check_entries (check_env) (get (txt "allow") fs) (below place (txt "allow"))
check_environment _ place = problem place not_mapping

-- A version that matches `^1\.`.
unfoldable pub check_version : Option Value → List Problem
check_version none = problem [] (missing_key (txt "version"))
check_version (some (str s)) =
    unless (starts_with s (txt "1.")) (problem (at_key (txt "version") ∷ []) bad_version)
check_version (some _) = problem (at_key (txt "version") ∷ []) not_text

unfoldable pub check_description : Option Value → List Problem
check_description none = []
check_description (some (str s)) = []
check_description (some _) = problem (at_key (txt "description") ∷ []) not_text

module _ (lib : Builtin) where
  -- `_check_permissions`
  unfoldable pub check_permissions : Value → List Step → List Problem
  check_permissions (obj fs) place =
      unexpected place permission_keys fs
      ++ (if_given (check_list (check_network_perm lib)) (get (txt "network") fs)
            (below place (txt "network"))
          ++ (if_given (check_list (check_storage_perm lib)) (get (txt "storage") fs)
                (below place (txt "storage"))
              ++ if_given check_environment (get (txt "environment") fs)
                  (below place (txt "environment"))))
  check_permissions _ place = problem place not_mapping

  abbrev check_granted : Option Value → List Problem
  check_granted none = problem [] (missing_key (txt "permissions"))
  check_granted (some v) = check_permissions v (at_key (txt "permissions") ∷ [])

  unfoldable pub policy_mcp_base_conforms : Value → List Problem
  policy_mcp_base_conforms (obj fs) =
      unexpected [] root_keys fs
      ++ (check_version (get (txt "version") fs)
          ++ (check_description (get (txt "description") fs)
              ++ check_granted (get (txt "permissions") fs)))
  policy_mcp_base_conforms _ = problem [] not_mapping

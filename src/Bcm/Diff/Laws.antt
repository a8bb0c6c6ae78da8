-- ===== src/Bcm/Diff/Laws.antt =====
-- When an event is within the policy, only within the manifest, or outside the contract.
use mcp_contract.Base.{
  ◌≡◌, ◌≢◌, ◌↔◌, ◌⊎◌, inl, inr, refl, sym, subst, true, List, [], ◌∷◌, some, contains, any, all,
  arith, In, All, contains_iff, Option-cases, Text, txt, text_eq, nat_eq, lower, str, get_or,
  Builtins,
}
use mcp_contract.Models.{
  CapabilityId, net_http, fs_read, fs_write, proc_exec, env, inferred, id_eq, status_eq, class_eq,
  Capability, Policy, find_cap, granted, fs_open, within_policy, within_manifest, outside_contract,
  BehaviorEvent,
}
use mathlib.Core.Option.{some-injective}
use mcp_contract.Bcm.Diff.{
  wildcard, is_read_mode, to_str, event_capability, path_matches, value_matches, grant_admits,
  implies, classify_value, classify_event,
}
use mcp_contract.Bcm.Diff.Hosts.{NamesSome, host_matches_iff}

-- What a list of values of each class covers.
abbrev pub Covers : CapabilityId → Text → List Text → Type 0
Covers net_http v vs = NamesSome v vs
Covers fs_read v vs = path_matches v vs ≡ true
Covers fs_write v vs = path_matches v vs ≡ true
Covers env v vs = In wildcard vs ⊎ In v vs
Covers proc_exec v vs = In v vs

pub value_matches_iff :
    (id : CapabilityId) (v : Text) (vs : List Text)
    → (value_matches id v vs ≡ true) ↔ Covers id v vs
unfolding value_matches
value_matches_iff net_http v vs = host_matches_iff v vs
value_matches_iff fs_read v vs = ground arith
value_matches_iff fs_write v vs = ground arith
value_matches_iff env v vs = ground (arith, contains_iff vs wildcard, contains_iff vs v)
value_matches_iff proc_exec v vs = contains_iff vs v

-- The values of a granted capability admit the observed one: they cover it, or the class is
-- proc.exec and there are none.
abbrev pub CapAdmits : Capability → CapabilityId → Text → Type 0
CapAdmits c id v = ((c.values ≢ []) × Covers id v c.values) ⊎ ((c.values ≡ []) × (id ≡ proc_exec))

-- The capability that the policy grants for the class admits the observed value.
abbrev pub Grants : Policy → CapabilityId → Text → Type 0
Grants policy id v = (c : Capability) × (granted policy id ≡ some c) × CapAdmits c id v

-- One of the capabilities implied by the manifest is of the class, and is of unknown scope or
-- covers the observed value.
abbrev pub Implies : List Capability → CapabilityId → Text → Type 0
Implies [] id v = ⊥
Implies (c ∷ cs) id v =
    ((c.id ≡ id) × ((c.values ≡ []) ⊎ In wildcard c.values ⊎ Covers id v c.values))
    ⊎ Implies cs id v

admits_cap :
    (c : Capability) (id : CapabilityId) (v : Text)
    → (grant_admits id v (some c) ≡ true) ↔ CapAdmits c id v
unfolding grant_admits
admits_cap c id v = ground (arith, value_matches_iff id v c.values)

grant_admits_iff :
    (policy : Policy) (id : CapabilityId) (v : Text)
    → (grant_admits id v (granted policy id) ≡ true) ↔ Grants policy id v
unfolding grant_admits
grant_admits_iff policy id v = elim (Option-cases (granted policy id)) [
  | inl e ↦ rw e (λ h. cc, λ (c, e', _). cc)
  | inr (c, e) ↦ rw e (
    λ h. (c, refl, (admits_cap c id v).0 h),
    λ (c', e', h).
        (admits_cap c id v).1 (subst (λ x. CapAdmits x id v) (sym (some-injective c c' e')) h),
  )
]

any-implies_iff :
    (cs : List Capability) (id : CapabilityId) (v : Text)
    → (any (implies id v) cs ≡ true) ↔ Implies cs id v
unfolding implies
any-implies_iff [] id v = ground arith
any-implies_iff (c ∷ cs) id v = ground (
  arith,
  contains_iff c.values wildcard,
  value_matches_iff id v c.values,
  any-implies_iff cs id v,
)

-- The three classes, exactly: an event that the policy grants is within the policy; one that it
-- does not grant and the manifest implies is within the manifest; every other is outside.
pub classify_value_iff :
    (id : CapabilityId) (v : Text) (policy : Policy) (cs : List Capability)
    → ((classify_value id v policy cs ≡ within_policy) ↔ Grants policy id v)
      × ((classify_value id v policy cs ≡ within_manifest)
          ↔ (¬ (Grants policy id v) × Implies cs id v))
      × ((classify_value id v policy cs ≡ outside_contract)
          ↔ (¬ (Grants policy id v) × ¬ (Implies cs id v)))
unfolding classify_value
classify_value_iff id v policy cs =
    ground (arith, grant_admits_iff policy id v, any-implies_iff cs id v)

find_cap_found :
    (caps : List Capability) (id : CapabilityId) {c : Capability}
    → find_cap caps id ≡ some c
    → In c caps × (c.id ≡ id)
unfolding find_cap
find_cap_found [] id h = cc
find_cap_found (d ∷ caps) id {c} h = ground (arith, find_cap_found caps id {c = c})

granted_found :
    (policy : Policy) (id : CapabilityId) {c : Capability}
    → granted policy id ≡ some c
    → In c policy.caps × (c.id ≡ id) × (c.status ≡ inferred)
unfolding granted
granted_found policy id {c} h = elim (Option-cases (find_cap policy.caps id)) [
  | inl e ↦ cc
  | inr (d, e) ↦ ground (arith, find_cap_found policy.caps id e)
]

-- An event that exercises a capability and is classified within the policy is backed by a
-- capability of the policy of that class, with status inferred, that admits the observed value:
-- needs_review and denied capabilities never let an event pass.
pub within_policy_backed :
    (py : Builtins) (e : BehaviorEvent) (policy : Policy) (cs : List Capability) (id : CapabilityId)
    (v : Text)
    → event_capability py e ≡ some (id, v)
    → classify_event py e policy cs ≡ within_policy
    → (c : Capability) × In c policy.caps × (c.id ≡ id) × (c.status ≡ inferred) × CapAdmits c id v
unfolding classify_event
within_policy_backed py e policy cs id v mapped h =
    let (c, known, admits) =
      (classify_value_iff id v policy cs).0.0 (rw (mapped, classify_event) at h) in
    let (listed, same, status) = granted_found policy id known in (c, listed, same, status, admits)

-- The mode has an "r", and no character but "r", "b" and "t".
abbrev pub IsReadMode : Text → Type 0
IsReadMode mode = In b'r' mode × All (λ c. In c (b'r' ∷ b'b' ∷ b't' ∷ [])) mode

all_read_iff :
    (mode : Text)
    → (all (λ c. contains (b'r' ∷ b'b' ∷ b't' ∷ []) c) mode ≡ true)
      ↔ All (λ c. In c (b'r' ∷ b'b' ∷ b't' ∷ [])) mode
all_read_iff [] = ground arith
all_read_iff (c ∷ mode) =
    ground (arith, contains_iff (b'r' ∷ b'b' ∷ b't' ∷ []) c, all_read_iff mode)

is_read_mode_iff : (mode : Text) → (is_read_mode mode ≡ true) ↔ IsReadMode mode
unfolding is_read_mode
is_read_mode_iff mode = ground (arith, contains_iff mode b'r', all_read_iff mode)

-- An fs.open event counts as a read exactly when its mode, in lower case, has an "r" and no
-- character but "r", "b" and "t"; every other mode counts as a write.
pub fs_open_iff :
    (py : Builtins) (e : BehaviorEvent) (path : Text)
    → e.kind ≡ fs_open
    → get_or (txt "path") (str []) e.detail ≡ str path
    → let mode = lower (to_str py (get_or (txt "mode") (str (txt "r")) e.detail)) in
      ((event_capability py e ≡ some (fs_read, path)) ↔ IsReadMode mode)
      × ((event_capability py e ≡ some (fs_write, path)) ↔ ¬ (IsReadMode mode))
unfolding event_capability
fs_open_iff py e path kind at =
    rw (kind, event_capability, at)
      (ground (
        arith,
        is_read_mode_iff (lower (to_str py (get_or (txt "mode") (str (txt "r")) e.detail))),
      ))

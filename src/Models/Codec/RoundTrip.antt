-- ===== src/Models/Codec/RoundTrip.antt =====
-- Writing a capability or an event and reading it back.

use mcp_contract.Base.{
  inl, inr, ◌⊎◌, ◌≡◌, refl, List, [], ◌∷◌, map, Option, none, some, Text, txt, text_eq, Value, null,
  str, obj, Fields, end, dict, get_or, items-list, ok, traverse-map, dict_of, Builtins,
}
use mcp_contract.Models.{
  CapabilityId, net_http, fs_read, fs_write, proc_exec, env, CapabilityStatus, inferred,
  needs_review, denied, Evidence, Capability, EventKind, net_connect, fs_open, proc_spawn, env_read,
  mcp_call, syscall, EventClass, within_policy, within_manifest, outside_contract, BehaviorEvent,
}
use mcp_contract.Models.Codec.{
  id_value, status_value, kind_value, class_value, member, id_of, status_of, kind_of,
  evidence_to_dict, capability_to_dict, event_to_dict, evidence_from_dict, capability_from_dict,
  event_from_dict, to_str, class_from, class_text, unless_none, when_some,
}

id_of-id_value : (c : CapabilityId) → id_of (str (id_value c)) ≡ ok c
unfolding member text_eq
id_of-id_value net_http = refl
id_of-id_value fs_read = refl
id_of-id_value fs_write = refl
id_of-id_value proc_exec = refl
id_of-id_value env = refl

status_of-status_value : (s : CapabilityStatus) → status_of (str (status_value s)) ≡ ok s
unfolding member text_eq
status_of-status_value inferred = refl
status_of-status_value needs_review = refl
status_of-status_value denied = refl

kind_of-kind_value : (k : EventKind) → kind_of (str (kind_value k)) ≡ ok k
unfolding member text_eq
kind_of-kind_value net_connect = refl
kind_of-kind_value fs_open = refl
kind_of-kind_value proc_spawn = refl
kind_of-kind_value env_read = refl
kind_of-kind_value mcp_call = refl
kind_of-kind_value syscall = refl

abbrev pub fields_of : Value → Fields
fields_of (obj d) = d
fields_of v = end

module _ (py : Builtins) where
  evidence_from_dict-evidence_to_dict :
      (e : Evidence) → evidence_from_dict py (evidence_to_dict e) ≡ ok e
  unfolding evidence_from_dict evidence_to_dict text_eq
  evidence_from_dict-evidence_to_dict e = refl

  map-to_str : (vs : List Text) → map (to_str py) (map str vs) ≡ vs
  map-to_str [] = refl
  map-to_str (v ∷ vs) = rw (map-to_str vs)

  -- A capability that is written by `to_dict` is read back by `from_dict` as it was.
  pub capability_from_dict-capability_to_dict :
      (c : Capability) → capability_from_dict py (fields_of (capability_to_dict c)) ≡ ok c
  unfolding capability_from_dict capability_to_dict text_eq
  capability_from_dict-capability_to_dict c = rw (
    items-list,
    id_of-id_value,
    status_of-status_value,
    items-list,
    map-to_str,
    traverse-map (evidence_from_dict py) evidence_to_dict c.evidence
        evidence_from_dict-evidence_to_dict,
  )

  class_from-class_value : (c : EventClass) → class_from py (str (class_value c)) ≡ ok (some c)
  unfolding member text_eq
  class_from-class_value within_policy = refl
  class_from-class_value within_manifest = refl
  class_from-class_value outside_contract = refl

  class_from-class_text :
      (o : Option EventClass)
      → class_from py (elim (class_text o) [ none ↦ null | some t ↦ str t ]) ≡ ok o
  class_from-class_text none = refl
  class_from-class_text (some c) = class_from-class_value c

  null_cases :
      (v : Value)
      → (v ≡ null) ⊎ ((k : Text) (es : List (Text × Value)) → unless_none v k es ≡ (k, v) ∷ es)
  null_cases null = inl refl
  null_cases _ = inr (λ k es. refl)

  abbrev optional : Value → Option EventClass → Value → Fields
  optional t o b = dict (
      unless_none t (txt "tool_ctx")
        (when_some (class_text o) (txt "classification") (unless_none b (txt "backend") [])))

  abbrev Reads : Value → Option EventClass → Value → Type 0
  Reads t o b =
      (get_or (txt "tool_ctx") null (optional t o b) ≡ t)
      × (get_or (txt "classification") null (optional t o b)
          ≡ elim (class_text o) [ none ↦ null | some t ↦ str t ])
      × (get_or (txt "backend") null (optional t o b) ≡ b)

  -- The optional keys are read back, present or not.
  optional-Reads : (t : Value) (o : Option EventClass) (b : Value) → Reads t o b
  unfolding text_eq
  optional-Reads t none b = elim (null_cases t) [
    | inl e ↦ elim (null_cases b) [
      | inl f ↦ rw (e, f) (refl, refl, refl)
      | inr f ↦ rw (e, f) (refl, refl, refl)
    ]
    | inr e ↦ elim (null_cases b) [
      | inl f ↦ rw (e, f) (refl, refl, refl)
      | inr f ↦ rw (e, f) (refl, refl, refl)
    ]
  ]
  optional-Reads t (some c) b = elim (null_cases t) [
    | inl e ↦ elim (null_cases b) [
      | inl f ↦ rw (e, f) (refl, refl, refl)
      | inr f ↦ rw (e, f) (refl, refl, refl)
    ]
    | inr e ↦ elim (null_cases b) [
      | inl f ↦ rw (e, f) (refl, refl, refl)
      | inr f ↦ rw (e, f) (refl, refl, refl)
    ]
  ]

  -- An event too, its classification, tool context and backend included.
  pub event_from_dict-event_to_dict :
      (e : BehaviorEvent) → event_from_dict py (fields_of (event_to_dict e)) ≡ ok e
  unfolding event_from_dict event_to_dict text_eq dict_of
  event_from_dict-event_to_dict e =
      let (ctx, cls, back) = optional-Reads e.tool_ctx e.classification e.backend in
      rw (py.to_float-float e.ts, kind_of-kind_value e.kind, ctx, cls, back, class_from-class_text)

-- ===== src/Bcm/Diff.antt =====
-- src/mcp_contract/bcm/diff.py: which capability an event exercises, and its three-way
-- classification against a policy and the capabilities that the manifest implies.
pub mod Hosts
pub mod Paths
pub mod Laws
use mcp_contract.Base.{
  or_value, ℕ, zero, suc, ◌+◌, ◌-◌, ◌<◌, ◌≤◌, ◌≡◌, ◌≢◌, ◌↔◌, ◌⊎◌, inl, inr, refl, sym, ap, ◌∙◌,
  Bool, true, false, not, ◌&&◌, ◌||◌, List, [], ◌∷◌, ◌++◌, map, reverse, append-nil, append_assoc,
  Option, none, some, Eq, ◌==◌, contains, if◌then◌else◌, length, take, is_empty, tail, keep, any,
  all, leb, nat_beq, arith, In, In-append, Distinct, All, All-append, All-at, contains_iff, eq_refl,
  Bool-cases, Option-cases, is_some, Text, txt, text_eq, nat_eq, lower, lower_code, starts_with,
  ends_with, split, split_from, join, starts_with_iff, ends_with_iff, Value, null, bool, int, float,
  str, arr, obj, Items, nil, cons, Fields, end, field, dict, list, items, keys, get, get_or, has,
  put, put_default, truthy, to_text, items-list, get-put, Result, ok, err, Exception, value_error,
  key_error, type_error, attribute_error, os_error, ◌>>=◌, Result-cases, traverse, traverse-map,
  item, iterate, dict_of, Builtins,
}
use mcp_contract.Models.{
  CapabilityId, net_http, fs_read, fs_write, proc_exec, env, CapabilityStatus, inferred,
  needs_review, denied, all_ids, id_eq, status_eq, class_eq, Evidence, Capability, ToolIr, Manifest,
  Policy, generator, find_cap, cap, if_inferred, granted, EventKind, net_connect, fs_open,
  proc_spawn, env_read, mcp_call, syscall, EventClass, within_policy, within_manifest,
  outside_contract, BehaviorEvent, Mode, observe, alert, enforce, Severity, info, warning, critical,
  ViolationReport,
}
use mcp_contract.Posix.{normpath, basename, first_word}

-- `"r" in mode and set(mode) <= {"r", "b", "t"}`
unfoldable pub is_read_mode : Text → Bool
is_read_mode mode = contains mode b'r' && all (λ c. contains (b'r' ∷ b'b' ∷ b't' ∷ []) c) mode

abbrev first_arg : (Value → Text) → Value → Fields → Text
first_arg to_str (arr (cons v vs)) d = to_str v
first_arg to_str argv d = first_word (to_str (get_or (txt "cmd") (str []) d))

module _ (py : Builtins) where
  abbrev to_str : Value → Text
  to_str = to_text py.show

  unfoldable pub event_capability : BehaviorEvent → Option (CapabilityId × Text)
  event_capability e = elim e.kind [
    | net_connect ↦ some (
      net_http,
      to_str (
          or_value (get_or (txt "host") null e.detail)
            (or_value (get_or (txt "ip") null e.detail) (str []))),
    )
    | fs_open ↦
        let mode = lower (to_str (get_or (txt "mode") (str (txt "r")) e.detail)) in
        some (
          if is_read_mode mode then fs_read else fs_write,
          to_str (get_or (txt "path") (str []) e.detail),
        )
    | proc_spawn ↦
        some (proc_exec, basename (first_arg to_str (get_or (txt "argv") null e.detail) e.detail))
    | env_read ↦ some (env, to_str (get_or (txt "var") (str []) e.detail))
    | mcp_call ↦ none
    | syscall ↦ none
  ]

abbrev pub wildcard : Text
wildcard = txt "*"

-- One round of `host_matches`, both sides in lower case. `p[1:]` of "*.github.com" is ".github.com".
unfoldable pub host_matches_one : Text → Text → Bool
host_matches_one h p =
    if p == wildcard
    then true
    else if starts_with p (txt "*.")
    then (let suffix = tail p in leb (suc (length suffix)) (length h) && ends_with h suffix)
    else h == p

unfoldable pub host_matches : Text → List Text → Bool
host_matches host patterns = any (λ pattern. host_matches_one (lower host) (lower pattern)) patterns

-- One round of `path_matches`, both sides normalized.
unfoldable pub path_matches_one : Text → Text → Bool
path_matches_one npath npfx =
    if npath == npfx
    then true
    else if npfx == txt "/"
    then starts_with npath (txt "/")
    else starts_with npath (npfx ++ txt "/")

unfoldable pub path_matches : Text → List Text → Bool
path_matches path prefixes =
    any (λ prefix. path_matches_one (normpath path) (normpath prefix)) prefixes

-- `_value_matches`
unfoldable pub value_matches : CapabilityId → Text → List Text → Bool
value_matches net_http value values = host_matches value values
value_matches fs_read value values = path_matches value values
value_matches fs_write value values = path_matches value values
value_matches env value values = contains values wildcard || contains values value
value_matches proc_exec value values = contains values value

-- Whether the granted capability of the class admits the value: an empty list of values grants
-- nothing, but for proc.exec.
unfoldable pub grant_admits : CapabilityId → Text → Option Capability → Bool
grant_admits cap_id value none = false
grant_admits cap_id value (some c) =
    if is_empty c.values then cap_id == proc_exec else value_matches cap_id value c.values

-- One round of the loop over the capabilities that the manifest implies.
unfoldable pub implies : CapabilityId → Text → Capability → Bool
implies cap_id value c =
    c.id == cap_id
    && (is_empty c.values || contains c.values wildcard || value_matches cap_id value c.values)

unfoldable pub classify_value : CapabilityId → Text → Policy → List Capability → EventClass
classify_value cap_id value policy manifest_caps =
    if grant_admits cap_id value (granted policy cap_id)
    then within_policy
    else if any (implies cap_id value) manifest_caps
    then within_manifest
    else outside_contract

unfoldable pub classify_event : Builtins → BehaviorEvent → Policy → List Capability → EventClass
classify_event py e policy manifest_caps = elim (event_capability py e) [
  | none ↦ within_policy
  | some (cap_id, value) ↦ classify_value cap_id value policy manifest_caps
]

-- The tool that an `mcp.call` event names, if it names one.
abbrev called_tool : EventKind → Value → Option Text
called_tool mcp_call (str (c ∷ s)) = some (c ∷ s)
called_tool _ v = none

abbrev stamp : Value → Option Text → Value
stamp null (some t) = str t
stamp v current = v

-- `track_tool_ctx`: the event with its tool context stamped on, and the current context.
unfoldable pub track_tool_ctx : BehaviorEvent → Option Text → BehaviorEvent × Option Text
track_tool_ctx e current =
    let called = called_tool e.kind (get_or (txt "tool") null e.detail) in
    let current' : Option Text = elim called [ some t ↦ some t | none ↦ current ] in
    (record e { tool_ctx = stamp e.tool_ctx current' }, current')

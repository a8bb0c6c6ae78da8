-- ===== src/Models/Codec.antt =====
-- src/mcp_contract/models.py: `to_dict` and `from_dict`.
pub mod RoundTrip
pub mod Errors
use mcp_contract.Base.{
  ℕ, ◌≡◌, refl, Bool, true, false, List, [], ◌∷◌, map, Option, none, some, Eq, ◌==◌, if◌then◌else◌,
  Text, txt, text_eq, Value, null, float, str, arr, obj, Fields, end, dict, list, items, get,
  get_or, truthy, to_text, items-list, Result, ok, err, value_error, key_error, type_error,
  attribute_error, ◌>>=◌, traverse, traverse-map, item, iterate, dict_of, Builtins, arith, ◌++◌,
}
use mcp_contract.Models.{
  CapabilityId, net_http, fs_read, fs_write, proc_exec, env, CapabilityStatus, inferred,
  needs_review, denied, Evidence, Capability, EventKind, net_connect, fs_open, proc_spawn, env_read,
  mcp_call, syscall, EventClass, within_policy, within_manifest, outside_contract, BehaviorEvent,
  Mode, observe, alert, enforce,
}

abbrev pub id_value : CapabilityId → Text
id_value net_http = txt "net.http"
id_value fs_read = txt "fs.read"
id_value fs_write = txt "fs.write"
id_value proc_exec = txt "proc.exec"
id_value env = txt "env"

abbrev pub status_value : CapabilityStatus → Text
status_value inferred = txt "inferred"
status_value needs_review = txt "needs_review"
status_value denied = txt "denied"

abbrev pub kind_value : EventKind → Text
kind_value net_connect = txt "net.connect"
kind_value fs_open = txt "fs.open"
kind_value proc_spawn = txt "proc.spawn"
kind_value env_read = txt "env.read"
kind_value mcp_call = txt "mcp.call"
kind_value syscall = txt "syscall"

abbrev pub class_value : EventClass → Text
class_value within_policy = txt "within_policy"
class_value within_manifest = txt "within_manifest_not_policy"
class_value outside_contract = txt "outside_contract"

abbrev pub mode_value : Mode → Text
mode_value observe = txt "observe"
mode_value alert = txt "alert"
mode_value enforce = txt "enforce"

-- `Enum(v)`: the member with the value `v`.
find_member : {E : Type 0} → (E → Text) → List E → Text → Result E
find_member value [] s = err value_error
find_member value (m ∷ ms) s = if value m == s then ok m else find_member value ms s

unfoldable pub member : {E : Type 0} → (E → Text) → List E → Value → Result E
unfolding find_member
member value ms (str s) = find_member value ms s
member value ms v = err value_error

abbrev pub id_of : Value → Result CapabilityId
id_of = member id_value (net_http ∷ fs_read ∷ fs_write ∷ proc_exec ∷ env ∷ [])

abbrev pub status_of : Value → Result CapabilityStatus
status_of = member status_value (inferred ∷ needs_review ∷ denied ∷ [])

abbrev pub all_kinds : List EventKind
all_kinds = net_connect ∷ fs_open ∷ proc_spawn ∷ env_read ∷ mcp_call ∷ syscall ∷ []

abbrev pub kind_of : Value → Result EventKind
kind_of = member kind_value all_kinds

abbrev pub class_of : Value → Result EventClass
class_of = member class_value (within_policy ∷ within_manifest ∷ outside_contract ∷ [])

unfoldable pub evidence_to_dict : Evidence → Value
evidence_to_dict e = obj (
    dict
      ((txt "tool", str e.tool) ∷ (txt "source", str e.source) ∷ (txt "detail", str e.detail) ∷ []))

unfoldable pub capability_to_dict : Capability → Value
capability_to_dict c = obj (
    dict (
      (txt "id", str (id_value c.id))
      ∷ (txt "status", str (status_value c.status))
      ∷ (txt "values", arr (list (map str c.values)))
      ∷ (txt "evidence", arr (list (map evidence_to_dict c.evidence)))
      ∷ []))

abbrev pub when_some : Option Text → Text → List (Text × Value) → List (Text × Value)
when_some none k es = es
when_some (some t) k es = (k, str t) ∷ es

abbrev pub unless_none : Value → Text → List (Text × Value) → List (Text × Value)
unless_none null k es = es
unless_none v k es = (k, v) ∷ es

abbrev pub class_text : Option EventClass → Option Text
class_text none = none
class_text (some c) = some (class_value c)

unfoldable pub event_to_dict : BehaviorEvent → Value
event_to_dict e = obj (
    dict (
      (txt "ts", float e.ts)
      ∷ (txt "kind", str (kind_value e.kind))
      ∷ (txt "detail", obj e.detail)
      ∷ unless_none e.tool_ctx (txt "tool_ctx") (
          when_some (class_text e.classification) (txt "classification")
            (unless_none e.backend (txt "backend") []))))

module _ (py : Builtins) where
  abbrev pub to_str : Value → Text
  to_str = to_text py.show

  -- `Evidence.from_dict`; what is not a mapping has no `get`.
  unfoldable pub evidence_from_dict : Value → Result Evidence
  evidence_from_dict (obj d) = ok (record {
    tool = to_str (get_or (txt "tool") (str []) d);
    source = to_str (get_or (txt "source") (str []) d);
    detail = to_str (get_or (txt "detail") (str []) d);
  })
  evidence_from_dict v = err attribute_error

  abbrev pub list_values : Value → Result (List Value)
  list_values (arr vs) = ok (items vs)
  list_values v = err value_error

  unfoldable pub capability_from_dict : Fields → Result Capability
  capability_from_dict d = do
    vals ← list_values (get_or (txt "values") (arr (list [])) d)
    raw_id ← item (get (txt "id") d)
    id ← id_of raw_id
    raw_status ← item (get (txt "status") d)
    status ← status_of raw_status
    traces ← iterate (get_or (txt "evidence") (arr (list [])) d)
    evidence ← traverse evidence_from_dict traces
    ok (record { id = id; status = status; values = map to_str vals; evidence = evidence })

  abbrev pub class_from : Value → Result (Option EventClass)
  class_from v = if truthy v then (do c ← class_of v; ok (some c)) else ok none

  unfoldable pub event_from_dict : Fields → Result BehaviorEvent
  event_from_dict d = do
    ts ← py.to_float (get_or (txt "ts") (float 0) d)
    raw_kind ← item (get (txt "kind") d)
    kind ← kind_of raw_kind
    detail ← dict_of (get_or (txt "detail") (obj end) d)
    classification ← class_from (get_or (txt "classification") null d)
    ok (record {
      ts = ts;
      kind = kind;
      detail = detail;
      tool_ctx = get_or (txt "tool_ctx") null d;
      classification = classification;
      backend = get_or (txt "backend") null d;
    })

-- ===== src/Models.antt =====
-- src/mcp_contract/models.py: the enumerations and the dataclasses that every part shares.
pub mod Codec
pub mod Hash
pub mod Report
use mcp_contract.Base.{
  ℕ, Text, txt, Value, Fields, Bool, true, false, List, [], ◌∷◌, Option, none, some, Eq, ◌==◌,
  if◌then◌else◌,
}

pub data CapabilityId : Type 0 where
  net_http fs_read fs_write proc_exec env : CapabilityId

pub data CapabilityStatus : Type 0 where
  inferred needs_review denied : CapabilityStatus

CapabilityId-discrete : Discrete CapabilityId
CapabilityId-discrete = hlevel

CapabilityStatus-discrete : Discrete CapabilityStatus
CapabilityStatus-discrete = hlevel

instance unfoldable pub id_eq : Eq CapabilityId
unfolding CapabilityId-discrete
id_eq = record { dec = CapabilityId-discrete }

instance unfoldable pub status_eq : Eq CapabilityStatus
unfolding CapabilityStatus-discrete
status_eq = record { dec = CapabilityStatus-discrete }

-- `for cap_id in CapabilityId`
abbrev pub all_ids : List CapabilityId
all_ids = net_http ∷ fs_read ∷ fs_write ∷ proc_exec ∷ env ∷ []

pub record Evidence : Type 0 where
  pub tool : Text
  pub source : Text
  pub detail : Text

pub record Capability : Type 0 where
  pub id : CapabilityId
  pub status : CapabilityStatus
  pub values : List Text
  pub evidence : List Evidence

pub record ToolIr : Type 0 where
  pub name : Text
  pub description : Text
  pub input_schema : Fields
  pub raw : Fields

pub record Manifest : Type 0 where
  pub server_name : Text
  pub tools : List ToolIr
  pub raw : Fields

pub record Policy : Type 0 where
  pub server_id : Text
  pub manifest_hash : Text
  pub caps : List Capability
  pub backend_hint : Value
  pub generated_by : Text

abbrev pub generator : Text
generator = txt "mcp-contract/0.1"

-- `Policy.cap`: the first capability of the class.
unfoldable pub find_cap : List Capability → CapabilityId → Option Capability
find_cap [] cap_id = none
find_cap (c ∷ caps) cap_id = if c.id == cap_id then some c else find_cap caps cap_id

abbrev pub cap : Policy → CapabilityId → Option Capability
cap p cap_id = find_cap p.caps cap_id

-- The capability if it is actually granted.
abbrev pub if_inferred : Option Capability → Option Capability
if_inferred none = none
if_inferred (some c) = if c.status == inferred then some c else none

unfoldable pub granted : Policy → CapabilityId → Option Capability
granted p cap_id = if_inferred (cap p cap_id)

pub data EventKind : Type 0 where
  net_connect fs_open proc_spawn env_read mcp_call syscall : EventKind

pub data EventClass : Type 0 where
  within_policy within_manifest outside_contract : EventClass

EventClass-discrete : Discrete EventClass
EventClass-discrete = hlevel

instance unfoldable pub class_eq : Eq EventClass
unfolding EventClass-discrete
class_eq = record { dec = EventClass-discrete }

-- `ts` is the 64-bit pattern of a float; `tool_ctx` and `backend` hold whatever was read for them.
pub record BehaviorEvent : Type 0 where
  pub ts : ℕ
  pub kind : EventKind
  pub detail : Fields
  pub tool_ctx : Value
  pub classification : Option EventClass
  pub backend : Value

pub data Mode : Type 0 where
  observe alert enforce : Mode

pub data Severity : Type 0 where
  info warning critical : Severity

pub record ViolationReport : Type 0 where
  pub server_id : Text
  pub manifest_hash : Text
  pub mode : Mode
  pub events : List BehaviorEvent

-- ===== src/Models/Report.antt =====
-- src/mcp_contract/models.py: what a `ViolationReport` says of its events.
pub mod Laws
use mcp_contract.Base.{
  ℕ, zero, suc, ◌+◌, ◌<◌, ◌≤◌, ◌≡◌, ◌≢◌, ◌↔◌, refl, Bool, true, false, List, [], ◌∷◌, Option, none,
  some, Eq, ◌==◌, if◌then◌else◌, length, keep, leb, arith, In, inl, inr, All,
}
use mcp_contract.Models.{
  EventClass, within_policy, within_manifest, outside_contract, class_eq, BehaviorEvent, Severity,
  info, warning, critical, ViolationReport,
}

-- `ViolationReport.counts`: a counter for each class, and one for the events that have none.
pub record Counts : Type 0 where
  pub policy : ℕ
  pub manifest : ℕ
  pub outside : ℕ
  pub unclassified : ℕ

abbrev pub count_one : Option EventClass → Counts → Counts
count_one (some within_policy) n = record n { policy = n.policy + 1 }
count_one (some within_manifest) n = record n { manifest = n.manifest + 1 }
count_one (some outside_contract) n = record n { outside = n.outside + 1 }
count_one none n = record n { unclassified = n.unclassified + 1 }

pub count_from : Counts → List BehaviorEvent → Counts
count_from n [] = n
count_from n (e ∷ es) = count_from (count_one e.classification n) es

unfoldable pub counts : ViolationReport → Counts
unfolding count_from
counts r = count_from (record { policy = 0; manifest = 0; outside = 0; unclassified = 0 }) r.events

abbrev pub is_outside : BehaviorEvent → Bool
is_outside e = elim e.classification [ some c ↦ c == outside_contract | none ↦ false ]

unfoldable pub violations : ViolationReport → List BehaviorEvent
violations r = keep is_outside r.events

unfoldable pub severity : ViolationReport → Severity
severity r =
    let n = counts r in
    if leb 1 n.outside then critical else if leb 1 n.manifest then warning else info

-- `ViolationReport.suggested_action`, by its three texts.
pub data Action : Type 0 where
  quarantine review_and_widen no_action : Action

unfoldable pub suggested_action : ViolationReport → Action
suggested_action r = elim (severity r) [
  | critical ↦ quarantine
  | warning ↦ review_and_widen
  | info ↦ no_action
]

-- ===== src/Models/Report/Laws.antt =====
-- The counters of a report agree with its events, and the severity with its violations.
use mcp_contract.Base.{ℕ, ◌+◌, ◌<◌, ◌≡◌, ◌↔◌, List, [], ◌∷◌, some, length, keep, arith, ◌⊎◌}
use mcp_contract.Models.{
  EventClass, within_manifest, outside_contract, class_eq, BehaviorEvent, ViolationReport,
}
use mcp_contract.Models.Report.{
  Counts, count_one, count_from, counts, is_outside, violations, severity, suggested_action,
  quarantine, review_and_widen, no_action,
}

abbrev pub total : Counts → ℕ
total n = n.policy + n.manifest + n.outside + n.unclassified

count_from-lem :
    (n : Counts) (es : List BehaviorEvent)
    → (total (count_from n es) ≡ total n + length es)
      × ((count_from n es).outside ≡ n.outside + length (keep is_outside es))
unfolding count_from class_eq
count_from-lem n [] = omega arith
count_from-lem n (e ∷ es) = ground (arith, count_from-lem (count_one e.classification n) es)

-- Every event of a report is counted exactly once, and the counter of the violations is their
-- number.
pub counts-total :
    (r : ViolationReport)
    → (total (counts r) ≡ length r.events) × ((counts r).outside ≡ length (violations r))
unfolding counts violations
counts-total r = ground (
  arith,
  count_from-lem (record { policy = 0; manifest = 0; outside = 0; unclassified = 0 }) r.events,
)

-- Some event of the list has the class.
abbrev pub Occurs : EventClass → List BehaviorEvent → Type 0
Occurs c [] = ⊥
Occurs c (e ∷ es) = (e.classification ≡ some c) ⊎ Occurs c es

count_from-outside :
    (n : Counts) (es : List BehaviorEvent)
    → (0 < (count_from n es).outside) ↔ ((0 < n.outside) ⊎ Occurs outside_contract es)
unfolding count_from
count_from-outside n [] = ground arith
count_from-outside n (e ∷ es) = ground (arith, count_from-outside (count_one e.classification n) es)

count_from-manifest :
    (n : Counts) (es : List BehaviorEvent)
    → (0 < (count_from n es).manifest) ↔ ((0 < n.manifest) ⊎ Occurs within_manifest es)
unfolding count_from
count_from-manifest n [] = ground arith
count_from-manifest n (e ∷ es) =
    ground (arith, count_from-manifest (count_one e.classification n) es)

-- The severity and the suggested action are decided by which classes occur: a violation makes
-- the report critical, else an event that only the manifest implies makes it a warning, and a
-- report with neither calls for no action.
pub suggested_action_iff :
    (r : ViolationReport)
    → ((suggested_action r ≡ quarantine) ↔ Occurs outside_contract r.events)
      × ((suggested_action r ≡ review_and_widen)
          ↔ (¬ (Occurs outside_contract r.events) × Occurs within_manifest r.events))
      × ((suggested_action r ≡ no_action)
          ↔ (¬ (Occurs outside_contract r.events) × ¬ (Occurs within_manifest r.events)))
unfolding suggested_action severity counts
suggested_action_iff r =
    let zeros : Counts = record { policy = 0; manifest = 0; outside = 0; unclassified = 0 } in
    ground (arith, count_from-outside zeros r.events, count_from-manifest zeros r.events)

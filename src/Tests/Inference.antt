-- ===== src/Tests/Inference.antt =====
-- Inference: runs, and the theorems at concrete inputs.
use mcp_contract.Base.{
  ◌≡◌, ◌≢◌, ◌↔◌, ◌⊎◌, refl, [], ◌∷◌, map, none, some, In, Distinct, All, txt, text_eq, nat_eq,
}
use mcp_contract.Models.{
  CapabilityId, net_http, fs_read, proc_exec, inferred, needs_review, all_ids, id_eq, status_eq,
  class_eq, Capability, cap, granted,
}
use mcp_contract.Pie.Infer.{star, merge_class_signals, rule_signals, infer_policy}
use mcp_contract.Pie.Infer.Merge.{Offered, SomeUnknown, In-merge_class_signals}
use mcp_contract.Pie.Infer.Laws.{
  last_override, overridden, by_rules, cap-infer_policy, granted-infer_policy_iff,
}
use mcp_contract.Tests.Fixtures.{
  inference, manifest, classifier, suggester, digest, github, writing, capability,
}

abbrev any_host : Capability
any_host = capability net_http needs_review (txt "api.example.com" ∷ txt "*" ∷ [])

merged_test :
    (merge_class_signals net_http (github ∷ any_host ∷ [])).values
    ≡ txt "*.github.com" ∷ txt "api.example.com" ∷ txt "*" ∷ []
unfolding inference
merged_test = refl

In-merge_class_signals_example :
    (In star (merge_class_signals net_http (github ∷ any_host ∷ [])).values ↔ (
      (Offered star (github ∷ any_host ∷ []) × (star ≢ star))
      ⊎ ((star ≡ star) × (net_http ≡ net_http) × SomeUnknown net_http (github ∷ any_host ∷ []))))
    × Distinct (merge_class_signals net_http (github ∷ any_host ∷ [])).values
In-merge_class_signals_example = In-merge_class_signals net_http (github ∷ any_host ∷ []) star

cap-infer_policy_example :
    let p = infer_policy classifier digest manifest none (writing ∷ []) (some suggester) in
    (map (λ c. c.id) p.caps ≡ all_ids)
    × ((id : CapabilityId)
        → cap p id
          ≡ some (
              overridden
                (last_override id (writing ∷ []))
                (by_rules classifier digest manifest none (some suggester) id)))
cap-infer_policy_example =
    cap-infer_policy classifier digest manifest none (writing ∷ []) (some suggester)

granted-infer_policy_iff_example :
    (granted (infer_policy classifier digest manifest none [] (some suggester)) fs_read ≢ none) ↔ (
      (fs_read ≢ proc_exec)
      × (rule_signals classifier manifest.tools fs_read ≢ [])
      × All (λ s. s.status ≡ inferred) (rule_signals classifier manifest.tools fs_read))
granted-infer_policy_iff_example =
    granted-infer_policy_iff classifier digest manifest none [] (some suggester) fs_read refl

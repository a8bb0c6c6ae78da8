-- ===== src/Tests/Exports.antt =====
-- The SARIF log: a run, and its law at a concrete input.
use mcp_contract.Base.{
  ℕ, ◌≡◌, refl, true, [], ◌∷◌, map, some, Text, txt, text_eq, nat_eq, str, end, field,
}
use mcp_contract.Models.{
  id_eq, status_eq, class_eq, net_connect, EventClass, within_policy, within_manifest,
  outside_contract, BehaviorEvent, observe, ViolationReport,
}
use mcp_contract.Export.{Sarif, find_index, add_events, add_reports, to_sarif}
use mcp_contract.Export.Laws.{Sound, all_entries, to_sarif-Sound}
use mcp_contract.Tests.Fixtures.{plain, event}

abbrev seen_as : EventClass → Text → BehaviorEvent
seen_as c host = record (event net_connect (field (txt "host") (str host) end)) {
  classification = some c;
}

abbrev found_report : ViolationReport
found_report = record {
  server_id = txt "s";
  manifest_hash = txt "h";
  mode = observe;
  events =
      seen_as outside_contract (txt "a")
      ∷ seen_as within_policy (txt "b")
      ∷ seen_as within_manifest (txt "c")
      ∷ seen_as outside_contract (txt "d")
      ∷ [];
}

abbrev log : ℕ → Sarif
log most = to_sarif plain (λ t. t) true most (found_report ∷ [])

rules_test : map (λ r. r.rule_idx) (log 3).results ≡ 0 ∷ 1 ∷ 0 ∷ []
unfolding to_sarif add_reports add_events find_index text_eq nat_eq
rules_test = refl

truncated_test : (log 2).truncated ≡ 1
unfolding to_sarif add_reports add_events find_index text_eq nat_eq
truncated_test = refl

to_sarif-Sound_example :
    Sound plain (λ t. t) true 2 (log 2) (all_entries plain (λ t. t) true (found_report ∷ []))
to_sarif-Sound_example = to_sarif-Sound plain (λ t. t) true 2 (found_report ∷ [])

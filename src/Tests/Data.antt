-- ===== src/Tests/Data.antt =====
-- The shared model: runs, and the theorems at concrete inputs.
use mcp_contract.Base.{◌≡◌, [], ◌∷◌, some, txt, text_eq, nat_eq, str, ok}
use mcp_contract.Models.{
  id_eq, status_eq, class_eq, outside_contract, BehaviorEvent, alert, ViolationReport,
}
use mcp_contract.Models.Codec.{event_to_dict, event_from_dict}
use mcp_contract.Models.Codec.RoundTrip.{fields_of, event_from_dict-event_to_dict}
use mcp_contract.Tests.Fixtures.{plain, opens}

abbrev flagged : BehaviorEvent
flagged = record (opens (txt "/etc") (txt "w")) {
  classification = some outside_contract;
  backend = str (txt "mock");
}

abbrev report : ViolationReport
report = record {
  server_id = txt "s";
  manifest_hash = txt "h";
  mode = alert;
  events = flagged ∷ opens [] [] ∷ [];
}

event_round_trip_example : event_from_dict plain (fields_of (event_to_dict flagged)) ≡ ok flagged
event_round_trip_example = event_from_dict-event_to_dict plain flagged

-- ===== src/Tests/Fleets.antt =====
-- Fleets: runs, and the theorems at concrete inputs.
use mcp_contract.Base.{
  ◌≤◌, ◌≡◌, ◌≢◌, ◌↔◌, inl, refl, true, false, List, [], ◌∷◌, ◌++◌, map, Option, none, some, ◌==◌,
  if◌then◌else◌, length, All, Text, txt, text_eq, nat_eq, starts_with, Value, null, float, str, arr,
  obj, nil, end, dict, list, ok, err, os_error, type_error, ◌>>=◌, traverse, dict_of,
}
use mcp_contract.Models.{
  CapabilityId, inferred, id_eq, status_eq, class_eq, Policy, generator, observe, critical,
}
use mcp_contract.Models.Report.{violations}
use mcp_contract.Models.Hash.{hash_of}
use mcp_contract.Models.Codec.{capability_from_dict, member, event_from_dict}
use mcp_contract.Bcm.Offline.{
  as_bad_event, remap_unknown_kind, remap_kind, load_events, load_line, annotate, classify_events,
}
use mcp_contract.Bcm.Contract.{manifest_implied_caps, merge_implied}
use mcp_contract.Bcm.Monitor.{ended, start_monitor}
use mcp_contract.Documents.Policies.{
  load_cap, load_policy, read_source, policy_of, load_extension, load_caps, load_caps_from,
}
use mcp_contract.Proxy.Plan.{sort_texts, insert_text}
use mcp_contract.Loader.{
  parse_text, load_value, readable, named_tool, tool_ir, result_scope, tool_list, extract_tools,
  scope_name, server_name, load_document, load_manifest,
}
use mcp_contract.Regex.{run, pieces, rounds, literal}
use mcp_contract.Pie.Patterns.{is_upper, is_lower, is_number}
use mcp_contract.Fleet.Launch.{
  Spec, Server, launch_fingerprint, transport, resolve_fields, resolved_env, expanded, var_re,
  name_of, after_name, expand_pieces, expand_env_value, spec_with,
}
use mcp_contract.Fleet.Verdicts.{
  World, verify_hash, violation, rug_pull, skipped, error, Status, ServerReport, load_contract,
  recorded, verify_one, audit_one, envelope,
}
use mcp_contract.Fleet.Runs.{Adapter, launched, halted, run_one}
use mcp_contract.Fleet.Aggregate.{
  exit_code, verify_all, audit_all, totals, fleet_severity, reports_of,
}
use mcp_contract.Fleet.Gate.{
  Verified, SomeDrifted, SomeViolated, Unhashed, verify_all-exit_code, verify_all-returns_iff,
}
use mcp_contract.Fleet.Audits.{Readable, audit_all-exit_code}
use mcp_contract.Fleet.Tallies.{tally, count_of, breaches, totals_lem}
use mcp_contract.Fleet.Granted.{OwnLaunch, run_one-OwnLaunch}
use mcp_contract.Fleet.Config.{
  Places, mode_of, build_server, build_all, from_config, apply_transport_downgrade,
}
use mcp_contract.Fleet.Described.{IsObserved, IsPinned, from_config-fit}
use mcp_contract.Tests.Fixtures.{capability, classification, inference, plain, classifier}
use mcp_contract.Tests.Documents.{lib}

abbrev key_grant : Value
key_grant = obj (
    dict (
      (txt "id", str (txt "env"))
      ∷ (txt "status", str (txt "inferred"))
      ∷ (txt "values", arr (list (str (txt "A") ∷ [])))
      ∷ []))

abbrev bound_to : Text → Value
bound_to hash = obj (
    dict (
      (
        txt "x-mcp-contract",
        obj (
            dict (
              (txt "source_manifest_hash", str hash)
              ∷ (txt "caps", arr (list (key_grant ∷ [])))
              ∷ [])),
      )
      ∷ []))

abbrev document : Text → Option Value
document name =
    if name == txt "bound"
    then some (bound_to (txt "sha256:1"))
    else if name == txt "other"
    then some (bound_to (txt "sha256:2"))
    else none

abbrev connect : Value
connect = obj (
    dict (
      (txt "ts", float 0)
      ∷ (txt "kind", str (txt "net.connect"))
      ∷ (txt "detail", obj (dict ((txt "host", str (txt "evil.com")) ∷ [])))
      ∷ []))

abbrev world : World
world = record {
  py = plain;
  classify = classifier;
  digest = λ v. ok (txt "1");
  builtin = lib;
  manifests = record {
    stem = λ path. path;
    suffix = λ path. [];
    read_text = λ path. ok [];
    json_loads = λ text. some (obj (dict ((txt "tools", arr nil) ∷ [])));
    yaml_load = λ text. some (obj (dict ((txt "tools", arr nil) ∷ [])));
  };
  policies = record {
    is_file = λ name. ok false;
    read_text = λ name. err os_error;
    yaml_load = document;
    stem = λ name. name;
  };
  read_lines = λ path. ok (if path == txt "some" then txt "e" ∷ [] else []);
  json_loads = λ line. ok connect;
  safe_dump = λ doc. [];
  write_text = λ path text. ok text;
  environ = λ var. if var == txt "KEY" then some (txt "k1") else none;
}

abbrev server : Text → Text → Server
server policy_path events_path = record {
  id = txt "s";
  launch = dict (
      (txt "command", str (txt "run"))
      ∷ (txt "env", obj (dict ((txt "A", str (txt "${KEY}-${B:-x}")) ∷ [])))
      ∷ []);
  backend = txt "mock";
  mode = observe;
  image = null;
  manifest_path = some (txt "m");
  policy_path = some policy_path;
  events_path = some events_path;
  egress_proxy = false;
  labels = end;
  source = none;
}

unfoldable launching : Unit {0}
unfolding classification run pieces rounds literal is_upper is_lower is_number var_re name_of
    after_name expand_pieces expand_env_value resolve_fields resolved_env transport
    launch_fingerprint sort_texts insert_text
launching = tt

unfoldable verifying : Unit {0}
unfolding launching inference load_policy read_source policy_of load_extension load_caps
    load_caps_from load_manifest load_document readable named_tool tool_ir result_scope tool_list
    extract_tools scope_name server_name hash_of load_contract recorded load_events load_line
    event_from_dict annotate classify_events manifest_implied_caps merge_implied violations envelope
    verify_one verify_hash audit_one verify_all audit_all exit_code parse_text load_value traverse
    as_bad_event remap_unknown_kind remap_kind member dict_of capability_from_dict load_cap
verifying = tt

env_test : resolved_env plain world.environ (server [] []) ≡ expanded ((txt "A", txt "k1-x") ∷ [])
unfolding launching
env_test = refl

abbrev fleet : List Server
fleet =
    server (txt "bound") (txt "some")
    ∷ server (txt "bound") (txt "none")
    ∷ server (txt "other") (txt "some")
    ∷ server (txt "lost") (txt "some")
    ∷ []

statuses_test :
    (do runs ← verify_all world false fleet; ok (map (λ r. r.status) runs))
    ≡ ok (violation ∷ skipped ∷ rug_pull ∷ error ∷ [])
unfolding verifying
statuses_test = refl

abbrev verified_runs : List ServerReport
verified_runs = elim (verify_all world false fleet) [ ok runs ↦ runs | err e ↦ [] ]

fleet_verified : verify_all world false fleet ≡ ok verified_runs
unfolding verifying
fleet_verified = refl

verify_all-exit_code_example :
    ((exit_code verified_runs ≡ 2) ↔ SomeDrifted world false fleet)
    × ((exit_code verified_runs ≡ 1)
        ↔ (¬ SomeDrifted world false fleet × SomeViolated world false fleet))
    × ((exit_code verified_runs ≡ 0) ↔ All (Verified world false) fleet)
verify_all-exit_code_example = verify_all-exit_code world false fleet verified_runs fleet_verified

verify_all-returns_iff_example :
    ((runs : List ServerReport) × (verify_all world false fleet ≡ ok runs))
    ↔ All (λ s. ¬ (Unhashed world s)) fleet
verify_all-returns_iff_example = verify_all-returns_iff world false fleet

-- A manifest without a hash ends the batch.
abbrev unserializable : World
unserializable = record world { digest = λ v. err type_error }

batch_ended_test : verify_all unserializable false fleet ≡ err type_error
unfolding verifying
batch_ended_test = refl

audit_all-exit_code_example :
    (exit_code (audit_all world fleet) ≢ 2)
    × (exit_code (audit_all world fleet) ≢ 1)
    × ((exit_code (audit_all world fleet) ≡ 0) ↔ All (Readable world) fleet)
audit_all-exit_code_example = audit_all-exit_code world fleet

totals_lem_example :
    ((s : Status) → tally s (totals verified_runs) ≡ count_of s verified_runs)
    × ((totals verified_runs).servers ≡ length verified_runs)
    × ((totals verified_runs).events.outside ≡ breaches (reports_of verified_runs))
    × ((fleet_severity verified_runs ≡ critical) ↔ (1 ≤ breaches (reports_of verified_runs)))
totals_lem_example = totals_lem verified_runs

abbrev adapter : Adapter
adapter = record { start = λ spec policy. ok tt; rounds = ended none; block_error = λ e. none }

abbrev drifted : Server
drifted = server (txt "other") (txt "some")

-- The sandbox of a server whose manifest drifted is not stopped.
left_running_test :
    map
      (λ c. elim c [ launched spec policy ↦ true | halted ↦ false ])
      (run_one world (λ s. ok adapter) none drifted).1
    ≡ true ∷ []
unfolding verifying run_one spec_with start_monitor
left_running_test = refl

abbrev other_policy : Policy
other_policy = record {
  server_id = txt "unknown";
  manifest_hash = txt "sha256:2";
  caps = capability CapabilityId.env inferred (txt "A" ∷ []) ∷ [];
  backend_hint = null;
  generated_by = generator;
}

abbrev bare_spec : Spec
bare_spec = record {
  server_id = txt "s";
  image = null;
  command = txt "run" ∷ [];
  env = (txt "A", txt "k1-x") ∷ [];
  workdir = null;
  source = none;
  transport = txt "stdio";
  labels = end;
  launch_fingerprint = launch_fingerprint drifted;
}

run_one-OwnLaunch_example : OwnLaunch world (λ s. ok adapter) none drifted bare_spec other_policy
unfolding verifying run_one spec_with start_monitor
run_one-OwnLaunch_example =
    run_one-OwnLaunch world (λ s. ok adapter) none drifted bare_spec other_policy (inl refl)

abbrev args_with : Text → List Text
args_with secret = txt "--token" ∷ secret ∷ txt "-v" ∷ []

abbrev places : Places
places = record {
  is_absolute = λ path. starts_with path (txt "/");
  to_path = λ path. path;
  join_path = λ dir path. dir ++ (txt "/" ++ path);
  stem = λ path. path;
}

abbrev remote : Value
remote = obj (
    dict (
      (
        txt "servers",
        obj (
            dict (
              (
                txt "r",
                obj (
                    dict (
                      (txt "mode", str (txt "enforce"))
                      ∷ (txt "backend", str (txt "mock"))
                      ∷ (txt "launch", obj (dict ((txt "transport", str (txt "SSE")) ∷ [])))
                      ∷ [])),
              )
              ∷ [])),
      )
      ∷ []))

abbrev described : Server
described = record {
  id = txt "r";
  launch = dict ((txt "transport", str (txt "SSE")) ∷ []);
  backend = txt "mock";
  mode = observe;
  image = null;
  manifest_path = none;
  policy_path = none;
  events_path = none;
  egress_proxy = false;
  labels = end;
  source = some (txt "f");
}

from_config-fit_example : All (λ s. IsObserved plain s × IsPinned plain s) (described ∷ [])
unfolding launching from_config build_all build_server mode_of apply_transport_downgrade
from_config-fit_example =
    from_config-fit plain places (txt "d") (txt "f") remote (described ∷ []) refl

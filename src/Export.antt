-- ===== src/Export.antt =====
-- `report/export.py`: the SARIF log of reports, without its wording.
use mcp_contract.Base.{
  or_value, ℕ, zero, suc, ◌+◌, ◌-◌, ◌<◌, ◌≤◌, ◌≡◌, ◌≢◌, ◌↔◌, ◌⊎◌, inl, inr, refl, sym, ap, ◌∙◌,
  Bool, true, false, not, ◌&&◌, ◌||◌, List, [], ◌∷◌, ◌++◌, map, reverse, append-nil, append_assoc,
  Option, none, some, Eq, ◌==◌, contains, if◌then◌else◌, length, take, is_empty, tail, keep, any,
  all, leb, nat_beq, arith, In, In-append, length-append, Distinct, All, All-append, All-at,
  All-intro, All-map, All-mono, contains_iff, eq_refl, eq_sym, or_false, add_new, add_all,
  In-add_new, In-add_all, add_new-Distinct, add_all-Distinct, ℤ, pos, negsuc, subst, Bool-cases,
  Option-cases, is_some, Text, txt, text_eq, nat_eq, lower, lower_code, starts_with, ends_with,
  split, split_from, join, starts_with_iff, ends_with_iff, Value, null, bool, int, float, str, arr,
  obj, Items, nil, cons, Fields, end, field, dict, list, items, keys, get, get_or, has, put,
  put_default, truthy, to_text, items-list, get-put, Result, ok, err, Exception, value_error,
  key_error, type_error, attribute_error, overflow_error, os_error, ◌>>=◌, Result-cases, IsKnown,
  Raises, Raises->>=, item-Raises, dict_of-Raises, traverse, traverse-map, item, iterate, dict_of,
  Builtins,
}
use mcp_contract.Models.{
  CapabilityId, net_http, fs_read, fs_write, proc_exec, env, CapabilityStatus, inferred,
  needs_review, denied, all_ids, id_eq, status_eq, class_eq, Evidence, Capability, ToolIr, Manifest,
  Policy, generator, find_cap, cap, if_inferred, granted, EventKind, net_connect, fs_open,
  proc_spawn, env_read, mcp_call, syscall, EventClass, within_policy, within_manifest,
  outside_contract, BehaviorEvent, Mode, observe, alert, enforce, Severity, info, warning, critical,
  ViolationReport,
}
use mcp_contract.Models.Codec.{to_str, kind_value, class_value}
use mcp_contract.Posix.{basename, first_word}
pub mod Laws

-- `SARIF_MAX_RESULTS`
abbrev pub sarif_max_results : ℕ
sarif_max_results = 25000

module _ (py : Builtins) where
  abbrev pub cmd_token : Value → Text
  cmd_token (str s) = first_word s
  cmd_token v = []

  -- `_proc_first_token`
  abbrev pub argv_token : Fields → Value → Text
  argv_token detail (arr (cons v vs)) = to_str py v
  argv_token detail v = cmd_token (get_or (txt "cmd") (str []) detail)

  unfoldable pub proc_first_token : Fields → Text
  proc_first_token detail = argv_token detail (get_or (txt "argv") null detail)

  abbrev pub kind_target : EventKind → Fields → Text
  kind_target net_connect d =
      to_str py
        (or_value (get_or (txt "host") null d) (or_value (get_or (txt "ip") null d) (str [])))
  kind_target fs_open d =
      to_str py (get_or (txt "path") (str []) d)
      ++ (txt ":" ++ to_str py (get_or (txt "mode") (str []) d))
  kind_target proc_spawn d = basename (proc_first_token d)
  kind_target env_read d = to_str py (get_or (txt "var") (str []) d)
  kind_target _ d = []

  -- `event_target`
  unfoldable pub event_target : BehaviorEvent → Text
  event_target e = kind_target e.kind e.detail

-- `violation_identity`; `sha256` gives the hexadecimal digest of a text.
unfoldable pub violation_identity : (Text → Text) → Text → Text → Text → Text → Text
violation_identity sha256 server_id classification kind target =
    sha256 (server_id ++ 0 ∷ (classification ++ 0 ∷ (kind ++ 0 ∷ target)))

-- What `_build_result` takes of a report and an event, with the fingerprint.
pub record SarifResult : Type 0 where
  pub server_id : Text
  pub event : BehaviorEvent
  pub rule_idx : ℕ
  pub key : Text × Text
  pub fingerprint : Text

-- The state of the loops of `to_sarif`; a rule stands for its classification and kind.
pub record Sarif : Type 0 where
  pub rules : List (Text × Text)
  pub rule_index : List ((Text × Text) × ℕ)
  pub results : List SarifResult
  pub truncated : ℕ

abbrev pub no_results : Sarif
no_results = record { rules = []; rule_index = []; results = []; truncated = 0 }

abbrev pub key_eq : Text × Text → Text × Text → Bool
key_eq (a, b) (c, d) = a == c && b == d

unfoldable pub find_index : Text × Text → List ((Text × Text) × ℕ) → Option ℕ
find_index k [] = none
find_index k ((j, n) ∷ index) = let rest = find_index k index in if key_eq k j then some n else rest

-- The class of an event that becomes a result, if it does.
abbrev pub notable : Bool → Option EventClass → Option EventClass
notable include (some outside_contract) = some outside_contract
notable true (some within_manifest) = some within_manifest
notable include _ = none

module _ (py : Builtins) (sha256 : Text → Text) (include : Bool) (max_results : ℕ) where
  abbrev pub result_of : Text → BehaviorEvent → ℕ → Text × Text → SarifResult
  result_of server_id e idx (classification, kind) = record {
    server_id = server_id;
    event = e;
    rule_idx = idx;
    key = (classification, kind);
    fingerprint = violation_identity sha256 server_id classification kind (event_target py e);
  }

  abbrev pub with_rule : Text → BehaviorEvent → Sarif → Text × Text → Option ℕ → Sarif
  with_rule server_id e st key (some idx) = record st {
    results = st.results ++ result_of server_id e idx key ∷ [];
  }
  with_rule server_id e st key none = record st {
    rules = st.rules ++ key ∷ [];
    rule_index = st.rule_index ++ (key, length st.rules) ∷ [];
    results = st.results ++ result_of server_id e (length st.rules) key ∷ [];
  }

  abbrev pub add_notable : Text → BehaviorEvent → Sarif → Option EventClass → Sarif
  add_notable server_id e st none = st
  add_notable server_id e st (some cls) =
      let key : Text × Text = (class_value cls, kind_value e.kind) in
      if leb max_results (length st.results)
      then record st { truncated = st.truncated + 1 }
      else with_rule server_id e st key (find_index key st.rule_index)

  unfoldable pub add_events : Text → Sarif → List BehaviorEvent → Sarif
  add_events server_id st [] = st
  add_events server_id st (e ∷ es) =
      add_events server_id (add_notable server_id e st (notable include e.classification)) es

  unfoldable pub add_reports : Sarif → List ViolationReport → Sarif
  add_reports st [] = st
  add_reports st (r ∷ rs) = add_reports (add_events r.server_id st r.events) rs

  -- `to_sarif`: the rules, the results and the number of those left out.
  unfoldable pub to_sarif : List ViolationReport → Sarif
  to_sarif reports = add_reports no_results reports

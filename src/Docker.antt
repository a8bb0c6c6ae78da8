-- ===== src/Docker.antt =====
-- `ral/docker.py`: the arguments of `docker run`, and what the adapter asks of the daemon.
use mcp_contract.Base.{
  ℕ, zero, suc, ◌+◌, ◌-◌, ◌<◌, ◌≤◌, ◌≡◌, ◌≢◌, ◌↔◌, ◌⊎◌, inl, inr, refl, sym, ap, ◌∙◌, Bool, true,
  false, not, ◌&&◌, ◌||◌, List, [], ◌∷◌, ◌++◌, map, reverse, append-nil, append_assoc, Option, none,
  some, Eq, ◌==◌, contains, if◌then◌else◌, length, take, is_empty, tail, keep, any, all, leb,
  nat_beq, arith, In, In-append, length-append, Distinct, All, All-append, All-at, All-intro,
  All-map, All-mono, contains_iff, eq_refl, eq_sym, or_false, add_new, add_all, In-add_new,
  In-add_all, add_new-Distinct, add_all-Distinct, ℤ, pos, negsuc, subst, Bool-cases, Option-cases,
  is_some, Text, txt, text_eq, nat_eq, lower, lower_code, starts_with, ends_with, split, split_from,
  join, starts_with_iff, ends_with_iff, Value, null, bool, int, float, str, arr, obj, Items, nil,
  cons, Fields, end, field, dict, list, items, keys, get, get_or, has, put, put_default, truthy,
  to_text, items-list, get-put, Result, ok, err, Exception, value_error, key_error, type_error,
  attribute_error, overflow_error, os_error, runtime_error, ◌>>=◌, Result-cases, IsKnown, Raises,
  Raises->>=, item-Raises, dict_of-Raises, traverse, traverse-map, item, iterate, dict_of, Builtins,
}
use mcp_contract.Models.{
  CapabilityId, net_http, fs_read, fs_write, proc_exec, env, CapabilityStatus, inferred,
  needs_review, denied, all_ids, id_eq, status_eq, class_eq, Evidence, Capability, ToolIr, Manifest,
  Policy, generator, find_cap, cap, if_inferred, granted, EventKind, net_connect, fs_open,
  proc_spawn, env_read, mcp_call, syscall, EventClass, within_policy, within_manifest,
  outside_contract, BehaviorEvent, Mode, observe, alert, enforce, Severity, info, warning, critical,
  ViolationReport,
}
use mcp_contract.Posix.{normpath}
use mcp_contract.Proxy.Plan.{EgressPlan, PlanMode, deny, allowlist, open_all, sort_texts}
pub mod Laws

-- The bind mounts: each path, and whether it is writable.
abbrev pub Mounts : Type 0
Mounts = List (Text × Bool)

-- `mounts[path] = "rw"` and `mounts.setdefault(path, "ro")`
unfoldable pub put_writable : Text → Mounts → Mounts
put_writable path [] = (path, true) ∷ []
put_writable path ((p, m) ∷ ms) =
    let rest = put_writable path ms in if path == p then (p, true) ∷ ms else (p, m) ∷ rest

unfoldable pub put_readable : Text → Mounts → Mounts
put_readable path [] = (path, false) ∷ []
put_readable path ((p, m) ∷ ms) =
    let rest = put_readable path ms in if path == p then (p, m) ∷ ms else (p, m) ∷ rest

-- The loop over the values of a class; a path that is not absolute is skipped.
unfoldable pub mount_all : (Text → Mounts → Mounts) → Mounts → List Text → Mounts
mount_all put_one ms [] = ms
mount_all put_one ms (v ∷ vs) =
    let path = normpath v in
    mount_all put_one (if starts_with path (txt "/") then put_one path ms else ms) vs

abbrev pub values_of : Option Capability → List Text
values_of none = []
values_of (some c) = c.values

unfoldable pub mounts : Policy → Mounts
mounts policy =
    mount_all put_readable (mount_all put_writable [] (values_of (granted policy fs_write)))
      (values_of (granted policy fs_read))

abbrev pub find_mount : Text → Mounts → Option Bool
find_mount q [] = none
find_mount q ((p, m) ∷ ms) = if q == p then some m else find_mount q ms

abbrev mode_text : Option Bool → Text
mode_text (some true) = txt "rw"
mode_text _ = txt "ro"

abbrev pub mount_args : Mounts → List Text → List Text
mount_args ms [] = []
mount_args ms (p ∷ ps) =
    txt "-v"
    ∷ (p ++ (txt ":" ++ (p ++ (txt ":" ++ mode_text (find_mount p ms)))))
    ∷ mount_args ms ps

abbrev pub env_args : List Text → List Text
env_args [] = []
env_args (v ∷ vs) = txt "-e" ∷ v ∷ env_args vs

-- The granted variables that the spec provides, each once.
abbrev pub wanted : Option Capability → List Text → List Text
wanted none provided = []
wanted (some c) provided =
    if contains c.values (txt "*")
    then add_all [] provided
    else add_all [] (keep (contains provided) c.values)

abbrev pub baseline : List Text
baseline = map txt (
    "--rm" ∷ "-d" ∷ "--cap-drop" ∷ "ALL" ∷ "--security-opt" ∷ "no-new-privileges" ∷ "--pids-limit"
    ∷ "64" ∷ [])

abbrev pub no_network : List Text
no_network = txt "--network" ∷ txt "none" ∷ []

-- `translate_policy_args`; of the spec, the names of its variables.
unfoldable pub translate_policy_args : Policy → List Text → List Text
translate_policy_args policy provided =
    baseline
    ++ ((elim (granted policy net_http) [ none ↦ no_network | some c ↦ [] ])
        ++ (mount_args (mounts policy) (sort_texts (map (λ (p, m). p) (mounts policy)))
            ++ env_args (sort_texts (wanted (granted policy CapabilityId.env) provided))))

-- `translate_network_args`
abbrev pub plan_args : PlanMode → List Text
plan_args deny = no_network
plan_args _ = []

unfoldable pub translate_network_args : EgressPlan → Option Text → List Text
translate_network_args plan (some endpoint) =
    txt "-e"
    ∷ (txt "HTTP_PROXY=" ++ endpoint)
    ∷ txt "-e"
    ∷ (txt "HTTPS_PROXY=" ++ endpoint)
    ∷ txt "-e"
    ∷ (txt "http_proxy=" ++ endpoint)
    ∷ txt "-e"
    ∷ (txt "https_proxy=" ++ endpoint)
    ∷ txt "--add-host=host.docker.internal:host-gateway"
    ∷ []
translate_network_args plan none = plan_args plan.mode

-- `_without_network_flag`; `skip` is set where the value of a flag follows.
unfoldable pub drop_flag : Bool → List Text → List Text
drop_flag skip [] = []
drop_flag true (a ∷ as') = drop_flag false as'
drop_flag false (a ∷ as') =
    let kept = a ∷ drop_flag false as' in
    let dropped = drop_flag true as' in
    if a == txt "--network" && not (is_empty as') then dropped else kept

abbrev pub without_network_flag : List Text → List Text
without_network_flag args = drop_flag false args

-- `_running`, over the answers that `docker inspect` gives to `attempts` calls; none where it fails.
unfoldable pub running : ℕ → List (Option Bool) → Result Bool
running zero answers = err runtime_error
running (suc n) [] = err runtime_error
running (suc n) (some b ∷ answers) = ok b
running (suc n) (none ∷ answers) = running n answers

-- `block`: whether the kill succeeded, and the answers of `docker inspect`.
unfoldable pub block : Bool → List (Option Bool) → Result (Unit {0})
block true answers = ok tt
block false answers = do alive ← running 3 answers; if alive then err runtime_error else ok tt

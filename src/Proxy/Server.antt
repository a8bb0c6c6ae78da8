-- ===== src/Proxy/Server.antt =====
-- src/mcp_contract/proxy/server.py: one request of a client of the egress proxy, as the list of the
-- effects that handling it has, in order. The network, `urlsplit`, `int` and base64 are parameters.
pub mod Laws
pub mod Sockets
use mcp_contract.Base.{
  ℕ, zero, suc, ◌+◌, ◌-◌, ◌<◌, ◌≤◌, ◌≡◌, ◌≢◌, ◌↔◌, ◌⊎◌, inl, inr, refl, sym, ap, ◌∙◌, Bool, true,
  false, not, ◌&&◌, ◌||◌, List, [], ◌∷◌, ◌++◌, map, reverse, append-nil, append_assoc, Option, none,
  some, Eq, ◌==◌, contains, if◌then◌else◌, length, take, is_empty, tail, keep, any, all, leb,
  nat_beq, arith, In, In-append, length-append, Distinct, All, All-append, All-at, contains_iff,
  eq_refl, eq_sym, or_false, add_new, add_all, In-add_new, In-add_all, add_new-Distinct,
  add_all-Distinct, ℤ, pos, negsuc, subst, Bool-cases, Option-cases, is_some, Text, txt, text_eq,
  nat_eq, lower, lower_code, starts_with, ends_with, split, split_from, join, starts_with_iff,
  ends_with_iff, Value, null, bool, int, float, str, arr, obj, Items, nil, cons, Fields, end, field,
  dict, list, items, keys, get, get_or, has, put, put_default, truthy, to_text, items-list, get-put,
  Result, ok, err, Exception, value_error, key_error, type_error, attribute_error, overflow_error,
  os_error, ◌>>=◌, Result-cases, IsKnown, Raises, Raises->>=, item-Raises, dict_of-Raises, traverse,
  traverse-map, item, iterate, dict_of, Builtins,
}
use mcp_contract.Models.{
  CapabilityId, net_http, fs_read, fs_write, proc_exec, env, CapabilityStatus, inferred,
  needs_review, denied, all_ids, id_eq, status_eq, class_eq, Evidence, Capability, ToolIr, Manifest,
  Policy, generator, find_cap, cap, if_inferred, granted, EventKind, net_connect, fs_open,
  proc_spawn, env_read, mcp_call, syscall, EventClass, within_policy, within_manifest,
  outside_contract, BehaviorEvent, Mode, observe, alert, enforce, Severity, info, warning, critical,
  ViolationReport,
}
use mcp_contract.Posix.{strip}
use mcp_contract.Proxy.Plan.{EgressPlan, allowed}

pub record Config : Type 0 where
  pub plan : EgressPlan
  pub auth_token : Option Text

-- What handling a request does to the world, in order. `connected` opens an upstream socket, which
-- `closed_upstream` closes; `registered` and `unregistered` stand for the set of live tunnels.
pub data Effect : Type 0 where
  replied : ℕ → Effect
  emitted : BehaviorEvent → Effect
  connected refused : Text → ℤ → Effect
  registered unregistered relayed closed_upstream : Effect
  sent : List Text → Effect
  read_body sent_body : ℕ → Effect

-- What the environment answers: the upstream connection's error, if it fails, whether the
-- reply to a CONNECT can be sent, and whether the upstream takes what is sent to it.
pub record World : Type 0 where
  pub connect_error : Text → ℤ → Option Text
  pub reply_sent : Bool
  pub head_accepted : Bool
  pub body_accepted : Bool
  pub now : ℕ

-- What `urlsplit` finds in a URL; reading the port may raise.
pub record Url : Type 0 where
  pub hostname : Option Text
  pub port : Result (Option ℤ)
  pub path : Text
  pub query : Text

-- The standard library's `urlsplit`, `int` and base64 encoding.
pub record Stdlib : Type 0 where
  pub urlsplit : Text → Result Url
  pub parse_int : Text → Option ℤ
  pub b64 : Text → Text

pub record Request : Type 0 where
  pub command : Text
  pub path : Text
  pub version : Text
  pub headers : List (Text × Text)

-- `self.headers.get(name)`: the first header of the name, letter case aside.
unfoldable pub header : Text → List (Text × Text) → Option Text
header name [] = none
header name ((k, v) ∷ hs) = if lower k == lower name then some v else header name hs

abbrev or_empty : Option Text → Text
or_empty none = []
or_empty (some t) = t

-- `target.find(c)` and the parts on its two sides.
unfoldable pub cut_at : ℕ → Text → Option (Text × Text)
cut_at c [] = none
cut_at c (d ∷ s) = elim (nat_beq d c) [
  | true ↦ some ([], s)
  | false ↦ elim (cut_at c s) [ none ↦ none | some (a, b) ↦ some (d ∷ a, b) ]
]

-- `target.rpartition(c)`: the parts on the two sides of the last occurrence.
unfoldable pub rcut_at : ℕ → Text → Option (Text × Text)
rcut_at c [] = none
rcut_at c (d ∷ s) = elim (rcut_at c s) [
  | some (a, b) ↦ some (d ∷ a, b)
  | none ↦ if nat_beq d c then some ([], s) else none
]

module _ (lib : Stdlib) where
  -- The port after a bracketed host, when a colon follows.
  unfoldable pub bracket_port : Text → ℤ → ℤ
  bracket_port [] default = default
  bracket_port (c ∷ s) default =
      if nat_beq c b':' then (elim (lib.parse_int s) [ some n ↦ n | none ↦ default ]) else default

  unfoldable pub split_plain : Text → ℤ → Text × ℤ
  split_plain target default = elim (rcut_at b':' target) [
    | none ↦ (target, default)
    | some (host, port) ↦ elim (lib.parse_int port) [
      | some n ↦ (host, n)
      | none ↦ (target, default)
    ]
  ]

  abbrev split_stripped : Text → ℤ → Text × ℤ
  split_stripped [] default = split_plain [] default
  split_stripped (c ∷ s) default =
      if nat_beq c b'['
      then (elim (cut_at b']' s) [
        | none ↦ (c ∷ s, default)
        | some (host, rest) ↦ (host, bracket_port rest default)
      ])
      else split_plain (c ∷ s) default

  -- `_split_host_port`
  unfoldable pub split_host_port : Text → ℤ → Text × ℤ
  split_host_port target default = split_stripped (strip target) default

  -- `_expected_proxy_auth`
  unfoldable pub expected_auth : Text → Text
  expected_auth token = txt "Basic " ++ lib.b64 (txt "mcp:" ++ token)

  abbrev is_ascii : Text → Bool
  is_ascii = all (λ c. leb c 127)

  -- `_authorized`; `compare_digest` refuses texts that are not ASCII.
  unfoldable pub authorized : Config → Request → Bool
  authorized cfg req = elim cfg.auth_token [
    | none ↦ true
    | some token ↦
        let provided = or_empty (header (txt "Proxy-Authorization") req.headers) in
        is_ascii provided && is_ascii (expected_auth token) && provided == expected_auth token
  ]

  -- The event of `_emit`.
  unfoldable pub proxy_event : World → Text → ℤ → Bool → Option Text → BehaviorEvent
  proxy_event w host port permitted error = record {
    ts = w.now;
    kind = net_connect;
    detail = dict (
        (txt "host", str host)
        ∷ (txt "port", int port)
        ∷ (txt "allowed", bool permitted)
        ∷ (txt "via", str (txt "proxy"))
        ∷ elim error [ none ↦ [] | some e ↦ (txt "error", str e) ∷ [] ]);
    tool_ctx = null;
    classification = none;
    backend = str (txt "egress-proxy");
  }

  abbrev denied_effects : World → Text → ℤ → List Effect
  denied_effects w host port = emitted (proxy_event w host port false none) ∷ replied 403 ∷ []

  abbrev failed_effects : World → Text → ℤ → Text → List Effect
  failed_effects w host port e =
      refused host port ∷ emitted (proxy_event w host port true (some e)) ∷ replied 502 ∷ []

  abbrev opened_effects : World → Text → ℤ → List Effect → List Effect
  opened_effects w host port rest =
      connected host port ∷ emitted (proxy_event w host port true none) ∷ rest

  -- What follows the connection of a tunnel.
  abbrev tunnel_effects : World → List Effect
  tunnel_effects w =
      if w.reply_sent
      then replied 200 ∷ registered ∷ relayed ∷ closed_upstream ∷ unregistered ∷ []
      else closed_upstream ∷ []

  -- From the decision on: the upstream socket is opened only for an allowed host.
  unfoldable pub forward : Config → World → Text → ℤ → (before after : List Effect) → List Effect
  forward cfg w host port before after =
      if allowed cfg.plan host
      then before ++ (elim (w.connect_error host port) [
        | some e ↦ failed_effects w host port e
        | none ↦ opened_effects w host port after
      ])
      else denied_effects w host port

  -- `_do_connect`
  unfoldable pub do_connect : Config → World → Request → List Effect
  do_connect cfg w req =
      if authorized cfg req
      then (let (host, port) = split_host_port req.path (pos 443) in
          forward cfg w (lower host) port [] (tunnel_effects w))
      else replied 407 ∷ []

  abbrev skipped : Text → Bool
  skipped k = lower k == txt "proxy-connection" || lower k == txt "connection"

  unfoldable pub header_lines : List (Text × Text) → List Text
  header_lines [] = []
  header_lines ((k, v) ∷ hs) =
      let rest = header_lines hs in if skipped k then rest else (k ++ (txt ": " ++ v)) ∷ rest

  unfoldable pub has_host : List (Text × Text) → Bool
  has_host = any (λ (k, v). not (skipped k) && lower k == txt "host")

  abbrev target_of : Url → Text
  target_of u =
      let path = if is_empty u.path then txt "/" else u.path in
      if is_empty u.query then path else path ++ (txt "?" ++ u.query)

  -- The request line and the headers that are sent upstream.
  unfoldable pub request_head : Request → Url → Text → List Text
  request_head req u host =
      let line = req.command ++ (txt " " ++ (target_of u ++ (txt " " ++ req.version))) in
      let lines = header_lines req.headers in
      let all_lines = if has_host req.headers then lines else (txt "Host: " ++ host) ∷ lines in
      line ∷ (all_lines ++ txt "Connection: close" ∷ [])

  abbrev or_80 : Option ℤ → ℤ
  or_80 none = pos 80
  or_80 (some (pos zero)) = pos 80
  or_80 (some n) = n

  -- The host and port of a request: from its URL, else from its Host header.
  unfoldable pub http_target : Request → Url → Result (Text × ℤ)
  http_target req u = elim u.hostname [
    | some (c ∷ s) ↦ do port ← u.port; ok (c ∷ s, or_80 port)
    | _ ↦ ok (split_host_port (or_empty (header (txt "Host") req.headers)) (pos 80))
  ]

  -- The length of the body that is read: that of the Content-Length header, if it is positive.
  unfoldable pub body_length : Request → ℕ
  body_length req = elim (header (txt "Content-Length") req.headers) [
    | some (c ∷ s) ↦ elim (lib.parse_int (c ∷ s)) [ some (pos n) ↦ n | _ ↦ 0 ]
    | _ ↦ 0
  ]

  abbrev body_effects : (ℕ → Effect) → ℕ → List Effect
  body_effects effect zero = []
  body_effects effect (suc n) = effect (suc n) ∷ []

  -- The body is sent, if there is one, and the response relayed, unless sending the body fails.
  abbrev response_effects : Bool → ℕ → List Effect
  response_effects accepted zero = relayed ∷ []
  response_effects true (suc n) = sent_body (suc n) ∷ relayed ∷ []
  response_effects false (suc n) = []

  -- What follows the connection of an HTTP request; the socket is closed on every path.
  abbrev http_after : World → Request → Url → Text → List Effect
  http_after w req u host =
      registered
      ∷ ((if w.head_accepted
            then sent (request_head req u host) ∷ response_effects w.body_accepted (body_length req)
            else [])
          ++ unregistered ∷ closed_upstream ∷ [])

  unfoldable pub http_effects : Config → World → Request → Url → Text → ℤ → List Effect
  http_effects cfg w req u host port =
      if is_empty host
      then denied_effects w host port
      else forward cfg w host port (body_effects read_body (body_length req))
          (http_after w req u host)

  -- `_do_http`; an exception of `urlsplit` closes the client's connection and does nothing else.
  unfoldable pub do_http : Config → World → Request → List Effect
  do_http cfg w req =
      if authorized cfg req
      then (elim (do
        u ← lib.urlsplit req.path
        (host, port) ← http_target req u
        ok (http_effects cfg w req u (lower host) port)) [ err e ↦ [] | ok effects ↦ effects ])
      else replied 407 ∷ []

-- ===== src/Proxy/Server/Laws.antt =====
-- What the proxy never does, and what each request leaves behind.
use mcp_contract.Base.{
  ℕ, zero, suc, ◌≡◌, ◌↔◌, inl, inr, refl, sym, Bool, true, false, List, [], ◌∷◌, Option, none, some,
  if◌then◌else◌, arith, All, All-append, ℤ, subst, Bool-cases, Text, txt, text_eq, nat_eq, lower,
  Value, null, bool, get_or, Result-cases, Builtins,
}
use mcp_contract.Models.{
  net_http, id_eq, status_eq, class_eq, Capability, Policy, within_policy, BehaviorEvent,
}
use mcp_contract.Bcm.Diff.{classify_value, classify_event, event_capability}
use mcp_contract.Proxy.Plan.{egress_plan, allowed}
use mcp_contract.Proxy.Plan.Laws.{allowed-egress_plan_iff}
use mcp_contract.Proxy.Server.{
  Config, Effect, replied, emitted, connected, refused, registered, unregistered, relayed,
  closed_upstream, sent, read_body, sent_body, World, Url, Stdlib, Request, authorized, proxy_event,
  failed_effects, opened_effects, forward, do_connect, http_target, body_length, body_effects,
  http_after, response_effects, http_effects, do_http, request_head,
}

abbrev tunnel_list : Bool → List Effect
tunnel_list b =
    if b
    then replied 200 ∷ registered ∷ relayed ∷ closed_upstream ∷ unregistered ∷ []
    else closed_upstream ∷ []

-- The effects that a handler can have, by a property of effects.
module _ (P : Effect → Type 0) (lib : Stdlib) (cfg : Config) (w : World) where
  -- The property holds of all that `forward` does on its own.
  abbrev Holds : Text → ℤ → Type 0
  Holds host port =
      (allowed cfg.plan host ≡ true
        → (e : Option Text)
        → P (connected host port)
          × P (refused host port)
          × P (emitted (proxy_event lib w host port true e)))
      × (allowed cfg.plan host ≡ false → P (emitted (proxy_event lib w host port false none)))

  -- The property holds of the effects that name no host.
  record Neutral : Type 0 where
    replies : (n : ℕ) → P (replied n)
    registers : P registered
    unregisters : P unregistered
    relays : P relayed
    closes : P closed_upstream
    sends : (ls : List Text) → P (sent ls)
    reads : (n : ℕ) → P (read_body n)
    sends_body : (n : ℕ) → P (sent_body n)

  All-dialled :
      (host : Text) (port : ℤ) (after : List Effect) (o : Option Text)
      → Neutral
      → Holds host port
      → allowed cfg.plan host ≡ true
      → All P after
      → All P (elim o [
        | some e ↦ failed_effects lib w host port e
        | none ↦ opened_effects lib w host port after
      ])
  All-dialled host port after none n h y a = let (c, r, m) = h.0 y none in (c, (m, a))
  All-dialled host port after (some e) n h y a =
      let (c, r, m) = h.0 y (some e) in (r, (m, (n.replies 502, tt)))

  All-forward :
      (host : Text) (port : ℤ) (before after : List Effect)
      → Neutral
      → Holds host port
      → All P before
      → All P after
      → All P (forward lib cfg w host port before after)
  unfolding forward
  All-forward host port before after n h b a = elim (Bool-cases (allowed cfg.plan host)) [
    | inl y ↦
        rw y (
          All-append P before _ b (All-dialled host port after (w.connect_error host port) n h y a))
    | inr n' ↦ rw n' (h.1 n', (n.replies 403, tt))
  ]

  All-tunnel : Neutral → (b : Bool) → All P (tunnel_list b)
  All-tunnel n true = (n.replies 200, (n.registers, (n.relays, (n.closes, (n.unregisters, tt)))))
  All-tunnel n false = (n.closes, tt)

  All-body :
      (effect : ℕ → Effect) (n : ℕ) → ((k : ℕ) → P (effect k)) → All P (body_effects lib effect n)
  All-body effect zero h = tt
  All-body effect (suc n) h = (h (suc n), tt)

  All-after :
      (req : Request) (u : Url) (host : Text) → Neutral → All P (http_after lib w req u host)
  All-after req u host n = (
    n.registers,
    All-append P _ (unregistered ∷ closed_upstream ∷ []) (streamed w.head_accepted)
        (n.unregisters, (n.closes, tt)),
  )
    where
      answered : (accepted : Bool) (k : ℕ) → All P (response_effects lib accepted k)
      answered accepted zero = (n.relays, tt)
      answered true (suc k) = (n.sends_body (suc k), (n.relays, tt))
      answered false (suc k) = tt

      streamed :
          (b : Bool)
          → All P (
              if b
              then sent (request_head lib req u host)
                ∷ response_effects lib w.body_accepted (body_length lib req)
              else [])
      streamed true =
          (n.sends (request_head lib req u host), answered w.body_accepted (body_length lib req))
      streamed false = tt

  -- Every effect of a CONNECT and of an HTTP request has the property, if those of `forward` and
  -- the neutral ones have it.
  All-do_connect :
      (req : Request)
      → Neutral
      → ((host : Text) (port : ℤ) → Holds host port)
      → All P (do_connect lib cfg w req)
  unfolding do_connect
  All-do_connect req n h = elim (Bool-cases (authorized lib cfg req)) [
    | inl y ↦ rw y (All-forward _ _ [] _ n (h _ _) tt (All-tunnel n w.reply_sent))
    | inr d ↦ rw d (n.replies 407, tt)
  ]

  All-http_effects :
      (req : Request) (u : Url) (host : Text) (port : ℤ)
      → Neutral
      → ((host : Text) (port : ℤ) → Holds host port)
      → P (emitted (proxy_event lib w [] port false none))
      → All P (http_effects lib cfg w req u host port)
  unfolding http_effects
  All-http_effects req u [] port n h e = (e, (n.replies 403, tt))
  All-http_effects req u (c ∷ s) port n h e =
      All-forward (c ∷ s) port _ _ n (h (c ∷ s) port) (All-body read_body _ n.reads)
        (All-after req u (c ∷ s) n)

  All-do_http :
      (req : Request)
      → Neutral
      → ((host : Text) (port : ℤ) → Holds host port)
      → ((port : ℤ) → P (emitted (proxy_event lib w [] port false none)))
      → All P (do_http lib cfg w req)
  unfolding do_http
  All-do_http req n h e = elim (Bool-cases (authorized lib cfg req)) [
    | inr d ↦ rw d (n.replies 407, tt)
    | inl y ↦ elim (Result-cases (lib.urlsplit req.path)) [
      | inr (x, f) ↦ rw (y, f) tt
      | inl (u, f) ↦ elim (Result-cases (http_target lib req u)) [
        | inr (x, g) ↦ rw (y, f, g) tt
        | inl ((host, port), g) ↦
            rw (y, f, g) (All-http_effects req u (lower host) port n h (e port))
      ]
    ]
  ]

module _ (lib : Stdlib) (cfg : Config) (w : World) (req : Request) where
  -- An upstream connection, successful or not, is made for an authorized client and to a host
  -- that the plan allows.
  abbrev pub DialsAllowed : Effect → Type 0
  DialsAllowed (connected host port) =
      (authorized lib cfg req ≡ true) × (allowed cfg.plan host ≡ true)
  DialsAllowed (refused host port) =
      (authorized lib cfg req ≡ true) × (allowed cfg.plan host ≡ true)
  DialsAllowed _ = Unit

  neutral : Neutral DialsAllowed lib cfg w
  neutral = record {
    replies = λ n. tt;
    registers = tt;
    unregisters = tt;
    relays = tt;
    closes = tt;
    sends = λ ls. tt;
    reads = λ n. tt;
    sends_body = λ n. tt;
  }

  unauthorized :
      authorized lib cfg req ≡ false
      → All DialsAllowed (do_connect lib cfg w req) × All DialsAllowed (do_http lib cfg w req)
  unfolding do_connect do_http
  unauthorized d =
      let connect : do_connect lib cfg w req ≡ replied 407 ∷ [] = rw d in
      let http : do_http lib cfg w req ≡ replied 407 ∷ [] = rw d in
      (
        subst (All DialsAllowed) (sym connect) (tt, tt),
        subst (All DialsAllowed) (sym http) (tt, tt),
      )

  -- A denied host is never connected to: whatever the request and the network's answers, the proxy
  -- dials only for an authorized client, and only hosts that its plan allows.
  pub dials_allowed :
      All DialsAllowed (do_connect lib cfg w req) × All DialsAllowed (do_http lib cfg w req)
  dials_allowed = elim (Bool-cases (authorized lib cfg req)) [
    | inl y ↦
        let h : (host : Text) (port : ℤ) → Holds DialsAllowed lib cfg w host port =
          λ host port. (λ a e. ((y, a), (y, a), tt), λ d. tt) in
        (
          All-do_connect DialsAllowed lib cfg w req neutral h,
          All-do_http DialsAllowed lib cfg w req neutral h (λ port. tt),
        )
    | inr d ↦ unauthorized d
  ]

-- Whether the proxy marked an event as allowed.
abbrev pub marked_allowed : BehaviorEvent → Value
marked_allowed e = get_or (txt "allowed") null e.detail

module _ (py : Builtins) (lib : Stdlib) (p : Policy) (caps : List Capability) where
  -- An emitted event is marked allowed exactly when it is classified within the policy.
  abbrev pub Agrees : Effect → Type 0
  Agrees (emitted e) = (marked_allowed e ≡ bool true) ↔ (classify_event py e p caps ≡ within_policy)
  Agrees _ = Unit

  proxy_event-capability :
      (w : World) (host : Text) (port : ℤ) (b : Bool) (error : Option Text)
      → event_capability py (proxy_event lib w host port b error) ≡ some (net_http, host)
  unfolding proxy_event event_capability text_eq
  proxy_event-capability w [] port b none = refl
  proxy_event-capability w [] port b (some e) = refl
  proxy_event-capability w (c ∷ s) port b none = refl
  proxy_event-capability w (c ∷ s) port b (some e) = refl

  proxy_event-class :
      (w : World) (host : Text) (port : ℤ) (b : Bool) (error : Option Text)
      → classify_event py (proxy_event lib w host port b error) p caps
        ≡ classify_value net_http host p caps
  unfolding classify_event
  proxy_event-class w host port b error =
      rw (classify_event, proxy_event-capability w host port b error)

  proxy_event-mark :
      (w : World) (host : Text) (port : ℤ) (b : Bool) (error : Option Text)
      → marked_allowed (proxy_event lib w host port b error) ≡ bool b
  unfolding proxy_event text_eq
  proxy_event-mark w host port b error = refl

  proxy_event-Agrees :
      (w : World) (host : Text) (port : ℤ) (b : Bool) (error : Option Text)
      → allowed (egress_plan p) host ≡ b
      → Agrees (emitted (proxy_event lib w host port b error))
  proxy_event-Agrees w host port b error e =
      let rule = allowed-egress_plan_iff p host caps in
      rw (proxy_event-class w host port b error, proxy_event-mark w host port b error)
        (ground (arith, rule))

  module _ (token : Option Text) (w : World) (req : Request) where
    abbrev pub enforcing : Config
    enforcing = record { plan = egress_plan p; auth_token = token }

    agree_neutral : Neutral Agrees lib enforcing w
    agree_neutral = record {
      replies = λ n. tt;
      registers = tt;
      unregisters = tt;
      relays = tt;
      closes = tt;
      sends = λ ls. tt;
      reads = λ n. tt;
      sends_body = λ n. tt;
    }

    agree-Holds : (host : Text) (port : ℤ) → Holds Agrees lib enforcing w host port
    agree-Holds host port = (
      λ y e. (tt, tt, proxy_event-Agrees w host port true e y),
      λ d. proxy_event-Agrees w host port false none d,
    )

    -- Under the plan of a policy, every event of a CONNECT is marked allowed exactly when the
    -- monitor classifies it within that policy.
    pub do_connect-Agrees : All Agrees (do_connect lib enforcing w req)
    do_connect-Agrees = All-do_connect Agrees lib enforcing w req agree_neutral agree-Holds

    -- So is every event of an HTTP request, where the plan admits no request without a host; the
    -- proxy denies such a request under any plan.
    pub do_http-Agrees :
        allowed (egress_plan p) [] ≡ false → All Agrees (do_http lib enforcing w req)
    do_http-Agrees closed =
        All-do_http Agrees lib enforcing w req agree_neutral agree-Holds
          (λ port. proxy_event-Agrees w [] port false none closed)

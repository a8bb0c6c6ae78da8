-- ===== src/Proxy/Server/Sockets.antt =====
-- How the upstream socket is used: opened at most once at a time, written to only while it is open,
-- and closed on every path.
use mcp_contract.Base.{
  ℕ, zero, suc, ◌≡◌, inl, inr, refl, Bool, true, false, List, [], ◌∷◌, ◌++◌, Option, none, some,
  if◌then◌else◌, ℤ, Bool-cases, Text, text_eq, nat_eq, lower, Result-cases,
}
use mcp_contract.Models.{id_eq, status_eq, class_eq}
use mcp_contract.Proxy.Plan.{allowed}
use mcp_contract.Proxy.Server.{
  Config, Effect, replied, emitted, connected, refused, registered, unregistered, relayed,
  closed_upstream, sent, read_body, sent_body, World, Url, Stdlib, Request, authorized,
  failed_effects, opened_effects, forward, do_connect, http_target, body_length, body_effects,
  response_effects, http_effects, do_http, request_head,
}

-- Whether the upstream socket is open after an effect, if the effect is legal where it was open or
-- not.
abbrev pub next : Bool → Effect → Option Bool
next false (connected host port) = some true
next true (connected host port) = none
next false (refused host port) = some false
next true (refused host port) = none
next true closed_upstream = some false
next true relayed = some true
next true registered = some true
next true (sent ls) = some true
next true (sent_body n) = some true
next false closed_upstream = none
next false relayed = none
next false registered = none
next false (sent ls) = none
next false (sent_body n) = none
next b (replied n) = some b
next b (emitted e) = some b
next b unregistered = some b
next b (read_body n) = some b

abbrev pub after : Option Bool → List Effect → Option Bool
after none es = none
after (some b) [] = some b
after (some b) (e ∷ es) = after (next b e) es

after-append : (o : Option Bool) (xs ys : List Effect) → after o (xs ++ ys) ≡ after (after o xs) ys
after-append none xs ys = refl
after-append (some b) [] ys = refl
after-append (some b) (x ∷ xs) ys = after-append (next b x) xs ys

module _ (lib : Stdlib) (cfg : Config) (w : World) where
  after-dialled :
      (host : Text) (port : ℤ) (rest : List Effect) (o : Option Text)
      → after (some true) rest ≡ some false
      → after (some false) (elim o [
        | some e ↦ failed_effects lib w host port e
        | none ↦ opened_effects lib w host port rest
      ])
        ≡ some false
  after-dialled host port rest none h = h
  after-dialled host port rest (some e) h = refl

  after-forward :
      (host : Text) (port : ℤ) (before rest : List Effect)
      → after (some false) before ≡ some false
      → after (some true) rest ≡ some false
      → after (some false) (forward lib cfg w host port before rest) ≡ some false
  unfolding forward
  after-forward host port before rest b h = elim (Bool-cases (allowed cfg.plan host)) [
    | inl y ↦
        rw (y, after-append (some false) before _, b)
          (after-dialled host port rest (w.connect_error host port) h)
    | inr n ↦ rw n refl
  ]

  after-tunnel :
      (b : Bool)
      → after (some true) (
          if b
          then replied 200 ∷ registered ∷ relayed ∷ closed_upstream ∷ unregistered ∷ []
          else closed_upstream ∷ [])
        ≡ some false
  after-tunnel true = refl
  after-tunnel false = refl

  after-read : (n : ℕ) → after (some false) (body_effects lib read_body n) ≡ some false
  after-read zero = refl
  after-read (suc n) = refl

  after-response :
      (accepted : Bool) (n : ℕ) (rest : List Effect)
      → after (some true) (response_effects lib accepted n ++ rest) ≡ after (some true) rest
  after-response accepted zero rest = refl
  after-response true (suc n) rest = refl
  after-response false (suc n) rest = refl

  after-http :
      (b accepted : Bool) (ls : List Text) (n : ℕ)
      → after (some true) (
          (if b then sent ls ∷ response_effects lib accepted n else [])
          ++ unregistered ∷ closed_upstream ∷ [])
        ≡ some false
  after-http true accepted ls n = after-response accepted n (unregistered ∷ closed_upstream ∷ [])
  after-http false accepted ls n = refl

  after-http_effects :
      (req : Request) (u : Url) (host : Text) (port : ℤ)
      → after (some false) (http_effects lib cfg w req u host port) ≡ some false
  unfolding http_effects
  after-http_effects req u [] port = refl
  after-http_effects req u (c ∷ s) port =
      after-forward (c ∷ s) port _ _ (after-read (body_length lib req)) (
        after-http w.head_accepted w.body_accepted (request_head lib req u (c ∷ s))
          (body_length lib req))

  -- Every request uses the upstream socket in order and leaves it closed: nothing is sent, relayed
  -- or registered without an open connection, no second connection is opened, and whatever the
  -- network answers, the connection that was opened is closed.
  pub sockets_closed :
      (req : Request)
      → (after (some false) (do_connect lib cfg w req) ≡ some false)
        × (after (some false) (do_http lib cfg w req) ≡ some false)
  unfolding do_connect do_http
  sockets_closed req = elim (Bool-cases (authorized lib cfg req)) [
    | inr d ↦ rw d (refl, refl)
    | inl y ↦ (
      rw y (after-forward _ _ [] _ refl (after-tunnel w.reply_sent)),
      elim (Result-cases (lib.urlsplit req.path)) [
        | inr (x, f) ↦ rw (y, f)
        | inl (u, f) ↦ elim (Result-cases (http_target lib req u)) [
          | inr (x, g) ↦ rw (y, f, g)
          | inl ((host, port), g) ↦ rw (y, f, g) (after-http_effects req u (lower host) port)
        ]
      ],
    )
  ]

-- ===== src/Fleet/Described.antt =====
-- What holds of every server of a configuration, about `fleet.py`.
use mcp_contract.Base.{
  ◌≡◌, ◌≢◌, inl, inr, refl, sym, ◌∙◌, true, List, [], ◌∷◌, if◌then◌else◌, arith, All, subst,
  Bool-cases, Text, txt, text_eq, nat_eq, Value, null, str, obj, Fields, end, field, get_or, truthy,
  Result, ok, err, value_error, Builtins,
}
use mcp_contract.Models.{id_eq, status_eq, class_eq, observe}
use mcp_contract.Base.{bind-ok}
use mcp_contract.Models.Codec.{to_str}
use mcp_contract.Fleet.Launch.{Server, get_truthy, transport}
use mcp_contract.Fleet.Config.{
  Places, mode_of, is_remote, as_mapping, downgraded, apply_transport_downgrade, text_image,
  get_default, unpinned, build_server, build_all, from_config,
}

module _ (py : Builtins) where
  -- A server with a remote transport is only observed.
  abbrev pub IsObserved : Server → Type 0
  IsObserved s = (t : Text) → transport py s ≡ ok t → is_remote t ≡ true → s.mode ≡ observe

  -- A server in a container names its image.
  abbrev pub IsPinned : Server → Type 0
  IsPinned s = s.backend ≡ txt "docker" → s.image ≢ null

  downgraded-IsObserved :
      (s : Server) (r : Result Text) → transport py s ≡ r → IsObserved (downgraded py s r)
  unfolding transport
  downgraded-IsObserved s (err e) h t k remote = cc
  downgraded-IsObserved s (ok u) h t k remote = elim (Bool-cases (is_remote u)) [
    | inl far ↦ rw far refl
    | inr near ↦ cc (near, remote, h, k)
  ]

  apply_transport_downgrade-IsObserved : (s : Server) → IsObserved (apply_transport_downgrade py s)
  unfolding apply_transport_downgrade
  apply_transport_downgrade-IsObserved s = downgraded-IsObserved s (transport py s) refl

  downgraded-kept :
      (s : Server) (r : Result Text)
      → ((downgraded py s r).backend ≡ s.backend) × ((downgraded py s r).image ≡ s.image)
  downgraded-kept s (err e) = (refl, refl)
  downgraded-kept s (ok u) = elim (Bool-cases (is_remote u)) [
    | inl far ↦ rw far (refl, refl)
    | inr near ↦ rw near (refl, refl)
  ]

  text_image-given : (v : Value) → truthy v ≡ true → text_image py v ≢ null
  text_image-given v h = rw h (λ e. cc)

  fit_of :
      (s r : Server)
      → ok (apply_transport_downgrade py s) ≡ ok r
      → IsPinned s
      → IsObserved r × IsPinned r
  unfolding apply_transport_downgrade
  fit_of s r h p =
      let e : apply_transport_downgrade py s ≡ r = cc in
      let (b, i) = downgraded-kept s (transport py s) in
      subst (λ r. IsObserved r × IsPinned r) e
        (apply_transport_downgrade-IsObserved s, λ d. rw i (p (sym b ∙ d)))

  module _ (places : Places) where
    pinned-IsPinned :
        (backend : Text) (image pinned : Value)
        → (if unpinned py places backend image then err value_error else ok image) ≡ ok pinned
        → backend ≡ txt "docker"
        → truthy pinned ≡ true
    pinned-IsPinned backend image pinned h d = ground arith

    build_server-fit :
        (server_id : Text) (spec defaults : Fields) (base manifest_dir policy_dir source : Text)
        (s : Server)
        → build_server py places server_id spec defaults base manifest_dir policy_dir source ≡ ok s
        → IsObserved s × IsPinned s
    unfolding build_server apply_transport_downgrade
    build_server-fit server_id spec defaults base manifest_dir policy_dir source s h =
        let backend =
          to_str py (get_default py places (txt "backend") (str (txt "docker")) defaults spec) in
        let (mode, _, h1) = bind-ok (mode_of _) _ s h in
        let (launch, _, h2) =
          bind-ok (as_mapping (get_truthy (txt "launch") (obj end) spec)) _ s h1 in
        let image = get_truthy (txt "image") (get_or (txt "image") null launch) spec in
        let (pinned, pin, h3) = bind-ok _ _ s h2 in
        let (labels, _, h4) =
          bind-ok (as_mapping (get_truthy (txt "labels") (obj end) spec)) _ s h3 in
        fit_of _ s h4 (λ d. text_image-given pinned (pinned-IsPinned backend image pinned pin d))

    build_all-fit :
        (defaults : Fields) (base manifest_dir policy_dir source : Text) (specs : Fields)
        (servers : List Server)
        → build_all py places defaults base manifest_dir policy_dir source specs ≡ ok servers
        → All (λ s. IsObserved s × IsPinned s) servers
    unfolding build_all
    build_all-fit defaults base manifest_dir policy_dir source end servers h =
        let same : [] ≡ servers = cc in subst (All (λ s. IsObserved s × IsPinned s)) same tt
    build_all-fit defaults base manifest_dir policy_dir source (field k v fs) servers h =
        let (spec, _, h1) = bind-ok (as_mapping v) _ servers h in
        let (s, built, h2) =
          bind-ok (build_server py places k spec defaults base manifest_dir policy_dir source) _
            servers h1 in
        let (rest, others, h3) =
          bind-ok (build_all py places defaults base manifest_dir policy_dir source fs) _ servers
            h2 in
        let same : s ∷ rest ≡ servers = cc in
        subst (All (λ s. IsObserved s × IsPinned s)) same (
          build_server-fit k spec defaults base manifest_dir policy_dir source s built,
          build_all-fit defaults base manifest_dir policy_dir source fs rest others,
        )

    -- In a fleet that a configuration describes, a server with a remote transport is only observed,
    -- and a server in a container names its image.
    pub from_config-fit :
        (base source : Text) (document : Value) (servers : List Server)
        → from_config py places base source document ≡ ok servers
        → All (λ s. IsObserved s × IsPinned s) servers
    unfolding from_config
    from_config-fit base source document servers h =
        let (data_map, _, h1) = bind-ok (as_mapping document) _ servers h in
        let (defaults, _, h2) =
          bind-ok (as_mapping (get_truthy (txt "defaults") (obj end) data_map)) _ servers h1 in
        let (specs, _, h3) =
          bind-ok (as_mapping (get_truthy (txt "servers") (obj end) data_map)) _ servers h2 in
        build_all-fit defaults base _ _ source specs servers h3

-- ===== src/Fleet/Config.antt =====
-- `fleet.py`: the servers that a configuration describes.
use mcp_contract.Base.{
  Bool, false, not, ◌&&◌, ◌||◌, List, [], ◌∷◌, map, Option, none, some, ◌==◌, if◌then◌else◌, Text,
  txt, text_eq, nat_eq, Value, null, bool, str, obj, Fields, end, field, dict, get, get_or, truthy,
  Result, ok, err, value_error, ◌>>=◌, Builtins,
}
use mcp_contract.Models.{id_eq, status_eq, class_eq, Mode, observe, alert, enforce}
use mcp_contract.Models.Codec.{to_str}
use mcp_contract.Fleet.Launch.{Server, get_truthy, transport}

-- `pathlib`: whether a path is absolute, `str(Path(p))`, `str(directory / p)` and the stem.
pub record Places : Type 0 where
  pub is_absolute : Text → Bool
  pub to_path : Text → Text
  pub join_path : Text → Text → Text
  pub stem : Text → Text

-- `_coerce_mode`
unfoldable pub mode_of : Text → Result Mode
mode_of t =
    if t == txt "observe"
    then ok observe
    else if t == txt "alert"
    then ok alert
    else if t == txt "enforce"
    then ok enforce
    else err value_error

abbrev pub is_remote : Text → Bool
is_remote t = t == txt "http" || t == txt "sse"

-- A value that must be a mapping.
abbrev pub as_mapping : Value → Result Fields
as_mapping (obj fs) = ok fs
as_mapping v = err value_error

module _ (py : Builtins) where
  -- `_apply_transport_downgrade`
  abbrev pub downgraded : Server → Result Text → Server
  downgraded s (err e) = s
  downgraded s (ok t) = if is_remote t then record s { mode = observe } else s

  unfoldable pub apply_transport_downgrade : Server → Server
  apply_transport_downgrade s = downgraded s (transport py s)

  abbrev pub text_fields : Fields → Fields
  text_fields end = end
  text_fields (field k v fs) = field k (str (to_str py v)) (text_fields fs)

  abbrev pub text_image : Value → Value
  text_image v = if truthy v then str (to_str py v) else null

  module _ (places : Places) where
    -- `_resolve_dir`
    abbrev pub resolve_dir : Text → Value → Text
    resolve_dir base v =
        let d = to_str py v in
        if truthy v
        then (if places.is_absolute d then places.to_path d else places.join_path base d)
        else base

    -- `_resolve_artifact`
    abbrev pub resolve_artifact : Text → Value → Option Text
    resolve_artifact directory v =
        let p = to_str py v in
        if truthy v
        then some (if places.is_absolute p then places.to_path p else places.join_path directory p)
        else none

    -- `spec.get(k, defaults.get(k, default))`
    abbrev pub get_default : Text → Value → Fields → Fields → Value
    get_default k default defaults spec = get_or k (get_or k default defaults) spec

    abbrev pub unpinned : Text → Value → Bool
    unpinned backend image = backend == txt "docker" && not (truthy image)

    -- `_build_server`
    unfoldable pub build_server : Text → Fields → Fields → Text → Text → Text → Text → Result Server
    build_server server_id spec defaults base manifest_dir policy_dir source = do
      let backend = to_str py (get_default (txt "backend") (str (txt "docker")) defaults spec)
      mode ← mode_of (to_str py (get_default (txt "mode") (str (txt "observe")) defaults spec))
      launch ← as_mapping (get_truthy (txt "launch") (obj end) spec)
      let image = get_truthy (txt "image") (get_or (txt "image") null launch) spec
      pinned ← (if unpinned backend image then err value_error else ok image)
      labels ← as_mapping (get_truthy (txt "labels") (obj end) spec)
      ok (
          apply_transport_downgrade (record {
            id = server_id;
            launch = launch;
            backend = backend;
            mode = mode;
            image = text_image pinned;
            manifest_path = resolve_artifact manifest_dir (get_or (txt "manifest") null spec);
            policy_path = resolve_artifact policy_dir (get_or (txt "policy") null spec);
            events_path = resolve_artifact base (get_or (txt "events") null spec);
            egress_proxy = truthy (get_default (txt "egress_proxy") (bool false) defaults spec);
            labels = text_fields labels;
            source = some source;
          }))

    unfoldable pub build_all : Fields → Text → Text → Text → Text → Fields → Result (List Server)
    build_all defaults base manifest_dir policy_dir source end = ok []
    build_all defaults base manifest_dir policy_dir source (field k v fs) = do
      spec ← as_mapping v
      s ← build_server k spec defaults base manifest_dir policy_dir source
      servers ← build_all defaults base manifest_dir policy_dir source fs
      ok (s ∷ servers)

    -- `Fleet.from_config` on the parsed document, with the directory and the path of the file.
    unfoldable pub from_config : Text → Text → Value → Result (List Server)
    from_config base source document = do
      data_map ← as_mapping document
      defaults ← as_mapping (get_truthy (txt "defaults") (obj end) data_map)
      servers ← as_mapping (get_truthy (txt "servers") (obj end) data_map)
      let manifest_dir = resolve_dir base (get_or (txt "manifest_dir") null defaults)
      let policy_dir = resolve_dir base (get_or (txt "policy_dir") null defaults)
      build_all defaults base manifest_dir policy_dir source servers

  -- The entries of a client's configuration, and whose they are.
  abbrev pub vscode_entries : Option Value → Result (Fields × Text)
  vscode_entries (some (obj fs)) = ok (fs, txt "vscode")
  vscode_entries _ = err value_error

  abbrev pub entries_of : Fields → Option Value → Result (Fields × Text)
  entries_of data_map (some (obj fs)) = ok (fs, txt "mcp")
  entries_of data_map _ = vscode_entries (get (txt "servers") data_map)

  unfoldable pub client_servers : Text → Mode → Text → Text → Fields → Result (List Server)
  client_servers backend mode source client end = ok []
  client_servers backend mode source client (field k v fs) = do
    launch ← as_mapping v
    servers ← client_servers backend mode source client fs
    ok (
        apply_transport_downgrade (record {
          id = k;
          launch = launch;
          backend = backend;
          mode = mode;
          image = get_or (txt "image") null launch;
          manifest_path = none;
          policy_path = none;
          events_path = none;
          egress_proxy = false;
          labels = dict ((txt "source", str source) ∷ (txt "client", str client) ∷ []);
          source = some source;
        })
        ∷ servers)

  -- `Fleet.from_mcp_servers` on the parsed document.
  unfoldable pub from_mcp_servers : Text → Mode → Text → Value → Result (List Server)
  from_mcp_servers backend mode source document = do
    data_map ← as_mapping document
    (entries, client) ← entries_of data_map (get (txt "mcpServers") data_map)
    client_servers backend mode source client entries

-- `Fleet.from_manifests`
unfoldable pub from_manifests : Places → List Text → List Server
from_manifests places ps =
    map
      (λ p. record {
        id = places.stem p;
        launch = end;
        backend = txt "mock";
        mode = observe;
        image = null;
        manifest_path = some (places.to_path p);
        policy_path = none;
        events_path = none;
        egress_proxy = false;
        labels = end;
        source = some (places.to_path p);
      })
      ps

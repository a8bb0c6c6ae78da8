-- ===== src/Fleet/Secrets.antt =====
-- What the summary of a launch and its redaction keep secret, about `fleet.py`.
use mcp_contract.Base.{
  ◌≡◌, refl, sym, ap, ◌∙◌, Bool, true, false, ◌&&◌, List, [], ◌∷◌, Option, none, some,
  if◌then◌else◌, Text, txt, text_eq, nat_eq, starts_with, Value, null, obj, Fields, end, field,
  keys, put, truthy, get-put,
}
use mcp_contract.Models.{id_eq, status_eq, class_eq}
use mcp_contract.Pie.Words.{before_first}
use mcp_contract.Fleet.Launch.{Server, env_raw, keys_of, env_keys, launch_fingerprint}
use mcp_contract.Fleet.Redaction.{inline_flag, names_secret}

-- Two argument lists that differ in secrets only: in what follows a secret flag, or in what is
-- assigned to one.
pub data SameButSecrets : Bool → List Text → List Text → Type 0 where
  done : (b : Bool) → SameButSecrets b [] []
  hidden :
      (a b : Text) (as' bs : List Text)
      → SameButSecrets false as' bs
      → SameButSecrets true (a ∷ as') (b ∷ bs)
  assigned :
      (a b : Text) (as' bs : List Text)
      → (inline_flag a ≡ true) × (inline_flag b ≡ true)
      → before_first b'=' a ≡ before_first b'=' b
      → names_secret (before_first b'=' a) ≡ true
      → SameButSecrets false as' bs
      → SameButSecrets false (a ∷ as') (b ∷ bs)
  flag :
      (a : Text) (as' bs : List Text)
      → inline_flag a ≡ false
      → (starts_with a (txt "-") && names_secret a) ≡ true
      → SameButSecrets true as' bs
      → SameButSecrets false (a ∷ as') (a ∷ bs)
  same :
      (a : Text) (as' bs : List Text)
      → SameButSecrets false as' bs
      → (starts_with a (txt "-") && names_secret a) ≡ false
      → SameButSecrets false (a ∷ as') (a ∷ bs)

-- Other values for the variables of the environment.
abbrev pub revalued : (Text → Value → Value) → Fields → Fields
revalued f end = end
revalued f (field k v fs) = field k (f k v) (revalued f fs)

keys-revalued : (f : Text → Value → Value) (fs : Fields) → keys (revalued f fs) ≡ keys fs
keys-revalued f end = refl
keys-revalued f (field k v fs) = rw (keys-revalued f fs) refl

abbrev pub with_env : Server → Fields → Server
with_env s fs = record s { launch = put (txt "env") (obj fs) s.launch }

keys_of-revalued :
    (f : Text → Value → Value) (fs : Fields)
    → keys_of (if truthy (obj (revalued f fs)) then obj (revalued f fs) else obj end)
      ≡ keys_of (if truthy (obj fs) then obj fs else obj end)
keys_of-revalued f end = refl
keys_of-revalued f (field k v fs) = rw (keys-revalued f fs) refl

-- `.get("env") or {}`, once it is looked up.
abbrev env_or_empty : Option Value → Value
env_or_empty o =
    let v : Value = elim o [ some v ↦ v | none ↦ null ] in if truthy v then v else obj end

env_raw-with_env :
    (s : Server) (fs : Fields) → env_raw (with_env s fs) ≡ env_or_empty (some (obj fs))
unfolding text_eq nat_eq
env_raw-with_env s fs = ap env_or_empty (get-put (txt "env") (txt "env") (obj fs) s.launch)

env_keys-revalued :
    (s : Server) (f : Text → Value → Value) (fs : Fields)
    → env_keys (with_env s (revalued f fs)) ≡ env_keys (with_env s fs)
env_keys-revalued s f fs =
    ap keys_of (env_raw-with_env s (revalued f fs))
    ∙ keys_of-revalued f fs
    ∙ ap keys_of (sym (env_raw-with_env s fs))

-- The summary of a launch is the same whatever the values of the environment.
pub launch_fingerprint-secret :
    (s : Server) (f : Text → Value → Value) (fs : Fields)
    → launch_fingerprint (with_env s (revalued f fs)) ≡ launch_fingerprint (with_env s fs)
unfolding launch_fingerprint text_eq nat_eq
launch_fingerprint-secret s f fs =
    rw
      (
        env_keys-revalued s f fs,
        get-put (txt "command") (txt "env") (obj (revalued f fs)) s.launch,
        get-put (txt "command") (txt "env") (obj fs) s.launch,
        get-put (txt "args") (txt "env") (obj (revalued f fs)) s.launch,
        get-put (txt "args") (txt "env") (obj fs) s.launch,
        get-put (txt "url") (txt "env") (obj (revalued f fs)) s.launch,
        get-put (txt "url") (txt "env") (obj fs) s.launch,
      )
      refl

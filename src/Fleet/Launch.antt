-- ===== src/Fleet/Launch.antt =====
-- `fleet.py`: how a server is launched: its environment, the spec of the launch, and the redacted
-- summary of it.
use mcp_contract.Base.{
  ℕ, Bool, false, not, ◌||◌, List, [], ◌∷◌, ◌++◌, map, reverse, Option, none, some, ◌==◌, contains,
  if◌then◌else◌, tail, keep, nat_beq, Text, txt, text_eq, nat_eq, lower, starts_with, Value, null,
  str, arr, obj, nil, Fields, end, field, dict, list, items, keys, get, get_or, truthy, Result, ok,
  err, value_error, ◌>>=◌, Builtins,
}
use mcp_contract.Models.{
  CapabilityId, id_eq, status_eq, class_eq, Capability, Policy, granted, Mode,
}
use mcp_contract.Models.Codec.{to_str}
use mcp_contract.Proxy.Plan.{sort_texts}
use mcp_contract.Regex.{Regex, one, seq, many, opt, literal, Piece, plain, hit, pieces}
use mcp_contract.Pie.Patterns.{is_upper, is_lower, is_number}

pub record Server : Type 0 where
  pub id : Text
  pub launch : Fields
  pub backend : Text
  pub mode : Mode
  pub image : Value
  pub manifest_path : Option Text
  pub policy_path : Option Text
  pub events_path : Option Text
  pub egress_proxy : Bool
  pub labels : Fields
  pub source : Option Text

-- `urlsplit`, which gives nothing where it raises, and `urlunsplit`, as scheme, netloc, path and
-- query.
pub record Urls : Type 0 where
  pub urlsplit : Text → Option (Text × Text × Text × Text)
  pub urlunsplit : Text × Text × Text × Text → Text

abbrev pub name_start : ℕ → Bool
name_start c = is_upper c || is_lower c || nat_beq c b'_'

abbrev pub name_char : ℕ → Bool
name_char c = name_start c || is_number c

-- `_VAR_RE`
unfoldable pub var_re : Regex
unfolding is_upper is_lower is_number
var_re =
    let default = seq (literal (txt ":-")) (many (one (λ c. not (nat_beq c b'}')))) in
    seq (literal (txt "${"))
      (seq (one name_start) (seq (many (one name_char)) (seq (opt default) (literal (txt "}")))))

-- The groups of a match: the name, and the default where one is written.
unfoldable pub name_of : Text → Text
unfolding is_upper is_lower is_number
name_of [] = []
name_of (c ∷ s) = let rest = name_of s in if name_char c then c ∷ rest else []

unfoldable pub after_name : Text → Text
unfolding is_upper is_lower is_number
after_name [] = []
after_name (c ∷ s) = let rest = after_name s in if name_char c then rest else c ∷ s

abbrev pub inside : Text → Text
inside t = reverse (tail (reverse (tail (tail t))))

abbrev pub default_of : Text → Option Text
default_of t =
    let rest = after_name (inside t) in
    if starts_with rest (txt ":-") then some (tail (tail rest)) else none

-- What expansion yields: a value, the name of the variable that has none, or `ValueError`.
pub data Expanded (A : Type 0) : Type 0 where
  expanded : A → Expanded A
  unresolved : Text → Expanded A
  malformed : Expanded A

abbrev pub then_with : {A B : Type 0} → Expanded A → (A → Expanded B) → Expanded B
then_with (expanded a) f = f a
then_with (unresolved var) f = unresolved var
then_with malformed f = malformed

-- `_sub`; a variable that is set to the empty text counts as unset.
abbrev pub or_default : Text → Option Text → Expanded Text
or_default var (some default) = expanded default
or_default var none = unresolved var

abbrev pub current_or : Text → Option Text → Option Text → Expanded Text
current_or var (some (c ∷ s)) default = expanded (c ∷ s)
current_or var _ default = or_default var default

module _ (environ : Text → Option Text) where
  abbrev pub substitute : Text → Expanded Text
  substitute t = let var = name_of (inside t) in current_or var (environ var) (default_of t)

  unfoldable pub expand_pieces : List Piece → Expanded Text
  expand_pieces [] = expanded []
  expand_pieces (plain c ∷ ps) = then_with (expand_pieces ps) (λ s. expanded (c ∷ s))
  expand_pieces (hit t rest ∷ ps) =
      then_with (substitute t) (λ v. then_with (expand_pieces ps) (λ s. expanded (v ++ s)))

  -- `_expand_env_value`
  unfoldable pub expand_env_value : Text → Expanded Text
  expand_env_value value = expand_pieces (pieces var_re none 0 value)

-- `launch.get(k) or default`
abbrev pub get_truthy : Text → Value → Fields → Value
get_truthy k default launch = let v = get_or k null launch in if truthy v then v else default

abbrev pub env_raw : Server → Value
env_raw s = get_truthy (txt "env") (obj end) s.launch

abbrev pub keys_of : Value → List Text
keys_of (obj fs) = sort_texts (keys fs)
keys_of v = []

-- `env_keys`
abbrev pub env_keys : Server → List Text
env_keys s = keys_of (env_raw s)

abbrev pub given : Text → Option Value → List (Text × Value)
given k none = []
given k (some null) = []
given k (some v) = (k, v) ∷ []

-- `launch_fingerprint`
unfoldable pub launch_fingerprint : Server → Fields
launch_fingerprint s = dict (
    (if truthy s.image then (txt "image", s.image) ∷ [] else [])
    ++ (given (txt "command") (get (txt "command") s.launch)
        ++ (given (txt "args") (get (txt "args") s.launch)
            ++ (given (txt "url") (get (txt "url") s.launch)
                ++ (txt "env_keys", arr (list (map str (env_keys s)))) ∷ []))))

-- The granted keys: none, all, or those named.
abbrev pub env_allowed : Option Capability → Text → Bool
env_allowed none k = false
env_allowed (some c) k = contains c.values (txt "*") || contains c.values k

module _ (py : Builtins) where
  -- `transport`
  abbrev pub alias_of : Text → Text
  alias_of t = if t == txt "streamable-http" || t == txt "streamablehttp" then txt "http" else t

  unfoldable pub transport : Server → Result Text
  transport s =
      let raw = get_or (txt "transport") null s.launch in
      if truthy raw
      then ok (alias_of (lower (to_str py raw)))
      else if truthy (get_or (txt "command") null s.launch)
      then ok (txt "stdio")
      else err value_error

  unfoldable pub resolve_fields : (Text → Option Text) → Fields → Expanded (List (Text × Text))
  resolve_fields environ end = expanded []
  resolve_fields environ (field k v fs) =
      then_with (expand_env_value environ (to_str py v))
        (λ value. then_with (resolve_fields environ fs) (λ rest. expanded ((k, value) ∷ rest)))

  -- `resolved_env`
  abbrev pub resolve_value : (Text → Option Text) → Value → Expanded (List (Text × Text))
  resolve_value environ (obj fs) = resolve_fields environ fs
  resolve_value environ v = malformed

  unfoldable pub resolved_env : (Text → Option Text) → Server → Expanded (List (Text × Text))
  resolved_env environ s = resolve_value environ (env_raw s)

  abbrev pub args_of : Value → List Text
  args_of (arr vs) = map (to_str py) (items vs)
  args_of v = []

  abbrev pub argv : Server → List Text
  argv s =
      let command = get_or (txt "command") null s.launch in
      (if truthy command then to_str py command ∷ [] else [])
      ++ args_of (get_truthy (txt "args") (arr nil) s.launch)

-- `ServerSpec`, as far as a fleet fills it.
pub record Spec : Type 0 where
  pub server_id : Text
  pub image : Value
  pub command : List Text
  pub env : List (Text × Text)
  pub workdir : Value
  pub source : Option Text
  pub transport : Text
  pub labels : Fields
  pub launch_fingerprint : Fields

-- `to_server_spec`, once the environment is resolved.
unfoldable pub spec_with : Builtins → Server → Policy → List (Text × Text) → Result Spec
spec_with py s policy resolved = do
  t ← transport py s
  ok (record {
    server_id = s.id;
    image = s.image;
    command = argv py s;
    env = keep (λ (k, v). env_allowed (granted policy CapabilityId.env) k) resolved;
    workdir = get_or (txt "cwd") null s.launch;
    source = s.source;
    transport = t;
    labels = s.labels;
    launch_fingerprint = launch_fingerprint s;
  })

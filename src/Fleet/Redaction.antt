-- ===== src/Fleet/Redaction.antt =====
-- `fleet.py`: the redaction of the summary of a launch.
use mcp_contract.Base.{
  Bool, true, false, ◌&&◌, List, [], ◌∷◌, ◌++◌, map, Option, none, some, ◌==◌, contains,
  if◌then◌else◌, is_empty, is_some, Text, txt, text_eq, nat_eq, starts_with, Value, str, arr, obj,
  Fields, end, field, list, items, keys, get, put, put_default, Builtins,
}
use mcp_contract.Models.{id_eq, status_eq, class_eq}
use mcp_contract.Models.Codec.{to_str}
use mcp_contract.Proxy.Plan.{sort_texts}
use mcp_contract.Regex.{Regex, seq, alt, opt, one, word, any_word, first_match}
use mcp_contract.Pie.Words.{last_part, before_first}
use mcp_contract.Fleet.Launch.{Urls}

-- `[-_]?`
abbrev dash : Regex
dash = opt (one (λ c. contains (txt "-_") c))

-- `_SECRET_FLAG_RE`
unfoldable pub secret_flag_re : Regex
secret_flag_re =
    let password =
      seq (word (txt "passw"))
        (seq (opt (word (txt "o"))) (seq (opt (word (txt "r"))) (word (txt "d")))) in
    alt (word (txt "token")) (
      alt (seq (word (txt "api")) (seq dash (word (txt "key")))) (
        alt (word (txt "secret")) (
          alt password (
            alt (word (txt "pwd")) (
              alt (seq (word (txt "access")) (seq dash (word (txt "token"))))
                (any_word (txt "auth") (txt "bearer" ∷ txt "credential" ∷ [])))))))

abbrev pub names_secret : Text → Bool
names_secret t = is_some (first_match secret_flag_re t)

abbrev pub inline_flag : Text → Bool
inline_flag s = starts_with s (txt "-") && contains s b'='

-- `_redact_args`, the flag `redact_next` first.
unfoldable pub redact_args : Bool → List Text → List Text
redact_args true (a ∷ as') = txt "REDACTED" ∷ redact_args false as'
redact_args false (s ∷ as') =
    let plain_rest = redact_args false as' in
    let secret_rest = redact_args true as' in
    let flag = before_first b'=' s in
    if inline_flag s
    then (if names_secret flag then flag ++ txt "=REDACTED" else s) ∷ plain_rest
    else if starts_with s (txt "-") && names_secret s
    then s ∷ secret_rest
    else s ∷ plain_rest
redact_args _ [] = []

-- `_redact_url`
abbrev pub redact_parts : Urls → Option (Text × Text × Text × Text) → Text
redact_parts urls none = txt "<redacted-url>"
redact_parts urls (some (scheme, netloc, path, query)) =
    urls.urlunsplit
      (scheme, last_part b'@' netloc, path, if is_empty query then [] else txt "REDACTED")

unfoldable pub redact_url : Urls → Text → Text
redact_url urls url = redact_parts urls (urls.urlsplit url)

abbrev pub without : Text → Fields → Fields
without k end = end
without k (field j v fs) = if k == j then without k fs else field j v (without k fs)

module _ (py : Builtins) (urls : Urls) where
  abbrev pub env_named : Option Value → Fields → Fields
  env_named (some (obj env_map)) out =
      put_default (txt "env_keys") (arr (list (map str (sort_texts (keys env_map))))) out
  env_named _ out = out

  abbrev pub url_redacted : Option Value → Fields → Fields
  url_redacted (some (str url)) out = put (txt "url") (str (redact_url urls url)) out
  url_redacted _ out = out

  abbrev pub args_redacted : Option Value → Fields → Fields
  args_redacted (some (arr vs)) out =
      put (txt "args") (arr (list (map str (redact_args false (map (to_str py) (items vs)))))) out
  args_redacted _ out = out

  -- `_redacted_fingerprint`
  unfoldable pub redacted_fingerprint : Fields → Fields
  redacted_fingerprint fp =
      let out = env_named (get (txt "env") fp) (without (txt "env") fp) in
      let out' = url_redacted (get (txt "url") out) out in
      args_redacted (get (txt "args") out') out'

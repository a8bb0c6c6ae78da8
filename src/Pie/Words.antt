-- ===== src/Pie/Words.antt =====
-- `pie/classifier.py`: the words, parameters and literals of a tool.
use mcp_contract.Base.{
  ℕ, Bool, not, ◌&&◌, ◌||◌, List, [], ◌∷◌, ◌++◌, map, reverse, Option, none, some, contains,
  if◌then◌else◌, is_empty, tail, keep, any, all, nat_beq, is_some, Text, txt, text_eq, nat_eq,
  lower, starts_with, Value, obj, Fields, end, field, get,
}
use mcp_contract.Models.{
  CapabilityId, CapabilityStatus, id_eq, status_eq, class_eq, Evidence, Capability, ToolIr,
}
use mcp_contract.Proxy.Plan.{sort_texts}
use mcp_contract.Regex.{Regex, one, seq, alt, many, not_ahead, plus, find_all, first_match, sub}
use mcp_contract.Pie.Patterns.{
  Unicode, is_upper, is_lower, is_number, net_param_re, url_re, hostname_re, net_verb_re,
}

abbrev pub file_extensions : List Text
file_extensions = map txt (
    "avro" ∷ "bak" ∷ "bash" ∷ "bin" ∷ "c" ∷ "cc" ∷ "cfg" ∷ "conf" ∷ "cpp" ∷ "cs" ∷ "css" ∷ "csv"
    ∷ "dat" ∷ "db" ∷ "dll" ∷ "doc" ∷ "docx" ∷ "env" ∷ "exe" ∷ "feather" ∷ "gif" ∷ "go" ∷ "gz" ∷ "h"
    ∷ "htm" ∷ "html" ∷ "ini" ∷ "ipynb" ∷ "java" ∷ "jpeg" ∷ "jpg" ∷ "js" ∷ "json" ∷ "jsonl" ∷ "jsx"
    ∷ "lock" ∷ "log" ∷ "md" ∷ "npy" ∷ "npz" ∷ "onnx" ∷ "parquet" ∷ "pdf" ∷ "pkl" ∷ "png" ∷ "pth"
    ∷ "py" ∷ "rb" ∷ "rs" ∷ "rst" ∷ "safetensors" ∷ "sh" ∷ "so" ∷ "sql" ∷ "sqlite" ∷ "svg" ∷ "tar"
    ∷ "tmp" ∷ "toml" ∷ "ts" ∷ "tsx" ∷ "tsv" ∷ "txt" ∷ "wasm" ∷ "whl" ∷ "xls" ∷ "xlsx" ∷ "xml"
    ∷ "yaml" ∷ "yml" ∷ "zip" ∷ [])

abbrev pub known_tlds : List Text
known_tlds = map txt (
    "at" ∷ "au" ∷ "be" ∷ "biz" ∷ "br" ∷ "ca" ∷ "cc" ∷ "ch" ∷ "cloud" ∷ "cn" ∷ "co" ∷ "com" ∷ "de"
    ∷ "dev" ∷ "dk" ∷ "edu" ∷ "es" ∷ "eu" ∷ "fi" ∷ "fr" ∷ "gov" ∷ "ie" ∷ "in" ∷ "info" ∷ "int" ∷ "io"
    ∷ "it" ∷ "jp" ∷ "kr" ∷ "me" ∷ "mil" ∷ "net" ∷ "nl" ∷ "no" ∷ "nz" ∷ "org" ∷ "pl" ∷ "se" ∷ "tech"
    ∷ "tv" ∷ "uk" ∷ "us" ∷ [])

abbrev pub net_name_tokens : List Text
net_name_tokens = map txt (
    "fetch" ∷ "download" ∷ "http" ∷ "https" ∷ "api" ∷ "request" ∷ "requests" ∷ "webhook" ∷ "scrape"
    ∷ "crawl" ∷ [])

abbrev pub fs_name_tokens : List Text
fs_name_tokens = map txt (
    "file" ∷ "files" ∷ "filename" ∷ "filepath" ∷ "dir" ∷ "directory" ∷ "directories" ∷ "folder"
    ∷ "folders" ∷ "path" ∷ "paths" ∷ [])

abbrev pub read_verbs : List Text
read_verbs =
    map txt
      ("read" ∷ "get" ∷ "list" ∷ "view" ∷ "cat" ∷ "open" ∷ "stat" ∷ "search" ∷ "glob" ∷ "load" ∷ [])

abbrev pub write_verbs : List Text
write_verbs = map txt (
    "write" ∷ "create" ∷ "save" ∷ "delete" ∷ "remove" ∷ "move" ∷ "copy" ∷ "append" ∷ "edit"
    ∷ "mkdir" ∷ "rename" ∷ [])

abbrev pub moveish_verbs : List Text
moveish_verbs = map txt ("move" ∷ "copy" ∷ [])

abbrev pub proc_name_tokens : List Text
proc_name_tokens = map txt (
    "exec" ∷ "execute" ∷ "shell" ∷ "bash" ∷ "command" ∷ "commands" ∷ "cmd" ∷ "terminal"
    ∷ "subprocess" ∷ "spawn" ∷ "script" ∷ "scripts" ∷ [])

-- `re.split(r"[^0-9A-Za-z]+", name)`; each other character ends a part, and an empty part holds no
-- token.
unfoldable pub name_parts : Text → Text → List Text
name_parts cur [] = cur ∷ []
name_parts cur (c ∷ s) =
    let closed = cur ∷ name_parts [] s in
    let longer = name_parts (cur ++ c ∷ []) s in
    if is_upper c || is_lower c || is_number c then longer else closed

-- `[A-Z]+(?![a-z])|[A-Z][a-z0-9]*|[a-z0-9]+`
unfoldable pub token_re : Regex
token_re = alt (seq (plus (one is_upper)) (not_ahead is_lower)) (
    alt (seq (one is_upper) (many (one (λ c. is_lower c || is_number c))))
      (plus (one (λ c. is_lower c || is_number c))))

-- `_name_tokens`, in the order of the name.
unfoldable pub part_tokens : List Text → List Text
part_tokens [] = []
part_tokens (p ∷ ps) = map lower (find_all token_re p) ++ part_tokens ps

unfoldable pub name_tokens : Text → List Text
name_tokens name = part_tokens (name_parts [] name)

-- `sorted(tokens & words)[0]`, where there is one.
abbrev pub first_hit : List Text → Option Text
first_hit [] = none
first_hit (t ∷ ts) = some t

unfoldable pub name_hit : List Text → Text → Option Text
name_hit words name = first_hit (sort_texts (keep (contains words) (name_tokens name)))

abbrev pub noted : Text → Text → Text → Evidence
noted tool source detail = record { tool = tool; source = source; detail = detail }

abbrev pub quoted : Text → Text → Text → Text
quoted before t after = before ++ (t ++ after)

-- The evidence for a hit, where there is one.
abbrev pub note_hit : Option Text → (Text → Evidence) → List Evidence
note_hit none f = []
note_hit (some t) f = f t ∷ []

abbrev pub signal : CapabilityId → CapabilityStatus → List Text → List Evidence → Capability
signal cap_id status values evidence = record {
  id = cap_id;
  status = status;
  values = values;
  evidence = evidence;
}

-- `_dedupe_add`
unfoldable pub dedupe_add : List Text → Text → List Text
dedupe_add values v = if is_empty v || contains values v then values else values ++ v ∷ []

-- `s.rsplit(c, 1)[-1]`
unfoldable pub last_part : ℕ → Text → Text
last_part c [] = []
last_part c (d ∷ s) = if contains s c then last_part c s else if nat_beq d c then s else d ∷ s

-- `s.rsplit(c, 1)[0]`
unfoldable pub before_last : ℕ → Text → Text
before_last c [] = []
before_last c (d ∷ s) =
    let rest = before_last c s in
    if contains s c then d ∷ rest else if nat_beq d c then [] else d ∷ s

-- `s.split(c, 1)[0]`
unfoldable pub before_first : ℕ → Text → Text
before_first c [] = []
before_first c (d ∷ s) = let rest = before_first c s in if nat_beq d c then [] else d ∷ rest

-- What follows `://`, or the whole.
unfoldable pub after_scheme : Text → Option Text
after_scheme [] = none
after_scheme (c ∷ s) =
    let rest = after_scheme s in
    if starts_with (c ∷ s) (txt "://") then some (tail (tail s)) else rest

abbrev pub or_whole : Option Text → Text → Text
or_whole none url = url
or_whole (some rest) url = rest

-- `s.strip(".")`
unfoldable pub lstrip_dots : Text → Text
lstrip_dots [] = []
lstrip_dots (c ∷ s) = let rest = lstrip_dots s in if nat_beq c b'.' then rest else c ∷ s

abbrev pub rstrip_dots : Text → Text
rstrip_dots s = reverse (lstrip_dots (reverse s))

abbrev pub label_of : Text → Text
label_of host = last_part b'.' host

-- `_params`
abbrev pub schema_of : Value → Fields
schema_of (obj fs) = fs
schema_of v = end

unfoldable pub param_list : Fields → List (Text × Fields)
param_list end = []
param_list (field k v fs) = (k, schema_of v) ∷ param_list fs

abbrev pub params_of : Option Value → List (Text × Fields)
params_of (some (obj fs)) = param_list fs
params_of _ = []

abbrev pub params : ToolIr → List (Text × Fields)
params tool = params_of (get (txt "properties") tool.input_schema)

abbrev pub found : Option Text → Bool
found = is_some

module _ (u : Unicode) where
  -- `_has_port`
  abbrev pub has_port : Text → Bool
  has_port netloc =
      contains netloc b':'
      && (let port = last_part b':' netloc in not (is_empty port) && all u.is_digit port)

  -- `_host_from_url`
  unfoldable pub host_from_url : Text → Text
  host_from_url url =
      let netloc = last_part b'@' (before_first b'/' (or_whole (after_scheme url) url)) in
      let host = if has_port netloc then before_last b':' netloc else netloc in
      lower (rstrip_dots (lstrip_dots host))

  -- The description with its URLs blanked out.
  unfoldable pub stripped : ToolIr → Text
  stripped tool = sub (url_re u) (txt " ") tool.description

  -- The hostname literals outside of URLs, in small letters.
  unfoldable pub hostnames : ToolIr → List Text
  hostnames tool = map lower (find_all (hostname_re u) (stripped tool))

  -- `_net_context`, on the stripped description.
  unfoldable pub net_context : ToolIr → Bool
  net_context tool =
      found (first_match (url_re u) tool.description)
      || (found (first_match (net_verb_re u) (stripped tool))
          || (any (λ h. not (contains file_extensions (label_of h))) (hostnames tool)
              || (any (λ (p, _). found (first_match net_param_re p)) (params tool)
                  || found (name_hit net_name_tokens tool.name))))

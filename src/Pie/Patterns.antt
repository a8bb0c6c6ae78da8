-- ===== src/Pie/Patterns.antt =====
-- `pie/classifier.py`: the patterns and word lists of the rules.
use mcp_contract.Base.{
  ℕ, Bool, not, ◌&&◌, ◌||◌, [], ◌∷◌, map, contains, leb, nat_beq, Text, txt, text_eq, nat_eq,
}
use mcp_contract.Regex.{
  Regex, one, seq, alt, many, not_behind, not_ahead, edge, opt, plus, word, literal, any_word, fold,
}

-- The classes of characters that Python takes from the Unicode data.
pub record Unicode : Type 0 where
  pub is_word : ℕ → Bool
  pub is_space : ℕ → Bool
  pub is_digit : ℕ → Bool

abbrev between : ℕ → ℕ → ℕ → Bool
between lo hi c = leb lo c && leb c hi

unfoldable pub is_upper : ℕ → Bool
is_upper c = between b'A' b'Z' c

unfoldable pub is_lower : ℕ → Bool
is_lower c = between b'a' b'z' c

unfoldable pub is_number : ℕ → Bool
is_number c = between b'0' b'9' c

-- `[a-z]`, `[a-z0-9]` and `[a-z0-9\-]` in any case.
unfoldable pub is_letter : ℕ → Bool
unfolding is_lower
is_letter c = is_lower (fold c)

unfoldable pub is_alnum : ℕ → Bool
unfolding is_letter is_number
is_alnum c = is_letter c || is_number c

unfoldable pub is_host_char : ℕ → Bool
unfolding is_alnum
is_host_char c = is_alnum c || nat_beq c b'-'

-- `[A-Za-z0-9._~\-]`
unfoldable pub is_path_char : ℕ → Bool
unfolding is_upper is_lower is_number
is_path_char c = is_upper c || is_lower c || is_number c || contains (txt "._~-") c

unfoldable pub is_var_char : ℕ → Bool
unfolding is_upper is_number
is_var_char c = is_upper c || is_number c || nat_beq c b'_'

abbrev char : ℕ → Regex
char c = one (λ d. nat_beq d c)

abbrev opt_word : Text → Regex
opt_word w = opt (word w)

-- `\b(?:...)(?:...)?\b`
abbrev whole : (ℕ → Bool) → Regex → Regex
whole is_word r = seq (edge is_word) (seq r (edge is_word))

abbrev with_ending : Regex → Regex → Regex
with_ending r e = seq r (opt e)

unfoldable pub net_param_re : Regex
net_param_re =
    any_word (txt "url")
      (map txt ("uri" ∷ "link" ∷ "endpoint" ∷ "host" ∷ "domain" ∷ "address" ∷ []))

unfoldable pub fs_param_re : Regex
fs_param_re = any_word (txt "path") (
    map txt (
      "file" ∷ "filename" ∷ "filepath" ∷ "dir" ∷ "directory" ∷ "folder" ∷ "dest" ∷ "destination"
      ∷ []))

module _ (u : Unicode) where
  -- `_URL_RE`
  unfoldable pub url_re : Regex
  url_re = seq (word (txt "http")) (
      seq (opt_word (txt "s")) (
        seq (word (txt "://"))
          (plus (one (λ c. not (u.is_space c) && not (contains (txt "'\"<>()[],;") c))))))

  -- `_HOSTNAME_RE`; the group is the whole match.
  unfoldable pub hostname_re : Regex
  hostname_re =
      let label =
        seq (one is_alnum) (seq (opt (seq (many (one is_host_char)) (one is_alnum))) (char b'.')) in
      seq (not_behind (λ c. u.is_word c || contains (txt ".-/@") c)) (
        seq (plus label) (
          seq (seq (one is_letter) (plus (one is_letter)))
            (not_ahead (λ c. u.is_word c || nat_beq c b'-'))))

  unfoldable pub net_verb_re : Regex
  net_verb_re =
      alt
        (whole u.is_word (
          with_ending
            (alt (any_word (txt "fetch") (txt "download" ∷ [])) (
              alt (seq (word (txt "http")) (opt_word (txt "s")))
                (any_word (txt "api") (map txt ("request" ∷ "webhook" ∷ "scrape" ∷ "crawl" ∷ [])))))
            (any_word (txt "s") (map txt ("es" ∷ "ed" ∷ "ing" ∷ [])))))
        (whole u.is_word (
          seq (with_ending (word (txt "post")) (any_word (txt "s") (map txt ("ed" ∷ "ing" ∷ []))))
            (seq (plus (one u.is_space)) (word (txt "to")))))

  unfoldable pub read_verb_re : Regex
  read_verb_re = whole u.is_word (
      with_ending
        (any_word (txt "read") (
          map txt
            ("get" ∷ "list" ∷ "view" ∷ "cat" ∷ "open" ∷ "stat" ∷ "search" ∷ "glob" ∷ "load" ∷ [])))
        (any_word (txt "s") (map txt ("ed" ∷ "ing" ∷ []))))

  unfoldable pub write_verb_re : Regex
  write_verb_re = whole u.is_word (
      with_ending
        (any_word (txt "write") (
          map txt (
            "create" ∷ "save" ∷ "delete" ∷ "remove" ∷ "move" ∷ "copy" ∷ "append" ∷ "edit" ∷ "mkdir"
            ∷ "rename" ∷ [])))
        (any_word (txt "s") (map txt ("d" ∷ "ed" ∷ "ing" ∷ []))))

  unfoldable pub moveish_re : Regex
  moveish_re = whole u.is_word (
      with_ending (any_word (txt "move") (txt "copy" ∷ []))
        (any_word (txt "s") (map txt ("d" ∷ "ed" ∷ "ing" ∷ []))))

  -- `_PATH_RE`; the group is the whole match.
  unfoldable pub path_re : Regex
  path_re =
      let segment = plus (one is_path_char) in
      seq (not_behind (λ c. u.is_word c || contains (txt ".:") c))
        (seq (alt (char b'/') (literal (txt "./"))) (seq segment (many (seq (char b'/') segment))))

  unfoldable pub proc_re : Regex
  proc_re =
      let exec = seq (word (txt "exec")) (
        opt (
          seq (word (txt "ut")) (
            alt (seq (word (txt "e")) (opt (one (λ c. contains (txt "sd") (fold c)))))
              (word (txt "ing"))))) in
      let spawn =
        with_ending (word (txt "spawn")) (any_word (txt "s") (map txt ("ed" ∷ "ing" ∷ []))) in
      let words =
        any_word (txt "shell")
          (map txt ("bash" ∷ "command" ∷ "cmd" ∷ "terminal" ∷ "subprocess" ∷ [])) in
      seq (edge u.is_word) (
        seq (alt exec (alt words (alt spawn (word (txt "script")))))
          (seq (opt_word (txt "s")) (edge u.is_word)))

  unfoldable pub env_phrase_re : Regex
  env_phrase_re =
      let plural = λ (w : Text). seq (word w) (opt_word (txt "s")) in
      let api_key = seq (word (txt "api")) (
        seq (opt (one (λ c. contains (txt " _-") c)))
          (seq (word (txt "key")) (opt_word (txt "s")))) in
      whole u.is_word (
        alt api_key (
          alt (plural (txt "token")) (
            alt (plural (txt "credential")) (
              alt (plural (txt "secret"))
                (alt (plural (txt "environment variable")) (plural (txt "env var")))))))

  unfoldable pub env_var_re : Regex
  env_var_re =
      let suffix =
        alt (literal (txt "_TOKEN")) (alt (literal (txt "_KEY")) (literal (txt "_SECRET"))) in
      whole u.is_word (
        alt (seq (one is_upper) (seq (many (one is_var_char)) suffix))
          (seq (literal (txt "API_")) (plus (one is_var_char))))

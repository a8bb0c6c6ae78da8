-- ===== src/Regex.antt =====
-- Regular expressions as Python's `re` matches them: greedy, by backtracking, from left to right.
use mcp_contract.Base.{
  ℕ, zero, suc, ◌+◌, ◌-◌, ◌<◌, ◌≤◌, ◌≡◌, ◌≢◌, ◌↔◌, ◌⊎◌, inl, inr, refl, sym, ap, ◌∙◌, Bool, true,
  false, not, ◌&&◌, ◌||◌, List, [], ◌∷◌, ◌++◌, map, reverse, append-nil, append_assoc, Option, none,
  some, Eq, ◌==◌, contains, if◌then◌else◌, length, take, is_empty, tail, keep, any, all, leb,
  nat_beq, arith, In, In-append, length-append, Distinct, All, All-append, All-at, contains_iff,
  eq_refl, eq_sym, or_false, add_new, add_all, In-add_new, In-add_all, add_new-Distinct,
  add_all-Distinct, ℤ, pos, negsuc, subst, Bool-cases, Option-cases, is_some, Text, txt, text_eq,
  nat_eq, lower, lower_code, starts_with, ends_with, split, split_from, join, starts_with_iff,
  ends_with_iff, Value, null, bool, int, float, str, arr, obj, Items, nil, cons, Fields, end, field,
  dict, list, items, keys, get, get_or, has, put, put_default, truthy, to_text, items-list, get-put,
  Result, ok, err, Exception, value_error, key_error, type_error, attribute_error, overflow_error,
  os_error, ◌>>=◌, Result-cases, IsKnown, Raises, Raises->>=, item-Raises, dict_of-Raises, traverse,
  traverse-map, item, iterate, dict_of, Builtins,
}
pub mod Laws
pub mod Matches

-- A place in a text: the character before it and the text after it.
pub data Regex : Type 0 where
  blank : Regex
  one : (ℕ → Bool) → Regex
  seq alt : Regex → Regex → Regex
  many : Regex → Regex
  not_behind not_ahead : (ℕ → Bool) → Regex
  edge : (ℕ → Bool) → Regex

abbrev pub is_behind : (ℕ → Bool) → Option ℕ → Bool
is_behind p none = false
is_behind p (some c) = p c

abbrev pub is_ahead : (ℕ → Bool) → Text → Bool
is_ahead p [] = false
is_ahead p (c ∷ s) = p c

-- `\b`: a word character on one side only.
abbrev pub at_edge : (ℕ → Bool) → Option ℕ → Text → Bool
at_edge p b s = if is_behind p b then not (is_ahead p s) else is_ahead p s

-- What is left of the text where a whole match ends.
abbrev pub Next : Type 0
Next = Option ℕ → Text → Option Text

abbrev pub one_char : (ℕ → Bool) → Text → Next → Option Text
one_char p [] k = none
one_char p (c ∷ s) k = if p c then k (some c) s else none

abbrev pub shorter : Text → Text → Bool
shorter s t = leb (suc (length s)) (length t)

-- As many rounds as can be, each of which reads something; then what follows.
unfoldable pub rounds :
    (Option ℕ → Text → Next → Option Text) → ℕ → Option ℕ → Text → Next → Option Text
rounds m zero b s k = k b s
rounds m (suc n) b s k = elim (m b s (λ b' s'. if shorter s' s then rounds m n b' s' k else none)) [
  | some t ↦ some t
  | none ↦ k b s
]

unfoldable pub run : Regex → Option ℕ → Text → Next → Option Text
run blank b s k = k b s
run (one p) b s k = one_char p s k
run (seq r q) b s k = run r b s (λ b' s'. run q b' s' k)
run (alt r q) b s k = elim (run r b s k) [ some t ↦ some t | none ↦ run q b s k ]
run (many r) b s k = rounds (run r) (length s) b s k
run (not_behind p) b s k = if is_behind p b then none else k b s
run (not_ahead p) b s k = if is_ahead p s then none else k b s
run (edge p) b s k = if at_edge p b s then k b s else none

-- `r.match` at a place: what is left after the match.
abbrev pub match_at : Regex → Option ℕ → Text → Option Text
match_at r b s = run r b s (λ _ rest. some rest)

-- A text cut into the matches, each with what follows it, and the characters between them.
pub data Piece : Type 0 where
  plain : ℕ → Piece
  hit : Text → Text → Piece

-- The number of characters of `s` before its end `rest`.
abbrev pub span : Text → Text → ℕ
span s rest = length s - length rest

-- `skip` characters still belong to the last match. The program's patterns match no empty text.
unfoldable pub pieces : Regex → Option ℕ → ℕ → Text → List Piece
pieces r b skip [] = []
pieces r b (suc skip) (c ∷ s) = pieces r (some c) skip s
pieces r b zero (c ∷ s) = elim (match_at r b (c ∷ s)) [
  | none ↦ plain c ∷ pieces r (some c) 0 s
  | some rest ↦
      hit (take (span (c ∷ s) rest) (c ∷ s)) rest ∷ pieces r (some c) (span (c ∷ s) rest - 1) s
]

abbrev pub hits_of : List Piece → List (Text × Text)
hits_of [] = []
hits_of (plain c ∷ ps) = hits_of ps
hits_of (hit t rest ∷ ps) = (t, rest) ∷ hits_of ps

-- `r.finditer(s)`: each match with what follows it.
abbrev pub find_iter : Regex → Text → List (Text × Text)
find_iter r s = hits_of (pieces r none 0 s)

abbrev pub find_all : Regex → Text → List Text
find_all r s = map (λ (t, rest). t) (find_iter r s)

abbrev replaced : Text → List Piece → Text
replaced by [] = []
replaced by (plain c ∷ ps) = c ∷ replaced by ps
replaced by (hit t rest ∷ ps) = by ++ replaced by ps

-- `r.sub(by, s)`
abbrev pub sub : Regex → Text → Text → Text
sub r by s = replaced by (pieces r none 0 s)

-- `r.search(s)`: the first match.
unfoldable pub search_from : Regex → Option ℕ → Text → Option Text
search_from r b [] = elim (match_at r b []) [ none ↦ none | some rest ↦ some [] ]
search_from r b (c ∷ s) = elim (match_at r b (c ∷ s)) [
  | none ↦ search_from r (some c) s
  | some rest ↦ some (take (span (c ∷ s) rest) (c ∷ s))
]

abbrev pub first_match : Regex → Text → Option Text
first_match r s = search_from r none s

-- How the patterns of the program are written.
abbrev pub opt : Regex → Regex
opt r = alt r blank

abbrev pub plus : Regex → Regex
plus r = seq r (many r)

-- The letters that `re.IGNORECASE` takes for one another.
unfoldable pub fold : ℕ → ℕ
fold c =
    if leb b'A' c && leb c b'Z'
    then c + 32
    else if nat_beq c 0x130 || nat_beq c 0x131
    then b'i'
    else if nat_beq c 0x17f
    then b's'
    else if nat_beq c 0x212a
    then b'k'
    else c

-- A word of small letters, in any case.
unfoldable pub word : Text → Regex
word [] = blank
word (c ∷ s) = seq (one (λ d. nat_beq (fold d) c)) (word s)

unfoldable pub literal : Text → Regex
literal [] = blank
literal (c ∷ s) = seq (one (λ d. nat_beq d c)) (literal s)

unfoldable pub any_word : Text → List Text → Regex
any_word w [] = word w
any_word w (v ∷ ws) = alt (word w) (any_word v ws)

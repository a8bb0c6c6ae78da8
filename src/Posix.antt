-- ===== src/Posix.antt =====
-- Python's `posixpath.normpath` and `posixpath.basename`, and `str.split` at white space, which
-- src/mcp_contract/bcm/diff.py calls.
pub mod Under
use mcp_contract.Base.{
  ℕ, zero, suc, ◌+◌, ◌-◌, ◌<◌, ◌≤◌, ◌≡◌, ◌≢◌, ◌↔◌, ◌⊎◌, inl, inr, refl, sym, ap, ◌∙◌, Bool, true,
  false, not, ◌&&◌, ◌||◌, List, [], ◌∷◌, ◌++◌, map, reverse, append-nil, append_assoc, Option, none,
  some, Eq, ◌==◌, contains, if◌then◌else◌, length, take, is_empty, tail, keep, any, all, leb,
  nat_beq, arith, In, In-append, Distinct, All, All-append, All-at, contains_iff, eq_refl,
  Bool-cases, Option-cases, is_some, Text, txt, text_eq, nat_eq, lower, lower_code, starts_with,
  ends_with, split, split_from, join, starts_with_iff, ends_with_iff, Value, null, bool, int, float,
  str, arr, obj, Items, nil, cons, Fields, end, field, dict, list, items, keys, get, get_or, has,
  put, put_default, truthy, to_text, items-list, get-put, Result, ok, err, Exception, value_error,
  key_error, type_error, attribute_error, os_error, ◌>>=◌, Result-cases, traverse, traverse-map,
  item, iterate, dict_of, Builtins,
}

abbrev pub slash : ℕ
slash = b'/'

-- The slashes that `normpath` keeps in front: three or more count as one, and two stay.
unfoldable pub leading : Text → Text
leading p =
    if starts_with p (txt "///")
    then txt "/"
    else if starts_with p (txt "//")
    then txt "//"
    else if starts_with p (txt "/")
    then txt "/"
    else []

abbrev pub top_is_parent : List Text → Bool
top_is_parent [] = false
top_is_parent (c ∷ stack) = c == txt ".."

abbrev pub pop : List Text → List Text
pop [] = []
pop (c ∷ stack) = stack

-- One round of the loop of `normpath`; the stack has the last component at its head.
unfoldable pub resolve : Bool → List Text → Text → List Text
resolve rooted stack comp =
    if comp == [] || comp == txt "."
    then stack
    else if not (comp == txt "..") || (not rooted && is_empty stack) || top_is_parent stack
    then comp ∷ stack
    else pop stack

unfoldable pub resolve_all : Bool → List Text → List Text → List Text
resolve_all rooted stack [] = stack
resolve_all rooted stack (c ∷ comps) = resolve_all rooted (resolve rooted stack c) comps

-- The components that `normpath` keeps.
unfoldable pub components : Text → List Text
components p = reverse (resolve_all (not (is_empty (leading p))) [] (split slash p))

abbrev pub or_dot : Text → Text
or_dot [] = txt "."
or_dot (c ∷ s) = c ∷ s

unfoldable pub normpath : Text → Text
normpath [] = txt "."
normpath (c ∷ s) = or_dot (leading (c ∷ s) ++ join (txt "/") (components (c ∷ s)))

basename_from : Text → Text → Text
basename_from cur [] = cur
basename_from cur (c ∷ s) = basename_from (if nat_beq c slash then [] else cur ++ c ∷ []) s

-- `posixpath.basename`: what follows the last slash.
unfoldable pub basename : Text → Text
unfolding basename_from
basename p = basename_from [] p

-- `str.isspace` of one character.
unfoldable pub is_space : ℕ → Bool
is_space c =
    (leb 9 c && leb c 13)
    || (leb 28 c && leb c 32)
    || nat_beq c 0x85
    || nat_beq c 0xa0
    || nat_beq c 0x1680
    || (leb 0x2000 c && leb c 0x200a)
    || nat_beq c 0x2028
    || nat_beq c 0x2029
    || nat_beq c 0x202f
    || nat_beq c 0x205f
    || nat_beq c 0x3000

-- `s.split()[0] if s.split() else ""`: the first run of characters that are no white space.
first_word_from : Text → Text → Text
first_word_from cur [] = cur
first_word_from [] (c ∷ s) = first_word_from (if is_space c then [] else c ∷ []) s
first_word_from (d ∷ cur) (c ∷ s) =
    let longer = first_word_from (d ∷ cur ++ c ∷ []) s in if is_space c then d ∷ cur else longer

unfoldable pub first_word : Text → Text
unfolding first_word_from is_space
first_word s = first_word_from [] s

drop_spaces : Text → Text
drop_spaces [] = []
drop_spaces (c ∷ s) = if is_space c then drop_spaces s else c ∷ s

-- `s.strip()`
unfoldable pub strip : Text → Text
unfolding drop_spaces is_space
strip s = reverse (drop_spaces (reverse (drop_spaces s)))

normpath_tests :
    (normpath (txt "/data/../etc//./x/") ≡ txt "/etc/x")
    × (normpath (txt "//a/..") ≡ txt "//")
    × (normpath (txt "../a/../..") ≡ txt "../..")
    × (normpath (txt "a/..") ≡ txt ".")
    × (normpath (txt "///../..") ≡ txt "/")
    × (basename (txt "/usr/bin/sh") ≡ txt "sh")
    × (first_word (txt "  ls -l") ≡ txt "ls")
    × (first_word (txt " ") ≡ [])
unfolding normpath components resolve_all resolve leading split_from starts_with join text_eq
    basename first_word
normpath_tests = (refl, refl, refl, refl, refl, refl, refl, refl)

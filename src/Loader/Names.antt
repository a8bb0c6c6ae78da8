-- ===== src/Loader/Names.antt =====
-- Server names and nested tool lists, about `_server_name` and `_extract_tools` of `manifest.py`.
use mcp_contract.Base.{
  ◌≡◌, inl, inr, refl, false, [], ◌∷◌, Option, none, some, is_empty, arith, Option-cases, Text, txt,
  text_eq, nat_eq, Value, str, obj, Fields, get,
}
use mcp_contract.Models.{id_eq, status_eq, class_eq}
use mcp_contract.Loader.{
  as_text, result_scope, tool_list, extract_tools, first_of, info_name, scope_name, nested_name,
  name_or_stem, or_unknown, server_name,
}

or_unknown-named : (o : Option Text) → is_empty (or_unknown o) ≡ false
or_unknown-named (some (c ∷ s)) = refl
or_unknown-named (some []) = refl
or_unknown-named none = refl

IsNamed : Option Text → Type 0
IsNamed o = (s : Text) → o ≡ some s → is_empty s ≡ false

as_text-IsNamed : (o : Option Value) → IsNamed (as_text o)
unfolding IsNamed
as_text-IsNamed (some (str (c ∷ s))) t e = ground arith
as_text-IsNamed _ t e = cc

first_of-IsNamed : (a b : Option Text) → IsNamed a → IsNamed b → IsNamed (first_of a b)
first_of-IsNamed (some s) b x y = x
first_of-IsNamed none b x y = y

info_name-IsNamed : (o : Option Value) → IsNamed (info_name o)
unfolding IsNamed
info_name-IsNamed (some (obj fs)) t e = as_text-IsNamed (get (txt "name") fs) t e
info_name-IsNamed _ t e = cc

scope_name-IsNamed : (scope : Fields) → IsNamed (scope_name scope)
unfolding scope_name
scope_name-IsNamed scope =
    first_of-IsNamed _ _ (as_text-IsNamed (get (txt "name") scope))
      (info_name-IsNamed (get (txt "serverInfo") scope))

nested_name-IsNamed : (o : Option Fields) → IsNamed (nested_name o)
unfolding IsNamed
nested_name-IsNamed none t e = cc
nested_name-IsNamed (some scope) t e = scope_name-IsNamed scope t e

name_or_stem-named : (o stem : Option Text) → IsNamed o → is_empty (name_or_stem o stem) ≡ false
unfolding IsNamed
name_or_stem-named (some s) stem h = h s refl
name_or_stem-named none stem h = or_unknown-named stem

-- The server always has a name.
pub server_name-named :
    (doc : Fields) (stem : Option Text) → is_empty (server_name doc stem) ≡ false
unfolding server_name IsNamed
server_name-named doc stem =
    name_or_stem-named _ stem
      (first_of-IsNamed _ _ (scope_name-IsNamed doc) (nested_name-IsNamed _))

pub plain_tools :
    (inner : Fields)
    → result_scope (get (txt "result") inner) ≡ none
    → extract_tools inner ≡ tool_list (get (txt "tools") inner)
unfolding extract_tools tool_list
plain_tools inner z = elim (Option-cases (get (txt "tools") inner)) [
  | inl e ↦ rw (e, z)
  | inr (v, e) ↦ rw e
]

pub nested_tools :
    (doc inner : Fields)
    → get (txt "result") doc ≡ some (obj inner)
    → get (txt "tools") doc ≡ none
    → extract_tools doc ≡ tool_list (get (txt "tools") inner)
unfolding extract_tools result_scope
nested_tools doc inner r t = rw (t, r)

first_of-none : (o : Option Text) → first_of o none ≡ o
first_of-none none = refl
first_of-none (some s) = refl

pub nested_server_name :
    (doc inner : Fields) (stem : Option Text)
    → get (txt "result") doc ≡ some (obj inner)
    → scope_name doc ≡ none
    → result_scope (get (txt "result") inner) ≡ none
    → server_name doc stem ≡ server_name inner stem
unfolding server_name result_scope
nested_server_name doc inner stem r n z = rw (n, r, z, first_of-none (scope_name inner))

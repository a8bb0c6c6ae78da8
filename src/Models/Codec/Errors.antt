-- ===== src/Models/Codec/Errors.antt =====
-- Which exceptions reading an event can raise.
use mcp_contract.Base.{
  inl, inr, List, [], ◌∷◌, some, ◌==◌, Bool-cases, Text, txt, text_eq, nat_eq, Value, null, float,
  str, obj, Fields, end, get, get_or, truthy, ok, Raises, Raises->>=, item-Raises, dict_of-Raises,
  item, dict_of, Builtins,
}
use mcp_contract.Models.{id_eq, status_eq, class_eq}
use mcp_contract.Models.Codec.{find_member, member, kind_of, class_of, class_from, event_from_dict}

find_member-Raises :
    {E : Type 0} (value : E → Text) (ms : List E) (s : Text) → Raises (find_member value ms s)
unfolding find_member
find_member-Raises value [] s = tt
find_member-Raises value (m ∷ ms) s = elim (Bool-cases (value m == s)) [
  | inl e ↦ rw e tt
  | inr n ↦ rw n (find_member-Raises value ms s)
]

member-Raises :
    {E : Type 0} (value : E → Text) (ms : List E) (v : Value) → Raises (member value ms v)
unfolding member
member-Raises value ms (str s) = find_member-Raises value ms s
member-Raises value ms _ = tt

class_from-Raises : (py : Builtins) (v : Value) → Raises (class_from py v)
class_from-Raises py v = elim (Bool-cases (truthy v)) [
  | inl e ↦ rw e (Raises->>= (class_of v) (λ c. ok (some c)) (member-Raises _ _ v) (λ c. tt))
  | inr n ↦ rw n tt
]

module _ (py : Builtins) (float_raises : (v : Value) → Raises (py.to_float v)) where
  pub event_from_dict-Raises : (d : Fields) → Raises (event_from_dict py d)
  unfolding event_from_dict
  event_from_dict-Raises d =
      Raises->>= (py.to_float (get_or (txt "ts") (float 0) d)) _ (float_raises _) λ ts.
        Raises->>= (item (get (txt "kind") d)) _ (item-Raises (get (txt "kind") d)) λ raw_kind.
          Raises->>= (kind_of raw_kind) _ (member-Raises _ _ raw_kind) λ kind.
            Raises->>= (dict_of (get_or (txt "detail") (obj end) d)) _ (dict_of-Raises _) λ detail.
              Raises->>= (class_from py (get_or (txt "classification") null d)) _
                (class_from-Raises py (get_or (txt "classification") null d)) λ c. tt

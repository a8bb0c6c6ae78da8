-- ===== src/Base/Values.antt =====
-- JSON and YAML documents as Python holds them: `None`, `bool`, `int`, `float`, `str`, `list` and
-- `dict`. A float is its 64-bit pattern; the keys of a dict are texts.
use Prim.Native.Nat.{ℕ, zero, suc}
use mathlib.Core.Path.{◌≡◌, refl}
use mathlib.Core.Bool.{Bool, true, false, not, ◌||◌}
use mathlib.Core.Option.{Option, none, some}
use mathlib.Core.List.{List, [], ◌∷◌}
use native.Mathlib.Omega.{arith}
use mcp_contract.Base.Logic.{◌==◌, if◌then◌else◌, nat_beq, is_some}
use mcp_contract.Base.Texts.{Text, text_eq}

-- `negsuc n` is -(n + 1).
pub data ℤ : Type 0 where
  pos : ℕ → ℤ
  negsuc : ℕ → ℤ

mutual
  pub data Value : Type 0 where
    null : Value
    bool : Bool → Value
    int : ℤ → Value
    float : ℕ → Value
    str : Text → Value
    arr : Items → Value
    obj : Fields → Value

  -- The entries of a dict, in the order in which they were first set.
  pub data Fields : Type 0 where
    end : Fields
    field : Text → Value → Fields → Fields

  pub data Items : Type 0 where
    nil : Items
    cons : Value → Items → Items

abbrev pub items : Items → List Value
items nil = []
items (cons v vs) = v ∷ items vs

abbrev pub list : List Value → Items
list [] = nil
list (v ∷ vs) = cons v (list vs)

abbrev pub dict : List (Text × Value) → Fields
dict [] = end
dict ((k, v) ∷ es) = field k v (dict es)

abbrev pub keys : Fields → List Text
keys end = []
keys (field k v fs) = k ∷ keys fs

-- `d.get(k)`; a missing key is `none`, a key with the value `None` is `some null`.
abbrev pub get : Text → Fields → Option Value
get k end = none
get k (field j v fs) = if k == j then some v else get k fs

-- `d.get(k, default)`
abbrev pub get_or : Text → Value → Fields → Value
get_or k d fs = elim (get k fs) [ some v ↦ v | none ↦ d ]

-- `k in d`
abbrev pub has : Text → Fields → Bool
has k fs = is_some (get k fs)

-- `d[k] = v`
unfoldable pub put : Text → Value → Fields → Fields
put k v end = field k v end
put k v (field j w fs) = if k == j then field j v fs else field j w (put k v fs)

-- `d.setdefault(k, v)`
abbrev pub put_default : Text → Value → Fields → Fields
put_default k v fs = if has k fs then fs else put k v fs

-- `bool(v)`; the two zero floats are 0 and 2 ^ 63.
abbrev pub truthy : Value → Bool
truthy null = false
truthy (bool b) = b
truthy (int (pos zero)) = false
truthy (int (pos (suc n))) = true
truthy (int (negsuc n)) = true
truthy (float b) = not (nat_beq b 0 || nat_beq b 0x8000000000000000)
truthy (str []) = false
truthy (str (c ∷ s)) = true
truthy (arr nil) = false
truthy (arr (cons v vs)) = true
truthy (obj end) = false
truthy (obj (field k v fs)) = true

-- `a or b`
abbrev pub or_value : Value → Value → Value
or_value a b = if truthy a then a else b

-- `str(v)`, where `show` is what Python prints for a value that is no `str`.
abbrev pub to_text : (Value → Text) → Value → Text
to_text show (str s) = s
to_text show v = show v

pub items-list : (vs : List Value) → items (list vs) ≡ vs
items-list [] = refl
items-list (v ∷ vs) = rw (items-list vs)

pub get-put :
    (j k : Text) (v : Value) (fs : Fields)
    → get j (put k v fs) ≡ (if j == k then some v else get j fs)
unfolding put
get-put j k v end = refl
get-put j k v (field i w fs) = ground (arith, get-put j k v fs)

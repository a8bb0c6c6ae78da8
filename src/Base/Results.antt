-- ===== src/Base/Results.antt =====
-- Python's exceptions as values, and its built-in conversions of dynamic values.
use Prim.Native.Nat.{ℕ}
use mathlib.Core.Path.{◌≡◌, refl}
use mathlib.Core.Logic.{◌⊎◌, inl, inr}
use mathlib.Core.Option.{Option, none, some}
use mathlib.Core.List.{List, [], ◌∷◌, map}
use mcp_contract.Base.Texts.{Text, text_eq}
use mcp_contract.Base.Values.{Value, null, float, str, arr, obj, Fields, end, keys, items, put}

-- The exception classes; messages are left out.
pub data Exception : Type 0 where
  value_error key_error type_error attribute_error overflow_error os_error runtime_error : Exception

pub data Result {ℓ} (A : Type ℓ) : Type ℓ where
  ok : A → Result A
  err : Exception → Result A

-- An exception leaves the block at once.
infixl 5 ◌>>=◌
abbrev pub ◌>>=◌ {ℓ κ} : {A : Type ℓ} {B : Type κ} (m : Result A) (next : A → Result B) → Result B
err raised >>= next = err raised
ok value >>= next = next value

pub ok-inj : {A : Type 0} {a b : A} → Result.ok a ≡ ok b → a ≡ b
ok-inj h = cc

-- What a block that succeeds has found.
pub bind-ok :
    {A B : Type 0} (m : Result A) (next : A → Result B) (b : B)
    → (m >>= next) ≡ ok b
    → (a : A) × (m ≡ ok a) × (next a ≡ ok b)
bind-ok (err raised) next b h = cc
bind-ok (ok a) next b h = (a, refl, h)

pub Result-cases {ℓ} :
    {A : Type ℓ} (m : Result A) → ((a : A) × (m ≡ ok a)) ⊎ ((e : Exception) × (m ≡ err e))
Result-cases (ok a) = inl (a, refl)
Result-cases (err e) = inr (e, refl)

-- `[f(x) for x in xs]`, where `f` may raise.
unfoldable pub traverse {ℓ κ} :
    {A : Type ℓ} {B : Type κ} → (A → Result B) → List A → Result (List B)
traverse f [] = ok []
traverse f (x ∷ xs) = do y ← f x; ys ← traverse f xs; ok (y ∷ ys)

-- Where `f` accepts every item, so does the comprehension.
pub traverse-map {ℓ κ} :
    {A : Type ℓ} {B : Type κ} (f : B → Result A) (g : A → B) (xs : List A)
    → ((x : A) → f (g x) ≡ ok x)
    → traverse f (map g xs) ≡ ok xs
unfolding traverse
traverse-map f g [] h = refl
traverse-map f g (x ∷ xs) h = rw (h x, traverse-map f g xs h)

-- `d[k]`
abbrev pub item : Option Value → Result Value
item (some v) = ok v
item none = err key_error

abbrev pub chars : Text → List Value
chars [] = []
chars (c ∷ s) = str (c ∷ []) ∷ chars s

-- The items of `for x in v`.
abbrev pub iterate : Value → Result (List Value)
iterate (arr vs) = ok (items vs)
iterate (str s) = ok (chars s)
iterate (obj fs) = ok (map str (keys fs))
iterate _ = err type_error

-- A key that is no text is refused.
text_key : Value → Value → Result (Text × Value)
text_key (str k) v = ok (k, v)
text_key _ v = err type_error

two : List Value → Result (Text × Value)
two (k ∷ v ∷ []) = text_key k v
two _ = err value_error

-- One item of the pairs that `dict` takes: a key and a value.
pair_of : Value → Result (Text × Value)
pair_of v = do vs ← iterate v; two vs

put_pairs : Fields → List Value → Result Fields
put_pairs d [] = ok d
put_pairs d (v ∷ vs) = do (k, w) ← pair_of v; put_pairs (put k w d) vs

-- `dict(v)`
unfoldable pub dict_of : Value → Result Fields
unfolding put_pairs pair_of two text_key
dict_of (obj fs) = ok fs
dict_of v = do vs ← iterate v; put_pairs end vs

-- What reading an event can raise: what the reader's `except` clause names, or an overflow.
abbrev pub IsKnown : Exception → Type 0
IsKnown value_error = Unit
IsKnown key_error = Unit
IsKnown type_error = Unit
IsKnown overflow_error = Unit
IsKnown _ = ⊥

abbrev pub Raises {ℓ} : {A : Type ℓ} → Result A → Type 0
Raises (ok a) = Unit
Raises (err x) = IsKnown x

pub Raises->>= {ℓ κ} :
    {A : Type ℓ} {B : Type κ} (m : Result A) (f : A → Result B)
    → Raises m
    → ((a : A) → Raises (f a))
    → Raises (m >>= f)
Raises->>= (ok a) f h k = k a
Raises->>= (err x) f h k = h

pub item-Raises : (o : Option Value) → Raises (item o)
item-Raises none = tt
item-Raises (some v) = tt

iterate-Raises : (v : Value) → Raises (iterate v)
iterate-Raises (arr vs) = tt
iterate-Raises (str s) = tt
iterate-Raises (obj fs) = tt
iterate-Raises _ = tt

text_key-Raises : (k v : Value) → Raises (text_key k v)
unfolding text_key
text_key-Raises (str k) v = tt
text_key-Raises _ v = tt

two-Raises : (vs : List Value) → Raises (two vs)
unfolding two
two-Raises (k ∷ v ∷ []) = text_key-Raises k v
two-Raises _ = tt

pair_of-Raises : (v : Value) → Raises (pair_of v)
unfolding pair_of
pair_of-Raises v = Raises->>= (iterate v) two (iterate-Raises v) two-Raises

put_pairs-Raises : (d : Fields) (vs : List Value) → Raises (put_pairs d vs)
unfolding put_pairs
put_pairs-Raises d [] = tt
put_pairs-Raises d (v ∷ vs) =
    Raises->>= (pair_of v) _ (pair_of-Raises v) λ (k, w). put_pairs-Raises (put k w d) vs

pub dict_of-Raises : (v : Value) → Raises (dict_of v)
unfolding dict_of
dict_of-Raises (obj fs) = tt
dict_of-Raises null = tt
dict_of-Raises v = Raises->>= (iterate v) _ (iterate-Raises v) λ vs. put_pairs-Raises end vs

-- What Python prints for a value that is no `str`, and `float(v)`. Both are built in.
pub record Builtins : Type 0 where
  pub show : Value → Text
  pub to_float : Value → Result ℕ
  pub to_float-float : (b : ℕ) → to_float (float b) ≡ ok b

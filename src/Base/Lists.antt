-- ===== src/Base/Lists.antt =====
-- Lists: measured by native numbers, searched, and predicates over their items.
use Prim.Native.Nat.{ℕ, zero, suc, ◌+◌}
use mathlib.Core.Path.{sym, refl, ◌≡◌}
use mathlib.Core.Logic.{if_pos, if_neg, ◌↔◌, ◌⊎◌, inl, inr}
use mathlib.Core.Bool.{Bool, true, false, ◌||◌, ◌&&◌}
use mathlib.Core.List.{List, [], ◌∷◌, ◌++◌, map}
use native.Mathlib.Omega.{arith}
use mcp_contract.Base.Logic.{Eq, ◌==◌, contains, if◌then◌else◌}

module _ {ℓ} {A : Type ℓ} where
  abbrev pub length : List A → ℕ
  length [] = 0
  length (x ∷ xs) = suc (length xs)

  abbrev pub take : ℕ → List A → List A
  take zero xs = []
  take (suc n) [] = []
  take (suc n) (x ∷ xs) = x ∷ take n xs

  abbrev pub tail : List A → List A
  tail [] = []
  tail (x ∷ xs) = xs

  abbrev pub is_empty : List A → Bool
  is_empty [] = true
  is_empty (x ∷ xs) = false

  -- `any(p(x) for x in xs)` and `all(p(x) for x in xs)`
  abbrev pub any : (A → Bool) → List A → Bool
  any p [] = false
  any p (x ∷ xs) = p x || any p xs

  abbrev pub all : (A → Bool) → List A → Bool
  all p [] = true
  all p (x ∷ xs) = p x && all p xs

  -- `[x for x in xs if p(x)]`
  abbrev pub keep : (A → Bool) → List A → List A
  keep p [] = []
  keep p (x ∷ xs) = if p x then x ∷ keep p xs else keep p xs

  pub length-append : (xs ys : List A) → length (xs ++ ys) ≡ length xs + length ys
  length-append [] ys = omega arith
  length-append (x ∷ xs) ys = omega (arith, length-append xs ys)

-- Membership and distinctness compute to sums and products, which the tactics take apart.
module _ {A : Type 0} where
  abbrev pub In : A → List A → Type 0
  In a [] = ⊥
  In a (x ∷ xs) = (a ≡ x) ⊎ In a xs

  abbrev pub Distinct : List A → Type 0
  Distinct [] = Unit
  Distinct (x ∷ xs) = ¬ (In x xs) × Distinct xs

  pub In-append : (a : A) (xs ys : List A) → In a (xs ++ ys) ↔ (In a xs ⊎ In a ys)
  In-append a [] ys = (λ h. inr h, λ h. elim h [ inl z ↦ elim z [ ] | inr k ↦ k ])
  In-append a (x ∷ xs) ys = ground (arith, In-append a xs ys)

module _ {ℓ κ} {A : Type ℓ} where
  abbrev pub All : (P : A → Type κ) → List A → Type κ
  All P [] = Unit
  All P (x ∷ xs) = P x × All P xs

module _ {ℓ κ} {A : Type ℓ} (P : A → Type κ) where
  pub All-append : (front back : List A) → All P front → All P back → All P (front ++ back)
  All-append [] back _ given = given
  All-append (a ∷ front) back (here, there) given = (here, All-append front back there given)

module _ {κ} {A : Type 0} where
  pub All-at : (P : A → Type κ) (a : A) (xs : List A) → All P xs → In a xs → P a
  All-at P a [] h i = elim i [ ]
  All-at P a (x ∷ xs) h (inl e) = rw e h.0
  All-at P a (x ∷ xs) h (inr i) = All-at P a xs h.1 i

  pub All-intro : (P : A → Type κ) (xs : List A) → ((a : A) → In a xs → P a) → All P xs
  All-intro P [] h = tt
  All-intro P (x ∷ xs) h = (h x (inl refl), All-intro P xs (λ a i. h a (inr i)))

module _ {A : Type 0} (P Q : A → Type 0) where
  pub All-mono : (xs : List A) → ((a : A) → P a → Q a) → All P xs → All Q xs
  All-mono [] h a = tt
  All-mono (x ∷ xs) h (a, as') = (h x a, All-mono xs h as')

module _ {κ} {A B : Type 0} (P : B → Type κ) (f : A → B) where
  pub All-map : (xs : List A) → All (λ a. P (f a)) xs → All P (map f xs)
  All-map [] h = tt
  All-map (x ∷ xs) (h, hs) = (h, All-map xs hs)

module _ {A : Type 0} ⦃e : Eq A⦄ where
  pub eq_refl : (a : A) → (a == a) ≡ true
  eq_refl a = ground arith

  pub contains_iff : (xs : List A) (a : A) → (contains xs a ≡ true) ↔ In a xs
  contains_iff [] a = (λ h. cc, λ h. elim h [ ])
  contains_iff (x ∷ xs) a = ground (arith, contains_iff xs a)

  In-of_eq : (a x : A) (xs : List A) → a ≡ x → In x xs → In a xs
  In-of_eq a x xs e h = rw e h

  -- `if x not in xs: xs.append(x)`
  unfoldable pub add_new : List A → A → List A
  add_new xs x = if contains xs x then xs else xs ++ x ∷ []

  -- The same for each of `ys` in turn.
  unfoldable pub add_all : List A → List A → List A
  add_all xs [] = xs
  add_all xs (y ∷ ys) = add_all (add_new xs y) ys

  pub In-add_new : (a x : A) (xs : List A) → In a (add_new xs x) ↔ (In a xs ⊎ (a ≡ x))
  unfolding add_new
  In-add_new a x xs = ground (arith, contains_iff xs x, In-append a xs (x ∷ []), In-of_eq a x xs)

  pub In-add_all : (a : A) (xs ys : List A) → In a (add_all xs ys) ↔ (In a xs ⊎ In a ys)
  unfolding add_all
  In-add_all a xs [] = ground arith
  In-add_all a xs (y ∷ ys) = ground (arith, In-add_all a (add_new xs y) ys, In-add_new a y xs)

  Distinct-append : (x : A) (xs : List A) → Distinct xs → ¬ (In x xs) → Distinct (xs ++ x ∷ [])
  Distinct-append x [] d n = (λ h. elim h [ ], tt)
  Distinct-append x (y ∷ xs) d n = ground (arith, Distinct-append x xs d.1, In-append y xs (x ∷ []))

  pub add_new-Distinct : (x : A) (xs : List A) → Distinct xs → Distinct (add_new xs x)
  unfolding add_new
  add_new-Distinct x xs d = ground (arith, contains_iff xs x, Distinct-append x xs d)

  pub add_all-Distinct : (xs ys : List A) → Distinct xs → Distinct (add_all xs ys)
  unfolding add_all
  add_all-Distinct xs [] d = d
  add_all-Distinct xs (y ∷ ys) d = add_all-Distinct (add_new xs y) ys (add_new-Distinct y xs d)

  pub eq_sym : (a b : A) → (a == b) ≡ (b == a)
  eq_sym a b = elim (e.dec a b) [
    | yes p ↦ rw (if_pos _ p, if_pos _ (sym p))
    | no n ↦ rw (if_neg _ n, if_neg _ (λ q. n (sym q)))
  ]

pub or_false : (a b : Bool) → (a || b) ≡ false → (a ≡ false) × (b ≡ false)
or_false a b h = ground arith

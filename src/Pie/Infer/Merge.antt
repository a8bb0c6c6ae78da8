-- ===== src/Pie/Infer/Merge.antt =====
-- What merging the signals of one class yields.
use mcp_contract.Base.{
  ◌≡◌, ◌≢◌, ◌↔◌, ◌⊎◌, Bool, true, false, not, ◌&&◌, List, [], ◌∷◌, ◌++◌, ◌==◌, contains,
  if◌then◌else◌, is_empty, any, arith, In, Distinct, All, contains_iff, add_new, add_all,
  In-add_new, In-add_all, add_new-Distinct, add_all-Distinct, Text, text_eq, nat_eq,
}
use mcp_contract.Models.{
  CapabilityId, net_http, inferred, denied, id_eq, status_eq, class_eq, Capability,
}
use mcp_contract.Pie.Infer.{
  evidence_eq, star, concrete, merge_values, is_scope_unknown, all_inferred, merge_class_signals,
}

-- Some signal of the list has the value.
abbrev pub Offered : Text → List Capability → Type 0
Offered v [] = ⊥
Offered v (s ∷ ss) = In v s.values ⊎ Offered v ss

pub In-concrete : (v : Text) (vs : List Text) → In v (concrete vs) ↔ (In v vs × (v ≢ star))
In-concrete v [] = ground arith
In-concrete v (w ∷ vs) = ground (arith, In-concrete v vs)

pub In-merge_values :
    (v : Text) (values : List Text) (ss : List Capability)
    → In v (merge_values values ss) ↔ (In v values ⊎ (Offered v ss × (v ≢ star)))
unfolding merge_values
In-merge_values v values [] = ground arith
In-merge_values v values (s ∷ ss) = ground (
  arith,
  In-merge_values v (add_all values (concrete s.values)) ss,
  In-add_all v values (concrete s.values),
  In-concrete v s.values,
)

merge_values-Distinct :
    (values : List Text) (ss : List Capability)
    → Distinct values
    → Distinct (merge_values values ss)
unfolding merge_values
merge_values-Distinct values [] d = d
merge_values-Distinct values (s ∷ ss) d =
    merge_values-Distinct (add_all values (concrete s.values)) ss
      (add_all-Distinct values (concrete s.values) d)

all_inferred_iff :
    (ss : List Capability) → (all_inferred ss ≡ true) ↔ All (λ s. s.status ≡ inferred) ss
all_inferred_iff [] = ground arith
all_inferred_iff (s ∷ ss) = ground (arith, all_inferred_iff ss)

-- A signal whose scope is unknown: it has no value but "*", or, for net.http, it has "*".
abbrev pub ScopeUnknown : CapabilityId → Capability → Type 0
ScopeUnknown id s = All (λ v. v ≡ star) s.values ⊎ ((id ≡ net_http) × In star s.values)

-- A merged capability is inferred exactly when there is a signal and every signal is inferred, and
-- denied exactly when there is none.
pub merge_status_iff :
    (id : CapabilityId) (ss : List Capability)
    → (((merge_class_signals id ss).status ≡ inferred)
        ↔ ((ss ≢ []) × All (λ s. s.status ≡ inferred) ss))
      × (((merge_class_signals id ss).status ≡ denied) ↔ (ss ≡ []))
unfolding merge_class_signals
merge_status_iff id [] = ground arith
merge_status_iff id (s ∷ ss) = ground (arith, all_inferred_iff (s ∷ ss))

-- Some signal has an unknown scope.
abbrev pub SomeUnknown : CapabilityId → List Capability → Type 0
SomeUnknown id [] = ⊥
SomeUnknown id (s ∷ ss) = ScopeUnknown id s ⊎ SomeUnknown id ss

is_empty-concrete_iff : (vs : List Text) → (is_empty (concrete vs) ≡ true) ↔ All (λ v. v ≡ star) vs
is_empty-concrete_iff [] = ground arith
is_empty-concrete_iff (v ∷ vs) = ground (arith, is_empty-concrete_iff vs)

any_unknown_iff :
    (id : CapabilityId) (ss : List Capability)
    → (any (is_scope_unknown id) ss ≡ true) ↔ SomeUnknown id ss
any_unknown_iff id [] = ground arith
any_unknown_iff id (s ∷ ss) =
    ground
      (arith, is_empty-concrete_iff s.values, contains_iff s.values star, any_unknown_iff id ss)

abbrev with_star : Bool → List Text → List Text
with_star b vs = if b && not (contains vs star) then vs ++ star ∷ [] else vs

In-add_new_lem :
    (v : Text) (vs : List Text)
    → In v (with_star true vs) ↔ (In v vs ⊎ ((true ≡ true) × (v ≡ star)))
unfolding add_new
In-add_new_lem v vs = ground (arith, In-add_new v star vs)

with_star-Distinct-true : (vs : List Text) → Distinct vs → Distinct (with_star true vs)
unfolding add_new
with_star-Distinct-true vs d = ground (arith, add_new-Distinct star vs d)

In-with_star :
    (v : Text) (b : Bool) (vs : List Text)
    → In v (with_star b vs) ↔ (In v vs ⊎ ((b ≡ true) × (v ≡ star)))
In-with_star v true vs = In-add_new_lem v vs
In-with_star v false vs = ground arith

with_star-Distinct : (b : Bool) (vs : List Text) → Distinct vs → Distinct (with_star b vs)
with_star-Distinct true vs d = with_star-Distinct-true vs d
with_star-Distinct false vs d = d

merged_values :
    (id : CapabilityId) (s : Capability) (ss : List Capability)
    → (merge_class_signals id (s ∷ ss)).values
      ≡ with_star (id == net_http && any (is_scope_unknown id) (s ∷ ss)) (merge_values [] (s ∷ ss))
unfolding merge_class_signals
merged_values id s ss = ground arith

-- The values of a merged capability are those that some signal offers, without "*", and "*" if
-- the class is net.http and the scope of some signal is unknown. None of them occurs twice.
pub In-merge_class_signals :
    (id : CapabilityId) (ss : List Capability) (v : Text)
    → (In v (merge_class_signals id ss).values
        ↔ ((Offered v ss × (v ≢ star)) ⊎ ((v ≡ star) × (id ≡ net_http) × SomeUnknown id ss)))
      × Distinct (merge_class_signals id ss).values
In-merge_class_signals id [] v = unfold merge_class_signals in (ground arith)
In-merge_class_signals id (s ∷ ss) v =
    let b = id == net_http && any (is_scope_unknown id) (s ∷ ss) in
    let vs = merge_values [] (s ∷ ss) in
    rw (merged_values id s ss) (
      ground
          (arith, In-with_star v b vs, In-merge_values v [] (s ∷ ss), any_unknown_iff id (s ∷ ss)),
      with_star-Distinct b vs (merge_values-Distinct [] (s ∷ ss) tt),
    )

-- ===== src/Bcm/Contract/Laws.antt =====
-- What the manifest implies, next to what an inferred policy grants.
use mcp_contract.Base.{
  ◌≡◌, ◌≢◌, ◌⊎◌, inl, inr, refl, sym, ap, ◌∙◌, true, false, ◌&&◌, ◌||◌, List, [], ◌∷◌, ◌++◌, Option,
  none, some, ◌==◌, contains, if◌then◌else◌, is_empty, any, arith, In, In-append, eq_sym, or_false,
  add_new, add_all, subst, Bool-cases, Option-cases, Text, text_eq, nat_eq, Value,
}
use mcp_contract.Models.{
  CapabilityId, net_http, all_ids, id_eq, status_eq, class_eq, Capability, ToolIr, Manifest, Policy,
  find_cap, cap, granted,
}
use mathlib.Core.Option.{some-injective, some-ne-none}
use mcp_contract.Pie.Infer.{
  star, Classifier, concrete, merge_values, is_scope_unknown, rule_signals, merge_class_signals,
  infer_class, infer_policy, signals,
}
use mcp_contract.Pie.Infer.Laws.{In-all_ids, cap-infer_policy, granted-infer_policy_iff}
use mcp_contract.Bcm.Contract.{
  add_values, union_values, lacks_scope, implied_values, implied_cap, merge_implied,
  manifest_implied_caps,
}
use mcp_contract.Bcm.Diff.Laws.{Covers, Grants, Implies}

-- The loops of the two modules collect the same values.
add_values-eq : (values vs : List Text) → add_values values vs ≡ add_all values (concrete vs)
unfolding add_values add_all add_new
add_values-eq values [] = refl
add_values-eq values (v ∷ vs) =
    ground (arith, add_values-eq values vs, add_values-eq (values ++ v ∷ []) vs)

union_values-eq :
    (values : List Text) (ss : List Capability) → union_values values ss ≡ merge_values values ss
unfolding union_values merge_values
union_values-eq values [] = refl
union_values-eq values (s ∷ ss) =
    rw (add_values-eq values s.values) (union_values-eq (add_all values (concrete s.values)) ss)

-- The values are of unknown scope, or cover the observed one.
abbrev Reaches : CapabilityId → Text → List Text → Type 0
Reaches id v vs = (vs ≡ []) ⊎ In star vs ⊎ Covers id v vs

Implies-head :
    (rest : List Capability) (id : CapabilityId) (v : Text) (ss : List Capability)
    → ss ≢ []
    → Reaches id v (implied_cap id ss).values
    → Implies (if is_empty ss then rest else implied_cap id ss ∷ rest) id v
unfolding implied_cap
Implies-head rest id v [] h c = absurd (h refl)
Implies-head rest id v (s ∷ ss) h c = inl (refl, c)

-- The capabilities implied for a class that has signals contain the merged one.
Implies-merge :
    (buckets : CapabilityId → List Capability) (ids : List CapabilityId) (id : CapabilityId)
    (v : Text)
    → In id ids
    → buckets id ≢ []
    → Reaches id v (implied_cap id (buckets id)).values
    → Implies (merge_implied buckets ids) id v
unfolding merge_implied
Implies-merge buckets [] id v i h c = elim i [ ]
Implies-merge buckets (j ∷ ids) id v (inl e) h c =
    subst
      (λ k.
        Implies
          (if is_empty (buckets k)
            then merge_implied buckets ids
            else implied_cap k (buckets k) ∷ merge_implied buckets ids)
          id v)
      e (Implies-head (merge_implied buckets ids) id v (buckets id) h c)
Implies-merge buckets (j ∷ ids) id v (inr i) h c =
    ground (arith, Implies-merge buckets ids id v i h c)

value_scope_known :
    (id : CapabilityId) (vs : List Text)
    → (is_empty vs || contains vs star) ≡ false
    → (is_empty (concrete vs) || (id == net_http && contains vs star)) ≡ false
value_scope_known id [] h = cc
value_scope_known id (v ∷ vs) h =
    let (fresh, later) = or_false (star == v) (contains vs star) h in
    rw (eq_sym v star, fresh, later) (ground arith)

-- Where no signal lacks a scope, none is of unknown scope for the merge either.
scope_known :
    (id : CapabilityId) (ss : List Capability)
    → any lacks_scope ss ≡ false
    → any (is_scope_unknown id) ss ≡ false
scope_known id [] h = refl
scope_known id (s ∷ ss) h =
    let (here, later) = or_false (lacks_scope s) (any lacks_scope ss) h in
    rw (value_scope_known id s.values here, scope_known id ss later)

-- The values of the merged capability, for a class whose signals all have a scope.
merged-values_of_scope :
    (id : CapabilityId) (ss : List Capability)
    → any lacks_scope ss ≡ false
    → (merge_class_signals id ss).values ≡ union_values [] ss
unfolding merge_class_signals
merged-values_of_scope id [] h = unfold union_values in refl
merged-values_of_scope id (s ∷ ss) h =
    rw (scope_known id (s ∷ ss) h, union_values-eq [] (s ∷ ss)) (ground arith)

unknown-Reaches :
    (id : CapabilityId) (v : Text) (vs : List Text) → Reaches id v (implied_values id true vs)
unknown-Reaches id v vs = ground (arith, In-append star vs (star ∷ []))

merge-Reaches :
    (id : CapabilityId) (v : Text) (ss : List Capability)
    → Covers id v (merge_class_signals id ss).values
    → Reaches id v (implied_cap id ss).values
unfolding implied_cap
merge-Reaches id v ss h = elim (Bool-cases (any lacks_scope ss)) [
  | inl lacks ↦ rw lacks (unknown-Reaches id v (union_values [] ss))
  | inr known ↦ rw known (inr (inr (subst (Covers id v) (merged-values_of_scope id ss known) h)))
]

granted-cap :
    (p : Policy) (id : CapabilityId) {c : Capability} → granted p id ≡ some c → cap p id ≡ some c
unfolding granted
granted-cap p id {c} h = elim (Option-cases (find_cap p.caps id)) [
  | inl e ↦ cc
  | inr (d, e) ↦ ground arith
]

infer_class-values :
    (id : CapabilityId) (ss : List Capability)
    → (infer_class id ss).values ≡ (merge_class_signals id ss).values
unfolding infer_class merge_class_signals
infer_class-values id [] = refl
infer_class-values id (s ∷ ss) = ground arith

signals-rules :
    (classify : Classifier) (llm : Option Classifier) (tools : List ToolIr) (id : CapabilityId)
    → rule_signals classify tools id ≢ []
    → signals classify llm tools id ≡ rule_signals classify tools id
unfolding signals
signals-rules classify none tools id h = refl
signals-rules classify (some suggest) tools id h = ground arith

-- For a policy inferred without overrides, whatever it grants the manifest implies: a grant that
-- is withdrawn later leaves its events within the manifest, not outside the contract.
pub infer_policy-Implies :
    (classify : Classifier) (digest : Value → Text) (m : Manifest) (server_id : Option Text)
    (llm : Option Classifier) (id : CapabilityId) (v : Text)
    → Grants (infer_policy classify digest m server_id [] llm) id v
    → Implies (manifest_implied_caps classify m) id v
unfolding manifest_implied_caps
infer_policy-Implies classify digest m server_id llm id v (c, known, admits) =
    let rules = rule_signals classify m.tools id in
    let (granted_class, found, _) =
      (granted-infer_policy_iff classify digest m server_id [] llm id refl).0
        (λ none_granted. some-ne-none c (sym known ∙ none_granted)) in
    let same = some-injective _ _ (
      sym (granted-cap (infer_policy classify digest m server_id [] llm) id known)
      ∙ (cap-infer_policy classify digest m server_id [] llm).1 id) in
    let values : c.values ≡ (merge_class_signals id rules).values =
      ap (λ (x : Capability). x.values) same
      ∙ infer_class-values id (signals classify llm m.tools id)
      ∙ ap (λ ss. (merge_class_signals id ss).values)
          (signals-rules classify llm m.tools id found) in
    elim admits [
      | inl (_, covers) ↦
          Implies-merge (rule_signals classify m.tools) all_ids id v (In-all_ids id) found
            (merge-Reaches id v rules (subst (Covers id v) values covers))
      | inr (_, exec) ↦ absurd (granted_class exec)
    ]

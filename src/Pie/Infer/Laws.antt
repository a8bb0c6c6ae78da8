-- ===== src/Pie/Infer/Laws.antt =====
-- What an inferred policy grants, with and without suggestions and overrides.
use mcp_contract.Base.{
  ◌≡◌, ◌≢◌, ◌↔◌, inl, inr, refl, ap, ◌∙◌, List, [], ◌∷◌, ◌++◌, map, Option, none, some, ◌==◌,
  if◌then◌else◌, is_empty, arith, In, All, All-append, Option-cases, Text, text_eq, nat_eq, Value,
}
use mcp_contract.Models.{
  CapabilityId, net_http, fs_read, fs_write, proc_exec, env, inferred, needs_review, all_ids, id_eq,
  status_eq, class_eq, Capability, ToolIr, Manifest, find_cap, cap, granted,
}
use mcp_contract.Pie.Infer.{
  merge_class_signals, clamp_llm, Classifier, of_class, rule_signals, llm_signals, signals,
  infer_class, override_evidence, apply_overrides, infer_policy,
}
use mcp_contract.Pie.Infer.Merge.{merge_status_iff}

merge_class_signals-id :
    (id : CapabilityId) (ss : List Capability) → (merge_class_signals id ss).id ≡ id
unfolding merge_class_signals
merge_class_signals-id id [] = refl
merge_class_signals-id id (s ∷ ss) = refl

infer_class-id : (id : CapabilityId) (ss : List Capability) → (infer_class id ss).id ≡ id
unfolding infer_class
infer_class-id id [] = refl
infer_class-id id (s ∷ ss) = ground (arith, merge_class_signals-id id (s ∷ ss))

-- The capability as an override leaves it.
abbrev pub marked : Capability → Capability
marked o = record o { evidence = o.evidence ++ override_evidence ∷ [] }

-- The last override of the class, if there is one.
abbrev pub last_override : CapabilityId → List Capability → Option Capability
last_override id [] = none
last_override id (o ∷ os) = elim (last_override id os) [
  | some p ↦ some p
  | none ↦ if id == o.id then some o else none
]

abbrev pub overridden : Option Capability → Capability → Capability
overridden none c = c
overridden (some o) c = marked o

apply_overrides-eq :
    (by_id : CapabilityId → Capability) (os : List Capability) (id : CapabilityId)
    → apply_overrides by_id os id ≡ overridden (last_override id os) (by_id id)
unfolding apply_overrides
apply_overrides-eq by_id [] id = refl
apply_overrides-eq by_id (o ∷ os) id =
    rw (apply_overrides-eq (λ j. if j == o.id then marked o else by_id j) os id) (ground arith)

last_override-id :
    (id : CapabilityId) (os : List Capability) {o : Capability}
    → last_override id os ≡ some o
    → o.id ≡ id
last_override-id id [] h = cc
last_override-id id (p ∷ os) {o} h = elim (Option-cases (last_override id os)) [
  | inl e ↦ ground arith
  | inr (q, e) ↦ ground (arith, last_override-id id os e)
]

find_cap-map-In :
    (f : CapabilityId → Capability) (ids : List CapabilityId) (id : CapabilityId)
    → ((j : CapabilityId) → (f j).id ≡ j)
    → In id ids
    → find_cap (map f ids) id ≡ some (f id)
unfolding find_cap
find_cap-map-In f [] id h i = elim i [ ]
find_cap-map-In f (j ∷ ids) id h i = ground (arith, h j, find_cap-map-In f ids id h)

pub In-all_ids : (id : CapabilityId) → In id all_ids
In-all_ids net_http = inl refl
In-all_ids fs_read = inr (inl refl)
In-all_ids fs_write = inr (inr (inl refl))
In-all_ids proc_exec = inr (inr (inr (inl refl)))
In-all_ids env = inr (inr (inr (inr (inl refl))))

infer_class_inferred_iff :
    (id : CapabilityId) (ss : List Capability)
    → ((infer_class id ss).status ≡ inferred)
      ↔ ((id ≢ proc_exec) × (ss ≢ []) × All (λ s. s.status ≡ inferred) ss)
unfolding infer_class
infer_class_inferred_iff id [] = ground arith
infer_class_inferred_iff id (s ∷ ss) = ground (arith, merge_status_iff id (s ∷ ss))

needs_review_append :
    (xs ys : List Capability)
    → All (λ s. s.status ≡ needs_review) xs
    → All (λ s. s.status ≡ needs_review) ys
    → All (λ s. s.status ≡ needs_review) (xs ++ ys)
needs_review_append xs ys h k = All-append (λ s. s.status ≡ needs_review) xs ys h k

clamped :
    (t : ToolIr) (ss : List Capability)
    → All (λ s. s.status ≡ needs_review) (map (λ s. clamp_llm s t) ss)
unfolding clamp_llm
clamped t [] = tt
clamped t (s ∷ ss) = (refl, clamped t ss)

llm_signals-review :
    (suggest : Classifier) (tools : List ToolIr) (id : CapabilityId)
    → All (λ s. s.status ≡ needs_review) (llm_signals suggest tools id)
unfolding llm_signals
llm_signals-review suggest [] id = tt
llm_signals-review suggest (t ∷ tools) id =
    needs_review_append _ _ (clamped t (of_class id (suggest t)))
      (llm_signals-review suggest tools id)

not-All_inferred :
    (ss : List Capability)
    → All (λ s. s.status ≡ needs_review) ss
    → ¬ ((ss ≢ []) × All (λ s. s.status ≡ inferred) ss)
not-All_inferred [] h k = k.0 refl
not-All_inferred (s ∷ ss) h k = cc (h.0, k.1.0)

chosen_iff :
    (rules ss : List Capability)
    → All (λ s. s.status ≡ needs_review) ss
    → let chosen = if is_empty rules then rules ++ ss else rules in
      ((chosen ≢ []) × All (λ s. s.status ≡ inferred) chosen)
      ↔ ((rules ≢ []) × All (λ s. s.status ≡ inferred) rules)
chosen_iff [] ss h = (λ k. absurd (not-All_inferred ss h k), λ k. absurd (k.0 refl))
chosen_iff (r ∷ rules) ss h = (λ k. k, λ k. k)

-- Suggestions never turn signals that are not all inferred into signals that are.
signals_inferred_iff :
    (classify : Classifier) (llm : Option Classifier) (tools : List ToolIr) (id : CapabilityId)
    → let ss = signals classify llm tools id in
      let rules = rule_signals classify tools id in
      ((ss ≢ []) × All (λ s. s.status ≡ inferred) ss)
      ↔ ((rules ≢ []) × All (λ s. s.status ≡ inferred) rules)
unfolding signals
signals_inferred_iff classify none tools id = ground arith
signals_inferred_iff classify (some suggest) tools id =
    chosen_iff (rule_signals classify tools id) (llm_signals suggest tools id)
      (llm_signals-review suggest tools id)

module _ (classify : Classifier) (digest : Value → Text) (m : Manifest)
    (server_id : Option Text) where
  -- The capability of a class before overrides.
  abbrev pub by_rules : Option Classifier → CapabilityId → Capability
  by_rules llm id = infer_class id (signals classify llm m.tools id)

  by_overrides-id :
      (overrides : List Capability) (llm : Option Classifier) (id : CapabilityId)
      → (apply_overrides (by_rules llm) overrides id).id ≡ id
  by_overrides-id overrides llm id =
      rw apply_overrides-eq (elim (Option-cases (last_override id overrides)) [
        | inl e ↦ rw e (infer_class-id id _)
        | inr (o, e) ↦ rw e (last_override-id id overrides e)
      ])

  -- An inferred policy lists the five classes in order, each once, and the capability of a class
  -- is the last override of the class, its evidence marked, or else what the signals yield.
  pub cap-infer_policy :
      (overrides : List Capability) (llm : Option Classifier)
      → let p = infer_policy classify digest m server_id overrides llm in
        (map (λ c. c.id) p.caps ≡ all_ids)
        × ((id : CapabilityId)
            → cap p id ≡ some (overridden (last_override id overrides) (by_rules llm id)))
  unfolding infer_policy
  cap-infer_policy overrides llm = (
    rw (
      by_overrides-id overrides llm net_http,
      by_overrides-id overrides llm fs_read,
      by_overrides-id overrides llm fs_write,
      by_overrides-id overrides llm proc_exec,
      by_overrides-id overrides llm env,
    ),
    λ id.
        find_cap-map-In (apply_overrides (by_rules llm) overrides) all_ids id
          (by_overrides-id overrides llm) (In-all_ids id)
        ∙ ap some (apply_overrides-eq (by_rules llm) overrides id),
  )

  -- Without an override, a class is granted exactly when it is not proc.exec, some tool signals
  -- it, and every signal of the rules for it is inferred. Suggestions have no say in it.
  pub granted-infer_policy_iff :
      (overrides : List Capability) (llm : Option Classifier) (id : CapabilityId)
      → last_override id overrides ≡ none
      → let rules = rule_signals classify m.tools id in
        (granted (infer_policy classify digest m server_id overrides llm) id ≢ none)
        ↔ ((id ≢ proc_exec) × (rules ≢ []) × All (λ s. s.status ≡ inferred) rules)
  unfolding granted
  granted-infer_policy_iff overrides llm id free =
      rw ((cap-infer_policy overrides llm).1 id, free)
        (ground (
          arith,
          infer_class_inferred_iff id (signals classify llm m.tools id),
          signals_inferred_iff classify llm m.tools id,
        ))

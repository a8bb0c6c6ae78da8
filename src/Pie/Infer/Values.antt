-- ===== src/Pie/Infer/Values.antt =====
-- Where the granted values of an inferred policy come from, about `pie/inference.py`.
use mcp_contract.Base.{
  ◌≡◌, ◌≢◌, inl, inr, refl, sym, false, List, [], ◌∷◌, Option, none, some, ◌==◌, is_empty, arith,
  In, In-append, All, All-at, All-intro, Bool-cases, Text, text_eq, nat_eq, Value,
}
use mcp_contract.Models.{
  CapabilityId, inferred, id_eq, status_eq, class_eq, Capability, ToolIr, Manifest, Policy, cap,
  granted,
}
use mcp_contract.Pie.Infer.{
  star, merge_class_signals, Classifier, of_class, rule_signals, signals, infer_class, infer_policy,
}
use mcp_contract.Pie.Infer.Merge.{Offered, SomeUnknown, In-merge_class_signals}
use mcp_contract.Pie.Infer.Laws.{last_override, cap-infer_policy, granted-infer_policy_iff}

-- A signal of the class from one of the tools.
abbrev pub FromTool : Classifier → List ToolIr → CapabilityId → Capability → Type 0
FromTool classify tools id s = (t : ToolIr) × In t tools × In s (classify t) × (s.id ≡ id)

In-of_class :
    (id : CapabilityId) (s : Capability) (cs : List Capability)
    → In s (of_class id cs)
    → In s cs × (s.id ≡ id)
In-of_class id s [] i = elim i [ ]
In-of_class id s (c ∷ cs) i = elim (Bool-cases (c.id == id)) [
  | inl mine ↦ elim (rw mine at i) [
    | inl same ↦ (inl same, ground arith)
    | inr j ↦ let (k, e) = In-of_class id s cs j in (inr k, e)
  ]
  | inr other ↦ let (k, e) = In-of_class id s cs (rw other at i) in (inr k, e)
]

rule_signals-FromTool :
    (classify : Classifier) (tools : List ToolIr) (id : CapabilityId) (s : Capability)
    → In s (rule_signals classify tools id)
    → FromTool classify tools id s
unfolding rule_signals
rule_signals-FromTool classify [] id s i = elim i [ ]
rule_signals-FromTool classify (t ∷ tools) id s i =
    elim ((In-append s (of_class id (classify t)) (rule_signals classify tools id)).0 i) [
      | inl j ↦ let (k, e) = In-of_class id s (classify t) j in (t, inl refl, k, e)
      | inr j ↦ let (t', k, l, e) = rule_signals-FromTool classify tools id s j in (t', inr k, l, e)
    ]

-- The value is among those of some signal.
abbrev Carried : Text → List Capability → Type 0
Carried v ss = (s : Capability) × In s ss × In v s.values

Offered-Carried : (v : Text) (ss : List Capability) → Offered v ss → Carried v ss
Offered-Carried v [] o = elim o [ ]
Offered-Carried v (s ∷ ss) (inl i) = (s, inl refl, i)
Offered-Carried v (s ∷ ss) (inr o) = let (s', j, i) = Offered-Carried v ss o in (s', inr j, i)

only_star : (vs : List Text) → vs ≢ [] → All (λ v. v ≡ star) vs → In star vs
only_star [] n a = absurd (n refl)
only_star (v ∷ vs) n (e, a) = inl (sym e)

SomeUnknown-Carried :
    (id : CapabilityId) (ss : List Capability)
    → All (λ s. s.values ≢ []) ss
    → SomeUnknown id ss
    → Carried star ss
SomeUnknown-Carried id [] a o = elim o [ ]
SomeUnknown-Carried id (s ∷ ss) (n, a) (inl (inl stars)) = (s, inl refl, only_star s.values n stars)
SomeUnknown-Carried id (s ∷ ss) (n, a) (inl (inr (e, i))) = (s, inl refl, i)
SomeUnknown-Carried id (s ∷ ss) (n, a) (inr o) =
    let (s', j, i) = SomeUnknown-Carried id ss a o in (s', inr j, i)

merged-Carried :
    (id : CapabilityId) (ss : List Capability) (v : Text)
    → All (λ s. s.values ≢ []) ss
    → In v (merge_class_signals id ss).values
    → Carried v ss
merged-Carried id ss v a i = elim ((In-merge_class_signals id ss v).0.0 i) [
  | inl (o, _) ↦ Offered-Carried v ss o
  | inr (e, _, o) ↦ rw e (SomeUnknown-Carried id ss a o)
]

filled_test : {A : Type 0} (xs : List A) → xs ≢ [] → is_empty xs ≡ false
filled_test [] n = absurd (n refl)
filled_test (x ∷ xs) n = refl

-- With signals of the rules, suggestions are not asked, and only proc.exec is clamped.
signals-rules :
    (classify : Classifier) (llm : Option Classifier) (tools : List ToolIr) (id : CapabilityId)
    → rule_signals classify tools id ≢ []
    → signals classify llm tools id ≡ rule_signals classify tools id
unfolding signals
signals-rules classify none tools id n = refl
signals-rules classify (some suggest) tools id n =
    rw (filled_test (rule_signals classify tools id) n)

infer_class-values :
    (id : CapabilityId) (ss : List Capability)
    → (infer_class id ss).values ≡ (merge_class_signals id ss).values
unfolding infer_class merge_class_signals
infer_class-values id [] = refl
infer_class-values id (s ∷ ss) = ground arith

granted-some :
    (p : Policy) (id : CapabilityId) (x c : Capability)
    → cap p id ≡ some x
    → granted p id ≡ some c
    → c ≡ x
unfolding granted
granted-some p id x c e h = ground arith

-- A value that an inferred policy grants, where no override decides, is one that an inferred signal
-- of the rules for the class offers, where no inferred signal is without values.
pub granted-value :
    (classify : Classifier) (digest : Value → Text) (m : Manifest) (server_id : Option Text)
    (overrides : List Capability) (llm : Option Classifier) (id : CapabilityId) (c : Capability)
    (v : Text)
    → last_override id overrides ≡ none
    → ((t : ToolIr) (s : Capability) → In s (classify t) → s.status ≡ inferred → s.values ≢ [])
    → granted (infer_policy classify digest m server_id overrides llm) id ≡ some c
    → In v c.values
    → (s : Capability) × FromTool classify m.tools id s × (s.status ≡ inferred) × In v s.values
granted-value classify digest m server_id overrides llm id c v free full h i =
    let rules = rule_signals classify m.tools id in
    let (_, n, a) =
      (granted-infer_policy_iff classify digest m server_id overrides llm id free).0
        (λ e. cc (h, e)) in
    let same =
      granted-some _ id _ c ((cap-infer_policy classify digest m server_id overrides llm).1 id) h in
    let c_eq : c ≡ infer_class id (signals classify llm m.tools id) = rw free at same in
    let vs : c.values ≡ (merge_class_signals id rules).values =
      rw (c_eq, infer_class-values, signals-rules classify llm m.tools id n) refl in
    let (s, j, k) =
      merged-Carried id rules v
        (All-intro (λ s. s.values ≢ []) rules
          (λ s j.
            let (t, _, l, _) = rule_signals-FromTool classify m.tools id s j in
            full t s l (All-at (λ s. s.status ≡ inferred) s rules a j)))
        (rw vs at i) in
    (
      s,
      rule_signals-FromTool classify m.tools id s j,
      All-at (λ s. s.status ≡ inferred) s rules a j,
      k,
    )

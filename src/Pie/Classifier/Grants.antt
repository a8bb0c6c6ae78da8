-- ===== src/Pie/Classifier/Grants.antt =====
-- What a policy grants that is inferred by the rules, about `pie/classifier.py`.
use mcp_contract.Base.{
  ◌≡◌, ◌≢◌, ◌↔◌, ◌⊎◌, inl, inr, refl, false, List, [], ◌∷◌, Option, none, some, contains, keep,
  arith, In, In-append, All-at, contains_iff, subst, Text, text_eq, nat_eq, Value, Builtins,
}
use mcp_contract.Models.{
  CapabilityId, net_http, fs_read, fs_write, proc_exec, inferred, needs_review, id_eq, status_eq,
  class_eq, Capability, ToolIr, Manifest, granted,
}
use mcp_contract.Proxy.Plan.{sort_texts}
use mcp_contract.Proxy.Plan.Laws.{In-sort_texts}
use mcp_contract.Regex.Laws.{Occurs, first_match_iff}
use mcp_contract.Pie.Patterns.{Unicode, proc_re}
use mcp_contract.Pie.Words.{name_hit, name_tokens, first_hit, proc_name_tokens, net_context}
use mcp_contract.Pie.Net.{classify_net}
use mcp_contract.Pie.Net.Laws.{HostLiteral, classify_net-inferred}
use mcp_contract.Pie.Classifier.{
  direction_evidence, classify_fs, classify_proc, classify_env, classify_tool,
}
use mcp_contract.Pie.Classifier.Laws.{
  PathLiteral, IsFileGrant, classify_fs-inferred, flagged-review, flagged-filled_iff,
  notes-filled_iff,
}
use mcp_contract.Pie.Infer.{infer_policy}
use mcp_contract.Pie.Infer.Laws.{last_override}
use mcp_contract.Pie.Infer.Values.{granted-value}

first_hit_iff : (ts : List Text) → ((t : Text) × (first_hit ts ≡ some t)) ↔ ((t : Text) × In t ts)
first_hit_iff [] = (λ (t, h). cc, λ (t, i). elim i [ ])
first_hit_iff (t ∷ ts) = (λ h. (t, inl refl), λ h. (t, refl))

In-keep :
    (words : List Text) (t : Text) (ts : List Text)
    → In t (keep (contains words) ts) ↔ (In t ts × In t words)
In-keep words t [] = ground arith
In-keep words t (s ∷ ts) =
    ground (arith, In-keep words t ts, contains_iff words s, contains_iff words t)

-- A word is found in a tool's name exactly where it is one of the tokens of the name.
name_hit_iff :
    (words : List Text) (name : Text)
    → ((t : Text) × (name_hit words name ≡ some t))
      ↔ ((t : Text) × In t (name_tokens name) × In t words)
unfolding name_hit
name_hit_iff words name =
    let kept = keep (contains words) (name_tokens name) in
    (
      λ h.
          let (t, i) = (first_hit_iff (sort_texts kept)).0 h in
          let (j, k) = (In-keep words t (name_tokens name)).0 ((In-sort_texts t kept).0 i) in
          (t, j, k),
      λ (t, j, k).
          (first_hit_iff (sort_texts kept)).1
            (t, (In-sort_texts t kept).1 ((In-keep words t (name_tokens name)).1 (j, k))),
    )

module _ (u : Unicode) (tool : ToolIr) where
  -- The rules flag proc.exec for a tool exactly where a token of its name is an exec term or its
  -- description has a match of the exec pattern, and then for review only.
  pub classify_proc_iff :
      ((classify_proc u tool ≢ []) ↔ (
        ((t : Text) × In t (name_tokens tool.name) × In t proc_name_tokens)
        ⊎ Occurs (proc_re u) tool.description))
      × ((c : Capability)
          → In c (classify_proc u tool)
          → (c.id ≡ proc_exec) × (c.status ≡ needs_review))
  unfolding classify_proc
  classify_proc_iff = (
    (
      λ h.
          elim ((notes-filled_iff u tool _ _ _ _).0
            ((flagged-filled_iff u tool proc_exec [] _).0 h)) [
              | inl x ↦ inl ((name_hit_iff proc_name_tokens tool.name).0 x)
              | inr y ↦ inr ((first_match_iff (proc_re u) tool.description).0 y)
            ],
      λ o. (flagged-filled_iff u tool proc_exec [] _).1 (
          (notes-filled_iff u tool _ _ _ _).1 (elim o [
            | inl x ↦ inl ((name_hit_iff proc_name_tokens tool.name).1 x)
            | inr y ↦ inr ((first_match_iff (proc_re u) tool.description).1 y)
          ])),
    ),
    flagged-review u tool proc_exec [] _,
  )

  -- What may stand for a value of the class: a host literal; or a path literal of a tool that shows
  -- the direction and no sign of the network.
  abbrev pub Literal : CapabilityId → Text → Type 0
  Literal net_http v = HostLiteral u tool v
  Literal fs_read v =
      PathLiteral u tool v × (direction_evidence u tool fs_read ≢ []) × (net_context u tool ≡ false)
  Literal fs_write v =
      PathLiteral u tool v
      × (direction_evidence u tool fs_write ≢ [])
      × (net_context u tool ≡ false)
  Literal _ v = ⊥

  file-Literal : (c : Capability) (v : Text) → IsFileGrant u tool c → In v c.values → Literal c.id v
  file-Literal c v g i = elim g.direction [
    | inl e ↦
        rw e (All-at (PathLiteral u tool) v c.values g.literal i, rw e at g.evident, g.offline)
    | inr e ↦
        rw e (All-at (PathLiteral u tool) v c.values g.literal i, rw e at g.evident, g.offline)
  ]

  classify_tool-Literal :
      (py : Builtins) (c : Capability)
      → In c (classify_tool u py tool)
      → c.status ≡ inferred
      → (c.values ≢ []) × ((v : Text) → In v c.values → Literal c.id v)
  unfolding classify_tool classify_proc classify_env
  classify_tool-Literal py c i e = elim ((In-append c (classify_net u py tool) _).0 i) [
    | inl j ↦
        (let (id, literal, some_host, _) = classify_net-inferred u tool py c j e in
          (some_host, λ v k. rw id (All-at (HostLiteral u tool) v c.values literal k)))
    | inr j ↦ elim ((In-append c (classify_fs u tool) _).0 j) [
      | inl k ↦
          (let g = classify_fs-inferred u tool c k e in (g.some_path, λ v l. file-Literal c v g l))
      | inr k ↦ elim ((In-append c (classify_proc u tool) (classify_env u tool)).0 k) [
        | inl l ↦ cc ((flagged-review u tool _ _ _ c l).1, e)
        | inr l ↦ cc ((flagged-review u tool _ _ _ c l).1, e)
      ]
    ]
  ]

-- A value that a policy inferred by the rules grants, where no override decides, is a literal of
-- some tool of the manifest, of the kind that its class asks for.
pub granted-Literal :
    (u : Unicode) (py : Builtins) (digest : Value → Text) (m : Manifest) (server_id : Option Text)
    (overrides : List Capability) (llm : Option (ToolIr → List Capability)) (id : CapabilityId)
    (c : Capability) (v : Text)
    → last_override id overrides ≡ none
    → granted (infer_policy (classify_tool u py) digest m server_id overrides llm) id ≡ some c
    → In v c.values
    → (t : ToolIr) × In t m.tools × Literal u t id v
granted-Literal u py digest m server_id overrides llm id c v free h i =
    let (s, (t, j, k, same), e, l) =
      granted-value (classify_tool u py) digest m server_id overrides llm id c v free
        (λ t s k e. (classify_tool-Literal u t py s k e).0) h i in
    (t, j, subst (λ id. Literal u t id v) same ((classify_tool-Literal u t py s k e).1 v l))

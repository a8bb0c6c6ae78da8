-- ===== src/Loader/Laws.antt =====
-- What loading a manifest promises, about `manifest.py`.
use mcp_contract.Base.{
  bind-ok, ok-inj, ◌≡◌, ◌↔◌, ◌⊎◌, inl, inr, refl, sym, ap, ◌∙◌, false, List, [], ◌∷◌, map, Option,
  none, some, is_empty, Option-cases, Items, arr, items, ◌≢◌, arith, All, subst, Text, txt, text_eq,
  nat_eq, Value, str, obj, Fields, get, Result, ok, err, ◌>>=◌, traverse, Builtins,
}
use mcp_contract.Models.{id_eq, status_eq, class_eq, ToolIr, Manifest}
use mcp_contract.Loader.{
  as_text, named_tool, tool_ir, result_scope, tool_list, extract_tools, scope_name, server_name,
  load_document,
}
use mcp_contract.Loader.Names.{server_name-named, plain_tools, nested_tools, nested_server_name}

-- An entry that is an object with a name.
abbrev pub IsTool : Value → Type 0
IsTool v =
    (entry : Fields) × (name : Text) × (v ≡ obj entry)
    × (get (txt "name") entry ≡ some (str name))
    × (is_empty name ≡ false)

-- A usable name: a text that is not empty.
as_text-cases :
    (o : Option Value)
    → (as_text o ≡ none)
      ⊎ ((s : Text) × (o ≡ some (str s)) × (is_empty s ≡ false) × (as_text o ≡ some s))
as_text-cases (some (str (c ∷ s))) = inr (c ∷ s, refl, refl, refl)
as_text-cases _ = inl refl

some-inj : {a b : Text} → some a ≡ some b → a ≡ b
some-inj h = cc

pushed-ok :
    {A : Type 0} (m : Result A) (n : Result (List A)) (ts : List A)
    → (do y ← m; ys ← n; ok (y ∷ ys)) ≡ ok ts
    → (y : A) × (ys : List A) × (m ≡ ok y) × (n ≡ ok ys) × (ts ≡ y ∷ ys)
pushed-ok (ok y) (ok ys) ts h = (y, ys, refl, refl, cc)
pushed-ok (ok y) (err e) ts h = cc
pushed-ok (err e) n ts h = cc

-- The manifest keeps its document, has one tool for each entry of the tool list, in order, and
-- neither it nor any of its tools is without a name.
abbrev pub IsFaithful : Fields → Manifest → Type 0
IsFaithful doc m =
    (m.raw ≡ doc)
    × (extract_tools doc ≡ ok (map (λ (t : ToolIr). obj t.raw) m.tools))
    × All (λ (t : ToolIr). is_empty t.name ≡ false) m.tools
    × (is_empty m.server_name ≡ false)

-- The tool list of a document: its `tools` where it has the key, else the `tools` of the object in
-- its `result`, as in a JSON-RPC response; a list either way.
abbrev pub IsToolList : Fields → List Value → Type 0
IsToolList doc entries =
    ((vs : Items) × (get (txt "tools") doc ≡ some (arr vs)) × (items vs ≡ entries))
    ⊎ ((get (txt "tools") doc ≡ none)
        × ((inner : Fields) × (vs : Items) × (get (txt "result") doc ≡ some (obj inner))
            × (get (txt "tools") inner ≡ some (arr vs))
            × (items vs ≡ entries)))

tool_list_iff :
    (o : Option Value) (entries : List Value)
    → (tool_list o ≡ ok entries) ↔ ((vs : Items) × (o ≡ some (arr vs)) × (items vs ≡ entries))
unfolding tool_list
tool_list_iff (some (arr vs)) entries = (λ h. (vs, refl, ok-inj h), λ (ws, e, i). cc)
tool_list_iff _ entries = (λ h. cc, λ (ws, e, i). cc)

result_scope-cases :
    (o : Option Value)
    → ((inner : Fields) × (o ≡ some (obj inner)) × (result_scope o ≡ some inner))
      ⊎ ((result_scope o ≡ none) × ((inner : Fields) → o ≢ some (obj inner)))
unfolding result_scope
result_scope-cases (some (obj fs)) = inl (fs, refl, refl)
result_scope-cases _ = inr (refl, λ inner e. cc)

extract_tools_iff :
    (doc : Fields) (entries : List Value)
    → (extract_tools doc ≡ ok entries) ↔ IsToolList doc entries
unfolding extract_tools
extract_tools_iff doc entries = elim (Option-cases (get (txt "tools") doc)) [
  | inr (v, t) ↦
      let (there, back) = tool_list_iff (some v) entries in
      rw t (λ h. inl (there h), λ k. elim k [ inl l ↦ back l | inr (n, _) ↦ cc ])
  | inl t ↦ elim (result_scope-cases (get (txt "result") doc)) [
    | inl (inner, r, e) ↦
        let (there, back) = tool_list_iff (get (txt "tools") inner) entries in
        rw (t, e)
          (
            λ h. inr (refl, (inner, (there h).0, r, (there h).1, (there h).2)),
            λ k. elim k [
              | inl (vs, n, _) ↦ cc
              | inr (_, (other, vs, q, g, i)) ↦
                  let same : get (txt "tools") inner ≡ get (txt "tools") other = cc in
                  back (vs, same ∙ g, i)
            ],
          )
    | inr (e, other) ↦
        rw (t, e)
          (
            λ h. cc,
            λ k. elim k [
              | inl (vs, n, _) ↦ cc
              | inr (_, (inner, vs, q, g, i)) ↦ absurd (other inner q)
            ],
          )
  ]
]

module _ (py : Builtins) where
  named_tool-ok :
      (entry : Fields) (o : Option Text) (t : ToolIr)
      → named_tool py entry o ≡ ok t
      → (o ≡ some t.name) × (t.raw ≡ entry)
  unfolding named_tool
  named_tool-ok entry none t h = cc
  named_tool-ok entry (some name) t h = ground arith

  named_tool-accepts :
      (entry : Fields) (name : Text) → (t : ToolIr) × (named_tool py entry (some name) ≡ ok t)
  unfolding named_tool
  named_tool-accepts entry name = (_, refl)

  tool_ir-ok :
      (v : Value) (t : ToolIr)
      → tool_ir py v ≡ ok t
      → IsTool v × (obj t.raw ≡ v) × (is_empty t.name ≡ false)
  unfolding tool_ir
  tool_ir-ok (obj entry) t h = elim (as_text-cases (get (txt "name") entry)) [
    | inl z ↦ cc ((named_tool-ok entry _ t h).0, z)
    | inr (s, g, n, k) ↦
        (let (e, r) = named_tool-ok entry _ t h in
          let same = some-inj (sym k ∙ e) in ((entry, s, refl, g, n), ap obj r, rw same at n))
  ]
  tool_ir-ok _ t h = cc

  tool_ir-accepts : (v : Value) → IsTool v → (t : ToolIr) × (tool_ir py v ≡ ok t)
  unfolding tool_ir
  tool_ir-accepts v (entry, [], e, g, n) = cc
  tool_ir-accepts v (entry, c ∷ s, e, g, n) = rw (e, g) (named_tool-accepts entry (c ∷ s))

  -- What a comprehension over the tool entries keeps.
  traverse-ok :
      (vs : List Value) (ts : List ToolIr)
      → traverse (tool_ir py) vs ≡ ok ts
      → All IsTool vs
        × (map (λ (t : ToolIr). obj t.raw) ts ≡ vs)
        × All (λ (t : ToolIr). is_empty t.name ≡ false) ts
  unfolding traverse
  traverse-ok [] [] h = (tt, refl, tt)
  traverse-ok [] (t ∷ ts) h = cc
  traverse-ok (v ∷ vs) ts h =
      let (u, us, p, q, e) = pushed-ok (tool_ir py v) (traverse (tool_ir py) vs) ts h in
      let (is_tool, r, n) = tool_ir-ok v u p in
      let (are_tools, rs, ns) = traverse-ok vs us q in
      rw e ((is_tool, are_tools), cc (r, rs), (n, ns))

  traverse-accepts :
      (vs : List Value) → All IsTool vs → (ts : List ToolIr) × (traverse (tool_ir py) vs ≡ ok ts)
  unfolding traverse
  traverse-accepts [] a = ([], refl)
  traverse-accepts (v ∷ vs) (a, as') =
      let (t, p) = tool_ir-accepts v a in
      let (ts, q) = traverse-accepts vs as' in (t ∷ ts, rw (p, q))

  abbrev built : Text → Fields → List ToolIr → Result Manifest
  built name doc tools = ok (record { server_name = name; tools = tools; raw = doc })

  built-raw :
      (m : Result (List ToolIr)) (name : Text) (doc inner : Fields)
      → (m >>= built name doc)
        ≡ (do manifest ← m >>= built name inner; ok (record manifest { raw = doc }))
  built-raw (ok tools) name doc inner = refl
  built-raw (err e) name doc inner = refl

  relabelled :
      (m : Result (List Value)) (name : Text) (doc inner : Fields)
      → (do entries ← m; tools ← traverse (tool_ir py) entries; built name doc tools) ≡ (do
        manifest ← (do entries ← m; tools ← traverse (tool_ir py) entries; built name inner tools)
        ok (record manifest { raw = doc }))
  relabelled (ok entries) name doc inner = built-raw (traverse (tool_ir py) entries) name doc inner
  relabelled (err e) name doc inner = refl

  -- A document is accepted exactly when it has a tool list, its own `tools` or, where it has none, those
  -- of the object in its `result`, and each entry of the list is an object with a name that is not
  -- empty.
  pub load_document-accepts_iff :
      (doc : Fields) (stem : Option Text)
      → ((m : Manifest) × (load_document py doc stem ≡ ok m))
        ↔ ((entries : List Value) × IsToolList doc entries × All IsTool entries)
  unfolding load_document
  load_document-accepts_iff doc stem = (
    λ (m, h).
        let (entries, e, k) = bind-ok (extract_tools doc) _ m h in
        let (ts, q, _) = bind-ok (traverse (tool_ir py) entries) _ m k in
        (entries, (extract_tools_iff doc entries).0 e, (traverse-ok entries ts q).0),
    λ (entries, l, are_tools).
        let e = (extract_tools_iff doc entries).1 l in
        let (ts, q) = traverse-accepts entries are_tools in rw (e, q) (_, refl),
  )

  -- A manifest that is loaded keeps its document, has one tool for each entry of the tool list and
  -- in its order, and neither it nor any of its tools is without a name.
  pub load_document-named :
      (doc : Fields) (stem : Option Text) (m : Manifest)
      → load_document py doc stem ≡ ok m
      → IsFaithful doc m
  unfolding load_document
  load_document-named doc stem m h =
      let (entries, e, k) = bind-ok (extract_tools doc) _ m h in
      let (ts, q, w) = bind-ok (traverse (tool_ir py) entries) _ m k in
      let (_, r, named) = traverse-ok entries ts q in
      subst (λ m. IsFaithful doc m) (ok-inj w)
        (refl, e ∙ ap ok (sym r), named, server_name-named doc stem)

  -- A JSON-RPC response that has neither tools nor a server name of its own is loaded as the tool
  -- list in its `result`, where that is an object with no such `result` itself; errors included.
  pub load_document-envelope :
      (doc inner : Fields) (stem : Option Text)
      → get (txt "result") doc ≡ some (obj inner)
      → get (txt "tools") doc ≡ none
      → scope_name doc ≡ none
      → result_scope (get (txt "result") inner) ≡ none
      → load_document py doc stem
        ≡ (do m ← load_document py inner stem; ok (record m { raw = doc }))
  unfolding load_document
  load_document-envelope doc inner stem r t n z = rw (
    nested_tools doc inner r t,
    plain_tools inner z,
    nested_server_name doc inner stem r n z,
    relabelled (tool_list (get (txt "tools") inner)) (server_name inner stem) doc inner,
  )

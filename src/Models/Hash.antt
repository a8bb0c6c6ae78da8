-- ===== src/Models/Hash.antt =====
-- src/mcp_contract/models.py: `Manifest.hash`, over the tools sorted by name.
use mcp_contract.Base.{
  Bool, true, false, List, [], ◌∷◌, ◌++◌, map, if◌then◌else◌, leb, nat_beq, Text, txt, text_eq,
  nat_eq, Value, str, arr, obj, end, dict, list, get_or, Result, ok, ◌>>=◌,
}
use mcp_contract.Models.{id_eq, status_eq, class_eq, ToolIr, Manifest}

-- `s <= t` of texts, by code points.
unfoldable pub text_leb : Text → Text → Bool
text_leb [] t = true
text_leb (c ∷ s) [] = false
text_leb (c ∷ s) (d ∷ t) = if nat_beq c d then text_leb s t else leb c d

-- `sorted(tools, key=lambda t: t.name)`, which is stable.
unfoldable pub insert_tool : ToolIr → List ToolIr → List ToolIr
insert_tool t [] = t ∷ []
insert_tool t (u ∷ us) = if text_leb t.name u.name then t ∷ u ∷ us else u ∷ insert_tool t us

unfoldable pub sort_tools : List ToolIr → List ToolIr
sort_tools [] = []
sort_tools (t ∷ ts) = insert_tool t (sort_tools ts)

-- What the hash covers of a tool.
unfoldable pub tool_payload : ToolIr → Value
tool_payload t = obj (
    dict (
      (txt "name", str t.name)
      ∷ (txt "description", str t.description)
      ∷ (txt "inputSchema", obj t.input_schema)
      ∷ (txt "annotations", get_or (txt "annotations") (obj end) t.raw)
      ∷ (
        txt "outputSchema",
        get_or (txt "outputSchema") (get_or (txt "output_schema") (obj end) t.raw) t.raw,
      )
      ∷ []))

unfoldable pub hash_payload : Manifest → Value
hash_payload m = arr (list (map tool_payload (sort_tools m.tools)))

-- `digest` is the SHA-256, in hexadecimal, of a document's canonical JSON text.
unfoldable pub hash : (Value → Text) → Manifest → Text
hash digest m = txt "sha256:" ++ digest (hash_payload m)

-- `Manifest.hash` where `json.dumps` may raise, as it does for a document with a date; `hash` is the
-- value where it does not.
unfoldable pub hash_of : (Value → Result Text) → Manifest → Result Text
hash_of digest m = do d ← digest (hash_payload m); ok (txt "sha256:" ++ d)

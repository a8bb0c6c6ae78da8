-- ===== src/Tests/Loading.antt =====
-- Manifest loading: runs, and the theorems at concrete inputs.
use mcp_contract.Base.{
  ◌≡◌, ◌↔◌, refl, List, [], ◌∷◌, none, some, txt, text_eq, Value, str, arr, obj, Fields, dict, list,
  ok, ◌>>=◌, traverse, All, get,
}
use mcp_contract.Models.{Manifest, ToolIr}
use mcp_contract.Loader.{
  named_tool, tool_ir, result_scope, tool_list, extract_tools, scope_name, server_name,
  load_document,
}
use mcp_contract.Loader.Laws.{
  IsTool, IsToolList, IsFaithful, load_document-accepts_iff, load_document-named,
  load_document-envelope,
}
use mcp_contract.Tests.Fixtures.{plain}

abbrev fetch : Fields
fetch = dict ((txt "name", str (txt "fetch")) ∷ [])

abbrev tools_result : Fields
tools_result =
    dict ((txt "tools", arr (list (obj fetch ∷ []))) ∷ (txt "name", str (txt "web")) ∷ [])

abbrev response : Fields
response = dict ((txt "result", obj tools_result) ∷ [])

abbrev fetch_tool : ToolIr
fetch_tool = record { name = txt "fetch"; description = []; input_schema = dict []; raw = fetch }

abbrev web : Manifest
web = record { server_name = txt "web"; tools = fetch_tool ∷ []; raw = tools_result }

load_web : load_document plain tools_result none ≡ ok web
unfolding load_document extract_tools tool_list tool_ir named_tool server_name scope_name
    result_scope text_eq traverse
load_web = refl

load_document-accepts_iff_example :
    ((m : Manifest) × (load_document plain tools_result none ≡ ok m))
    ↔ ((entries : List Value) × IsToolList tools_result entries × All IsTool entries)
load_document-accepts_iff_example = load_document-accepts_iff plain tools_result none

load_document-named_example : IsFaithful tools_result web
load_document-named_example = load_document-named plain tools_result none web load_web

no_scope_name : scope_name response ≡ none
unfolding scope_name text_eq
no_scope_name = refl

no_nested_result : result_scope (get (txt "result") tools_result) ≡ none
unfolding result_scope text_eq
no_nested_result = refl

result_of_response : get (txt "result") response ≡ some (obj tools_result)
unfolding text_eq
result_of_response = refl

no_tools : get (txt "tools") response ≡ none
unfolding text_eq
no_tools = refl

load_document-envelope_example :
    load_document plain response none
    ≡ (do m ← load_document plain tools_result none; ok (record m { raw = response }))
load_document-envelope_example =
    load_document-envelope plain response tools_result none result_of_response no_tools
      no_scope_name no_nested_result

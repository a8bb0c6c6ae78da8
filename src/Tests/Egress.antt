-- ===== src/Tests/Egress.antt =====
-- The egress proxy: runs, and the theorems at concrete inputs.
use mcp_contract.Base.{
  ◌≡◌, ◌↔◌, refl, true, false, [], ◌∷◌, Option, none, some, ◌==◌, if◌then◌else◌, All, add_new,
  add_all, ℤ, pos, Text, txt, text_eq, nat_eq, Result, ok,
}
use mcp_contract.Models.{net_http, id_eq, status_eq, class_eq, within_policy}
use mcp_contract.Bcm.Diff.{classify_value}
use mcp_contract.Proxy.Plan.{egress_plan, allowed, sort_texts, insert_text}
use mcp_contract.Models.Hash.{text_leb}
use mcp_contract.Proxy.Plan.Laws.{allowed-egress_plan_iff}
use mcp_contract.Proxy.Server.{
  Config, World, Url, Stdlib, Request, split_host_port, do_connect, do_http, header_lines, cut_at,
  rcut_at, bracket_port, split_plain,
}
use mcp_contract.Proxy.Server.Laws.{
  DialsAllowed, dials_allowed, Agrees, enforcing, do_connect-Agrees, do_http-Agrees,
}
use mcp_contract.Proxy.Server.Sockets.{after, sockets_closed}
use mcp_contract.Tests.Fixtures.{classification, texts, plain, policy}

abbrev digits : Text → Option ℤ
digits [] = none
digits s = if s == txt "8443" then some (pos 8443) else none

abbrev split_any : Text → Result Url
split_any t = ok (record { hostname = none; port = ok none; path = t; query = [] })

abbrev stdlib : Stdlib
stdlib = record { urlsplit = split_any; parse_int = digits; b64 = λ t. t }

abbrev world : World
world = record {
  connect_error = λ host port. none;
  reply_sent = true;
  head_accepted = true;
  body_accepted = true;
  now = 0;
}

abbrev request : Text → Request
request path = record {
  command = txt "CONNECT";
  path = path;
  version = txt "HTTP/1.1";
  headers = [];
}

abbrev config : Config
config = enforcing plain stdlib policy [] none world (request [])

targets :
    (split_host_port stdlib (txt " api.github.com:8443") (pos 443)
      ≡ (txt "api.github.com", pos 8443))
    × (split_host_port stdlib (txt "[::1]:8443") (pos 443) ≡ (txt "::1", pos 8443))
    × (split_host_port stdlib (txt "[::1") (pos 443) ≡ (txt "[::1", pos 443))
    × (split_host_port stdlib (txt "host:x") (pos 443) ≡ (txt "host:x", pos 443))
unfolding split_host_port bracket_port split_plain cut_at rcut_at texts
targets = (refl, refl, refl, refl)

-- The proxy's own credential is sent on to the upstream server.
credential_forwarded :
    header_lines stdlib
      ((txt "Proxy-Authorization", txt "Basic x") ∷ (txt "Connection", txt "close") ∷ [])
    ≡ txt "Proxy-Authorization: Basic x" ∷ []
unfolding header_lines texts
credential_forwarded = refl

allowed-egress_plan_iff_example :
    (allowed (egress_plan policy) (txt "api.github.com") ≡ true)
    ↔ (classify_value net_http (txt "api.github.com") policy [] ≡ within_policy)
allowed-egress_plan_iff_example = allowed-egress_plan_iff policy (txt "api.github.com") []

abbrev asked : Request
asked = request (txt "api.github.com:8443")

dials_allowed_example :
    All (DialsAllowed stdlib config world asked) (do_connect stdlib config world asked)
    × All (DialsAllowed stdlib config world asked) (do_http stdlib config world asked)
dials_allowed_example = dials_allowed stdlib config world asked

do_connect-Agrees_example :
    All (Agrees plain stdlib policy []) (do_connect stdlib config world asked)
do_connect-Agrees_example = do_connect-Agrees plain stdlib policy [] none world asked

no_host : allowed (egress_plan policy) [] ≡ false
unfolding allowed egress_plan sort_texts insert_text add_all add_new text_leb classification
no_host = refl

do_http-Agrees_example : All (Agrees plain stdlib policy []) (do_http stdlib config world asked)
do_http-Agrees_example = do_http-Agrees plain stdlib policy [] none world asked no_host

sockets_closed_example :
    (after (some false) (do_connect stdlib config world asked) ≡ some false)
    × (after (some false) (do_http stdlib config world asked) ≡ some false)
sockets_closed_example = sockets_closed stdlib config world asked

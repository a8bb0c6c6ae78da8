-- ===== src/Pie/Net/Laws.antt =====
-- Which hosts `_classify_net` offers for a grant, about `pie/classifier.py`.
use mcp_contract.Base.{
  ◌≡◌, ◌≢◌, ◌⊎◌, inl, inr, refl, Bool, true, false, not, ◌&&◌, List, [], ◌∷◌, contains,
  if◌then◌else◌, is_empty, In, All, All-append, All-map, All-mono, contains_iff, Bool-cases, Text,
  text_eq, nat_eq, lower, Builtins,
}
use mcp_contract.Models.{
  net_http, inferred, needs_review, id_eq, status_eq, class_eq, Evidence, Capability, ToolIr,
}
use mcp_contract.Regex.{find_all}
use mcp_contract.Regex.Matches.{IsMatch, find_all-IsMatch}
use mcp_contract.Pie.Patterns.{Unicode, url_re, hostname_re}
use mcp_contract.Pie.Words.{
  file_extensions, known_tlds, dedupe_add, label_of, params, stripped, hostnames, host_from_url,
}
use mcp_contract.Pie.Net.{
  Hosts, no_hosts, add_url, add_urls, add_hostname, add_hostnames, hosts_in, net_params,
  net_confirmed, net_signal, classify_net,
}

-- Of a signal that is inferred and one that is not, the inferred one is there if its test holds.
inferred_one :
    (b d : Bool) (x y : Capability) (c : Capability)
    → In c (if b then x ∷ [] else if d then [] else y ∷ [])
    → c.status ≡ inferred
    → y.status ≡ needs_review
    → (b ≡ true) × (c ≡ x)
inferred_one true d x y c (inl same) e r = (refl, same)
inferred_one true d x y c (inr i) e r = elim i [ ]
inferred_one false true x y c i e r = elim i [ ]
inferred_one false false x y c (inl same) e r = cc
inferred_one false false x y c (inr i) e r = elim i [ ]

unclamped :
    (hosts : List Text) (ps : List Evidence) (b : Bool)
    → (not (is_empty hosts) && (is_empty ps && b)) ≡ true
    → (hosts ≢ []) × (ps ≡ [])
unclamped [] ps b h = cc
unclamped (v ∷ vs) [] b h = (λ e. cc, refl)
unclamped (v ∷ vs) (p ∷ ps) b h = cc

module _ (P : Text → Type 0) where
  pub dedupe_add-All :
      (values : List Text) (v : Text) → All P values → (v ≢ [] → P v) → All P (dedupe_add values v)
  unfolding dedupe_add
  dedupe_add-All values [] a p = a
  dedupe_add-All values (c ∷ s) a p = elim (Bool-cases (contains values (c ∷ s))) [
    | inl old ↦ rw old a
    | inr new ↦ rw new (All-append P values ((c ∷ s) ∷ []) a (p cc, tt))
  ]

module _ (u : Unicode) (tool : ToolIr) where
  -- The host of a URL in the description.
  abbrev pub UrlHost : Text → Type 0
  UrlHost v =
      (url rest : Text) × IsMatch (url_re u) tool.description url rest × (v ≡ host_from_url u url)

  -- A hostname in the rest of the description whose last label is a known domain.
  abbrev pub NamedHost : Text → Type 0
  NamedHost v =
      (name rest : Text) × IsMatch (hostname_re u) (stripped u tool) name rest
      × (v ≡ lower name)
      × In (label_of v) known_tlds
      × ¬ (In (label_of v) file_extensions)

  abbrev pub HostLiteral : Text → Type 0
  HostLiteral v = UrlHost v ⊎ NamedHost v

  abbrev IsUrl : Text → Type 0
  IsUrl url = (rest : Text) × IsMatch (url_re u) tool.description url rest

  abbrev IsName : Text → Type 0
  IsName v =
      (name rest : Text) × IsMatch (hostname_re u) (stripped u tool) name rest × (v ≡ lower name)

  add_url-All :
      (h : Hosts) (url : Text)
      → All HostLiteral h.hosts
      → IsUrl url
      → All HostLiteral (add_url u tool h url).hosts
  unfolding add_url
  add_url-All h url a (rest, m) = elim (Bool-cases (is_empty (host_from_url u url))) [
    | inl e ↦ rw e a
    | inr e ↦
        rw e (
          dedupe_add-All HostLiteral h.hosts (host_from_url u url) a
            (λ _. inl (url, rest, m, refl)))
  ]

  add_urls-All :
      (h : Hosts) (urls : List Text)
      → All HostLiteral h.hosts
      → All IsUrl urls
      → All HostLiteral (add_urls u tool h urls).hosts
  unfolding add_urls
  add_urls-All h [] a is = a
  add_urls-All h (url ∷ urls) a (i, is) =
      add_urls-All (add_url u tool h url) urls (add_url-All h url a i) is

  add_hostname-All :
      (h : Hosts) (v : Text)
      → All HostLiteral h.hosts
      → IsName v
      → All HostLiteral (add_hostname u tool h v).hosts
  unfolding add_hostname
  add_hostname-All h v a (name, rest, m, e) =
      elim (Bool-cases (contains file_extensions (label_of v))) [
        | inl file ↦ rw file a
        | inr other ↦ elim (Bool-cases (contains known_tlds (label_of v))) [
          | inl known ↦
              rw (other, known)
                (dedupe_add-All HostLiteral h.hosts v a (λ _. inr (
                  name,
                  rest,
                  m,
                  e,
                  (contains_iff known_tlds (label_of v)).0 known,
                  λ i. cc ((contains_iff file_extensions (label_of v)).1 i, other),
                )))
          | inr unknown ↦ elim (Bool-cases (contains h.hosts v)) [
            | inl old ↦ rw (other, unknown, old) a
            | inr new ↦ rw (other, unknown, new) a
          ]
        ]
      ]

  add_hostnames-All :
      (h : Hosts) (vs : List Text)
      → All HostLiteral h.hosts
      → All IsName vs
      → All HostLiteral (add_hostnames u tool h vs).hosts
  unfolding add_hostnames
  add_hostnames-All h [] a is = a
  add_hostnames-All h (v ∷ vs) a (i, is) =
      add_hostnames-All (add_hostname u tool h v) vs (add_hostname-All h v a i) is

  hosts_in-All : All HostLiteral (hosts_in u tool).hosts
  unfolding hosts_in hostnames
  hosts_in-All =
      add_hostnames-All _ (hostnames u tool)
        (add_urls-All no_hosts _ tt (find_all-IsMatch (url_re u) tool.description))
        (All-map IsName lower (find_all (hostname_re u) (stripped u tool)) (
          All-mono _ (λ t. IsName (lower t)) _ (λ t (rest, m). (t, rest, m, refl))
            (find_all-IsMatch (hostname_re u) (stripped u tool))))

  net_signal-inferred :
      (py : Builtins) (h : Hosts) (ps cs : List Evidence) (c : Capability)
      → In c (net_signal u py tool h ps cs)
      → c.status ≡ inferred
      → (c.id ≡ net_http) × (c.values ≡ h.hosts) × (h.hosts ≢ []) × (ps ≡ [])
  net_signal-inferred py h ps cs c i e =
      let (chosen, same) = inferred_one _ _ _ _ c i e refl in
      let (filled, none_asked) = unclamped h.hosts ps (is_empty h.review_hosts) chosen in
      rw same (refl, refl, filled, none_asked)

  -- An inferred signal for net.http offers host literals, at least one, and no parameter of the tool
  -- names an endpoint.
  pub classify_net-inferred :
      (py : Builtins) (c : Capability)
      → In c (classify_net u py tool)
      → c.status ≡ inferred
      → (c.id ≡ net_http)
        × All HostLiteral c.values
        × (c.values ≢ [])
        × (net_params u py tool (params tool) ≡ [])
  unfolding classify_net
  classify_net-inferred py c i e =
      let (id, vs, filled, none_asked) =
        net_signal-inferred py (hosts_in u tool) (net_params u py tool (params tool))
          (net_confirmed u py tool) c i e in
      (id, rw vs hosts_in-All, rw vs filled, none_asked)

-- ===== src/Export/Laws.antt =====
-- The bound of the SARIF log and the rules of its results, about `report/export.py`.
use mcp_contract.Base.{
  ℕ, zero, suc, ◌-◌, ◌<◌, ◌≤◌, ◌≡◌, inl, inr, refl, sym, ap, ◌∙◌, Bool, true, List, [], ◌∷◌, ◌++◌,
  map, append-nil, append_assoc, Option, none, some, length, take, leb, arith, length-append, All,
  All-append, All-mono, subst, Bool-cases, Text, text_eq, nat_eq, Builtins,
}
use mcp_contract.Models.{id_eq, status_eq, class_eq, EventClass, BehaviorEvent, ViolationReport}
use mcp_contract.Models.Codec.{kind_value, class_value}
use mcp_contract.Export.{
  event_target, violation_identity, SarifResult, Sarif, no_results, key_eq, find_index, notable,
  with_rule, add_notable, add_events, add_reports, to_sarif,
}

-- What a result says: the server, the event, its class and kind, and the fingerprint.
abbrev pub Entry : Type 0
Entry = Text × BehaviorEvent × Text × Text × Text

module _ (py : Builtins) (sha256 : Text → Text) where
  abbrev pub entry_of : Text → BehaviorEvent → EventClass → Entry
  entry_of server_id e c = (
    server_id,
    e,
    class_value c,
    kind_value e.kind,
    violation_identity sha256 server_id (class_value c) (kind_value e.kind) (event_target py e),
  )

  abbrev pub entry_if : Text → BehaviorEvent → Option EventClass → List Entry
  entry_if server_id e none = []
  entry_if server_id e (some c) = entry_of server_id e c ∷ []

  -- The entries of the notable events, in the order of the reports.
  abbrev pub entries : Bool → Text → List BehaviorEvent → List Entry
  entries include server_id [] = []
  entries include server_id (e ∷ es) =
      entry_if server_id e (notable include e.classification) ++ entries include server_id es

  abbrev pub all_entries : Bool → List ViolationReport → List Entry
  all_entries include [] = []
  all_entries include (r ∷ rs) = entries include r.server_id r.events ++ all_entries include rs

abbrev pub said : SarifResult → Entry
said r = (r.server_id, r.event, r.key.0, r.key.1, r.fingerprint)

take-short : (n : ℕ) (xs : List Entry) → length xs ≤ n → take n xs ≡ xs
take-short zero [] h = refl
take-short (suc n) [] h = refl
take-short zero (x ∷ xs) h = absurd (omega (arith, h))
take-short (suc n) (x ∷ xs) h = ap (λ ys. x ∷ ys) (take-short n xs (omega (arith, h)))

take-nil : (n : ℕ) → take {A = Entry} n [] ≡ []
take-nil zero = refl
take-nil (suc n) = refl

take-append : (n : ℕ) (xs ys : List Entry) → n ≤ length xs → take n (xs ++ ys) ≡ take n xs
take-append zero [] ys h = ground arith
take-append (suc n) [] ys h = absurd (omega (arith, h))
take-append zero (x ∷ xs) ys h = refl
take-append (suc n) (x ∷ xs) ys h = ap (λ zs. x ∷ zs) (take-append n xs ys (omega (arith, h)))

length-take : (n : ℕ) (xs : List Entry) → n ≤ length xs → length (take n xs) ≡ n
length-take zero [] h = refl
length-take zero (x ∷ xs) h = refl
length-take (suc n) [] h = absurd (omega (arith, h))
length-take (suc n) (x ∷ xs) h = omega (arith, length-take n xs (omega (arith, h)))

map-append : (xs ys : List SarifResult) → map said (xs ++ ys) ≡ map said xs ++ map said ys
map-append [] ys = refl
map-append (x ∷ xs) ys = ap (λ zs. said x ∷ zs) (map-append xs ys)

length-map : (xs : List SarifResult) → length (map said xs) ≡ length xs
length-map [] = refl
length-map (x ∷ xs) = omega (arith, length-map xs)

-- The rule at a place.
abbrev pub rule_at : List (Text × Text) → ℕ → Option (Text × Text)
rule_at [] n = none
rule_at (k ∷ ks) zero = some k
rule_at (k ∷ ks) (suc n) = rule_at ks n

rule_at-last :
    (ks : List (Text × Text)) (k : Text × Text) → rule_at (ks ++ k ∷ []) (length ks) ≡ some k
rule_at-last [] k = refl
rule_at-last (j ∷ ks) k = rule_at-last ks k

rule_at-append :
    (ks : List (Text × Text)) (k j : Text × Text) (n : ℕ)
    → rule_at ks n ≡ some j
    → rule_at (ks ++ k ∷ []) n ≡ some j
rule_at-append [] k j n h = cc
rule_at-append (i ∷ ks) k j zero h = h
rule_at-append (i ∷ ks) k j (suc n) h = rule_at-append ks k j n h

-- The index finds each key at its rule.
abbrev Indexed : List (Text × Text) → (Text × Text) × ℕ → Type 0
Indexed rules (k, n) = rule_at rules n ≡ some k

abbrev pub PointsAtRule : List (Text × Text) → SarifResult → Type 0
PointsAtRule rules r = rule_at rules r.rule_idx ≡ some r.key

key_eq-path : (j k : Text × Text) → key_eq j k ≡ true → j ≡ k
key_eq-path (a, b) (c, d) h = ground arith

find_index-Indexed :
    (rules : List (Text × Text)) (k : Text × Text) (index : List ((Text × Text) × ℕ)) (n : ℕ)
    → All (Indexed rules) index
    → find_index k index ≡ some n
    → rule_at rules n ≡ some k
unfolding find_index
find_index-Indexed rules k [] n a h = cc
find_index-Indexed rules k ((j, m) ∷ index) n (i, a) h = elim (Bool-cases (key_eq k j)) [
  | inl hit ↦
      let found : some m ≡ some n = rw hit at h in
      let same : m ≡ n = cc in
      subst (λ n. rule_at rules n ≡ some k) same (i ∙ ap some (sym (key_eq-path k j hit)))
  | inr other ↦ find_index-Indexed rules k index n a (rw other at h)
]

module _ (py : Builtins) (sha256 : Text → Text) (include : Bool) (max_results : ℕ) where
  -- Of the entries so far, the results are the first, as many as may be, the others are counted, and
  -- each result points at its rule.
  pub record Sound (st : Sarif) (es : List Entry) : Type 0 where
    pub listed : map said st.results ≡ take max_results es
    pub cut_off : st.truncated ≡ length es - max_results
    pub indexed : All (Indexed st.rules) st.rule_index
    pub pointed : All (PointsAtRule st.rules) st.results

  -- With room left, the results are all the entries so far.
  roomy :
      (st : Sarif) (es : List Entry)
      → Sound st es
      → length st.results < max_results
      → (length es < max_results) × (map said st.results ≡ es)
  roomy st es s room = elim (Bool-cases (leb max_results (length es))) [
    | inl many ↦
        let some_more : max_results ≤ length es = ground arith in
        absurd (
          omega (
            arith,
            length-map st.results,
            ap length s.listed,
            length-take max_results es some_more,
          ))
    | inr few ↦
        let short : length es < max_results = ground arith in
        (short, s.listed ∙ take-short max_results es (omega arith))
  ]

  crowded :
      (st : Sarif) (es : List Entry)
      → Sound st es
      → max_results ≤ length st.results
      → max_results ≤ length es
  crowded st es s full = elim (Bool-cases (leb max_results (length es))) [
    | inl many ↦ ground arith
    | inr few ↦
        let short : length es < max_results = ground arith in
        absurd (
          omega (
            arith,
            length-map st.results,
            ap length (s.listed ∙ take-short max_results es (omega arith)),
          ))
  ]

  pointing :
      (server_id : Text) (e : BehaviorEvent) (c : EventClass) (st : Sarif) (o : Option ℕ)
      (es : List Entry)
      → Sound st es
      → find_index (class_value c, kind_value e.kind) st.rule_index ≡ o
      → map said st.results ++ entry_of py sha256 server_id e c ∷ []
        ≡ take max_results (es ++ entry_of py sha256 server_id e c ∷ [])
      → st.truncated ≡ length (es ++ entry_of py sha256 server_id e c ∷ []) - max_results
      → Sound
          (with_rule py sha256 include max_results server_id e st
            (class_value c, kind_value e.kind)
            o)
          (es ++ entry_of py sha256 server_id e c ∷ [])
  pointing server_id e c st (some idx) es s h more cut = record {
    listed = map-append st.results _ ∙ more;
    cut_off = cut;
    indexed = s.indexed;
    pointed = All-append (PointsAtRule st.rules) st.results _ s.pointed (
      find_index-Indexed st.rules (class_value c, kind_value e.kind) st.rule_index idx s.indexed h,
      tt,
    );
  }
  pointing server_id e c st none es s h more cut =
      let key : Text × Text = (class_value c, kind_value e.kind) in
      let rules = st.rules ++ key ∷ [] in
      record {
        listed = map-append st.results _ ∙ more;
        cut_off = cut;
        indexed =
            All-append (Indexed rules) st.rule_index _
              (All-mono (Indexed st.rules) (Indexed rules) st.rule_index
                (λ (k, n) i. rule_at-append st.rules key k n i) s.indexed)
              (rule_at-last st.rules key, tt);
        pointed =
            All-append (PointsAtRule rules) st.results _
              (All-mono (PointsAtRule st.rules) (PointsAtRule rules) st.results
                (λ r i. rule_at-append st.rules key r.key r.rule_idx i) s.pointed)
              (rule_at-last st.rules key, tt);
      }

  with_rule-Sound :
      (server_id : Text) (e : BehaviorEvent) (c : EventClass) (st : Sarif) (o : Option ℕ)
      (es : List Entry)
      → Sound st es
      → length st.results < max_results
      → find_index (class_value c, kind_value e.kind) st.rule_index ≡ o
      → Sound
          (with_rule py sha256 include max_results server_id e st
            (class_value c, kind_value e.kind)
            o)
          (es ++ entry_of py sha256 server_id e c ∷ [])
  with_rule-Sound server_id e c st o es s room h =
      let key : Text × Text = (class_value c, kind_value e.kind) in
      let x = entry_of py sha256 server_id e c in
      let (short, all_listed) = roomy st es s room in
      let size = length-append es (x ∷ []) in
      let fits : length (es ++ x ∷ []) ≤ max_results = omega (arith, size) in
      let more : map said st.results ++ x ∷ [] ≡ take max_results (es ++ x ∷ []) =
        ap (λ zs. zs ++ x ∷ []) all_listed ∙ sym (take-short max_results (es ++ x ∷ []) fits) in
      let none_cut : st.truncated ≡ length (es ++ x ∷ []) - max_results =
        s.cut_off ∙ omega (arith, size) in
      pointing server_id e c st o es s h more none_cut

  add_notable-Sound :
      (server_id : Text) (e : BehaviorEvent) (st : Sarif) (o : Option EventClass) (es : List Entry)
      → Sound st es
      → Sound
          (add_notable py sha256 include max_results server_id e st o)
          (es ++ entry_if py sha256 server_id e o)
  add_notable-Sound server_id e st none es s = subst (Sound st) (sym (append-nil es)) s
  add_notable-Sound server_id e st (some c) es s =
      let x = entry_of py sha256 server_id e c in
      elim (Bool-cases (leb max_results (length st.results))) [
        | inl at_bound ↦
            let many : max_results ≤ length es = crowded st es s (ground arith) in
            rw at_bound (record {
              listed = s.listed ∙ sym (take-append max_results es (x ∷ []) many);
              cut_off = omega (arith, s.cut_off, length-append es (x ∷ []), many);
              indexed = s.indexed;
              pointed = s.pointed;
            })
        | inr room ↦ rw room (
            with_rule-Sound server_id e c st
              (find_index (class_value c, kind_value e.kind) st.rule_index) es s (ground arith)
              refl)
      ]

  add_events-Sound :
      (server_id : Text) (st : Sarif) (events : List BehaviorEvent) (es : List Entry)
      → Sound st es
      → Sound
          (add_events py sha256 include max_results server_id st events)
          (es ++ entries py sha256 include server_id events)
  unfolding add_events
  add_events-Sound server_id st [] es s = subst (Sound st) (sym (append-nil es)) s
  add_events-Sound server_id st (e ∷ events) es s =
      let st' =
        add_notable py sha256 include max_results server_id e st
          (notable include e.classification) in
      let x = entry_if py sha256 server_id e (notable include e.classification) in
      subst (Sound (add_events py sha256 include max_results server_id st' events))
        (append_assoc es x (entries py sha256 include server_id events))
        (add_events-Sound server_id st' events (es ++ x)
          (add_notable-Sound server_id e st (notable include e.classification) es s))

  add_reports-Sound :
      (st : Sarif) (rs : List ViolationReport) (es : List Entry)
      → Sound st es
      → Sound
          (add_reports py sha256 include max_results st rs)
          (es ++ all_entries py sha256 include rs)
  unfolding add_reports
  add_reports-Sound st [] es s = subst (Sound st) (sym (append-nil es)) s
  add_reports-Sound st (r ∷ rs) es s =
      let st' = add_events py sha256 include max_results r.server_id st r.events in
      let x = entries py sha256 include r.server_id r.events in
      subst (Sound (add_reports py sha256 include max_results st' rs))
        (append_assoc es x (all_entries py sha256 include rs))
        (add_reports-Sound st' rs (es ++ x) (add_events-Sound r.server_id st r.events es s))

  -- The results of the log are the first of the entries of the notable events, in the order of the
  -- reports, as many as `max_results` allows; the entries left out are counted; and each result points
  -- at the rule of its class and kind.
  pub to_sarif-Sound :
      (rs : List ViolationReport)
      → Sound (to_sarif py sha256 include max_results rs) (all_entries py sha256 include rs)
  unfolding to_sarif
  to_sarif-Sound rs = add_reports-Sound no_results rs [] (record {
    listed = sym (take-nil max_results);
    cut_off = omega arith;
    indexed = tt;
    pointed = tt;
  })

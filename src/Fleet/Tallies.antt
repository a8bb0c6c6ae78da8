-- ===== src/Fleet/Tallies.antt =====
-- The counters of a fleet report and its severity, about `fleet.py`.
use mcp_contract.Base.{
  ℕ, ◌+◌, ◌≤◌, ◌≡◌, ◌↔◌, inl, inr, refl, ap, ◌∙◌, Bool, true, false, List, [], ◌∷◌, Option, none,
  some, if◌then◌else◌, length, leb, arith, Option-cases, text_eq, nat_eq,
}
use mcp_contract.Models.{id_eq, status_eq, class_eq, info, warning, critical, ViolationReport}
use mcp_contract.Models.Report.{violations}
use mcp_contract.Models.Report.Laws.{counts-total}
use mcp_contract.Fleet.Verdicts.{Status, clean, violation, rug_pull, skipped, error, ServerReport}
use mcp_contract.Fleet.Aggregate.{
  Totals, add_status, add_report, totals_from, no_totals, totals, fleet_severity, reports_of,
}

-- How many runs have the status.
abbrev is_same : Status → Status → Bool
is_same clean clean = true
is_same violation violation = true
is_same rug_pull rug_pull = true
is_same skipped skipped = true
is_same error error = true
is_same _ _ = false

abbrev one_if : Bool → ℕ
one_if true = 1
one_if false = 0

abbrev pub count_of : Status → List ServerReport → ℕ
count_of s [] = 0
count_of s (r ∷ runs) = one_if (is_same s r.status) + count_of s runs

-- The counter of the status.
abbrev pub tally : Status → Totals → ℕ
tally clean t = t.clean_servers
tally violation t = t.violations
tally rug_pull t = t.rug_pulls
tally skipped t = t.skipped_servers
tally error t = t.errors

-- The violations in all of the reports.
abbrev pub breaches : List ViolationReport → ℕ
breaches [] = 0
breaches (r ∷ rs) = length (violations r) + breaches rs

abbrev breaches_in : Option ViolationReport → ℕ
breaches_in none = 0
breaches_in (some r) = length (violations r)

add_status-tally :
    (s q : Status) (t : Totals) → tally s (add_status q t) ≡ tally s t + one_if (is_same s q)
add_status-tally clean clean t = omega arith
add_status-tally clean violation t = omega arith
add_status-tally clean rug_pull t = omega arith
add_status-tally clean skipped t = omega arith
add_status-tally clean error t = omega arith
add_status-tally violation clean t = omega arith
add_status-tally violation violation t = omega arith
add_status-tally violation rug_pull t = omega arith
add_status-tally violation skipped t = omega arith
add_status-tally violation error t = omega arith
add_status-tally rug_pull clean t = omega arith
add_status-tally rug_pull violation t = omega arith
add_status-tally rug_pull rug_pull t = omega arith
add_status-tally rug_pull skipped t = omega arith
add_status-tally rug_pull error t = omega arith
add_status-tally skipped clean t = omega arith
add_status-tally skipped violation t = omega arith
add_status-tally skipped rug_pull t = omega arith
add_status-tally skipped skipped t = omega arith
add_status-tally skipped error t = omega arith
add_status-tally error clean t = omega arith
add_status-tally error violation t = omega arith
add_status-tally error rug_pull t = omega arith
add_status-tally error skipped t = omega arith
add_status-tally error error t = omega arith

add_status-events :
    (s : Status) (t : Totals)
    → ((add_status s t).events ≡ t.events) × ((add_status s t).servers ≡ t.servers)
add_status-events clean t = (refl, refl)
add_status-events violation t = (refl, refl)
add_status-events rug_pull t = (refl, refl)
add_status-events skipped t = (refl, refl)
add_status-events error t = (refl, refl)

add_report-tally :
    (s : Status) (r : Option ViolationReport) (t : Totals) → tally s (add_report r t) ≡ tally s t
add_report-tally clean none t = refl
add_report-tally clean (some r) t = refl
add_report-tally violation none t = refl
add_report-tally violation (some r) t = refl
add_report-tally rug_pull none t = refl
add_report-tally rug_pull (some r) t = refl
add_report-tally skipped none t = refl
add_report-tally skipped (some r) t = refl
add_report-tally error none t = refl
add_report-tally error (some r) t = refl

add_report-sums :
    (r : Option ViolationReport) (t : Totals)
    → ((add_report r t).servers ≡ t.servers)
      × ((add_report r t).events.outside ≡ t.events.outside + breaches_in r)
add_report-sums none t = ground arith
add_report-sums (some r) t = ground (arith, (counts-total r).1)

reports_of-breaches :
    (r : ServerReport) (runs : List ServerReport)
    → breaches (reports_of (r ∷ runs)) ≡ breaches_in r.report + breaches (reports_of runs)
unfolding reports_of
reports_of-breaches r runs = elim (Option-cases r.report) [
  | inl e ↦ rw e (omega arith)
  | inr (v, e) ↦ rw e refl
]

totals_from-tally :
    (s : Status) (t : Totals) (runs : List ServerReport)
    → tally s (totals_from t runs) ≡ tally s t + count_of s runs
unfolding totals_from
totals_from-tally s t [] = omega arith
totals_from-tally s t (r ∷ runs) =
    let t' = add_status r.status t in
    let rest = totals_from-tally s (add_report r.report t') runs in
    let kept = add_report-tally s r.report t' in
    let more = add_status-tally s r.status t in omega (arith, rest, kept, more)

totals_from-sums :
    (t : Totals) (runs : List ServerReport)
    → ((totals_from t runs).servers ≡ t.servers)
      × ((totals_from t runs).events.outside ≡ t.events.outside + breaches (reports_of runs))
unfolding totals_from reports_of
totals_from-sums t [] = (refl, omega arith)
totals_from-sums t (r ∷ runs) =
    let t' = add_status r.status t in
    let (servers, outside) = totals_from-sums (add_report r.report t') runs in
    let (events, same) = add_status-events r.status t in
    let (servers', outside') = add_report-sums r.report t' in
    let all = reports_of-breaches r runs in
    (servers ∙ servers' ∙ same, omega (arith, ap (λ n. n.outside) events))

no_totals-tally : (s : Status) (n : ℕ) → tally s (no_totals n) ≡ 0
no_totals-tally clean n = refl
no_totals-tally violation n = refl
no_totals-tally rug_pull n = refl
no_totals-tally skipped n = refl
no_totals-tally error n = refl

critical_test :
    (a b c : ℕ)
    → a ≡ c
    → ((if leb 1 a then critical else if leb 1 b then warning else info) ≡ critical) ↔ (1 ≤ c)
critical_test a b c h = ground arith

-- The counter of each status is the number of the runs that have it; the servers are counted; the
-- events that are counted outside of the contract are the violations of all the reports; and the
-- severity is critical exactly where there is one.
pub totals_lem :
    (runs : List ServerReport)
    → ((s : Status) → tally s (totals runs) ≡ count_of s runs)
      × ((totals runs).servers ≡ length runs)
      × ((totals runs).events.outside ≡ breaches (reports_of runs))
      × ((fleet_severity runs ≡ critical) ↔ (1 ≤ breaches (reports_of runs)))
unfolding totals fleet_severity
totals_lem runs =
    let start = no_totals (length runs) in
    let t = totals_from start runs in
    let (servers, outside) = totals_from-sums start runs in
    let outs : t.events.outside ≡ breaches (reports_of runs) = omega arith in
    (
      λ s. omega (arith, totals_from-tally s start runs, no_totals-tally s (length runs)),
      servers,
      outs,
      critical_test t.events.outside t.events.manifest _ outs,
    )

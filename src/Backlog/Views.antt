-- ===== src/Backlog/Views.antt =====
-- pilot_v1/backlog.py: `open_findings`, `all_findings` and `summary`.
use aws_secops.Findings.Types.{Finding}
use aws_secops.Effects.{Outcome, ok, raised, runtime_error}
use aws_secops.Findings.Routing.{Enrichment, enrich_finding}
use aws_secops.Backlog.Types.{Entries, Key, Tracked}
use aws_secops.Prelude.{
  dedupe, Bool, List, Option, String, [], at_most, contains, count, if◌then◌else◌, keep, leb_text,
  length, map, none, some, sort_by, sort_texts, take, ℕ, ◌∷◌, ◌≟◌, Ordering, ◌⧺◌, compare_ℕ,
  compare_texts, lex,
}
use aws_secops.Effects.Outcomes.{◌>>=◌, traverse}

pub record View : Type 0 where
  pub tracked : Tracked
  pub added : Enrichment

-- PRIORITY
abbrev pub priority : String → Option ℕ
priority severity =
    if severity ≟ "CRITICAL"
    then some 0
    else if severity ≟ "HIGH"
    then some 1
    else if severity ≟ "MEDIUM"
    then some 2
    else if severity ≟ "LOW"
    then some 3
    else if severity ≟ "INFO"
    then some 4
    else none

-- A finding in the sort, with the priority of its severity.
pub record Ranked : Type 0 where
  pub rank : ℕ
  pub view : View

abbrev pub finding_of : Ranked → Finding
finding_of r = r.view.tracked.finding

-- How the sort keys of two open findings compare.
abbrev pub compare_ranked : Ranked → Ranked → Ordering
compare_ranked a b = lex (compare_ℕ a.rank b.rank) (
    lex (compare_texts (finding_of a).observed_at (finding_of b).observed_at) (
      lex (compare_texts (finding_of a).resource_name (finding_of b).resource_name)
        (compare_texts (finding_of a).control (finding_of b).control)))

abbrev pub before : Ranked → Ranked → Bool
before a b = at_most (compare_ranked a b)

unfoldable pub view_of : Tracked → Outcome View
view_of t = do
  added ← enrich_finding t.evidence_origin t.finding
  ok (record { tracked = t; added = added })

-- `PRIORITY[item["severity"]]`
unfoldable pub ranked : View → Outcome Ranked
ranked v = elim (priority v.tracked.finding.severity) [
  | none ↦ raised (runtime_error "KeyError")
  | some n ↦ ok (record { rank = n; view = v })
]

abbrev pub is_open : Tracked → Bool
is_open t = t.finding.status ≟ "NON_COMPLIANT"

abbrev pub tracked_of : Entries → List Tracked
tracked_of d = map (λ (e : Key × Tracked). e.1) d

-- `open_findings`
unfoldable pub open_findings : Entries → Outcome (List View)
open_findings d = do
  views ← traverse view_of (keep is_open (tracked_of d))
  rows ← traverse ranked views
  ok (map (λ (r : Ranked). r.view) (sort_by before rows))

abbrev by_id : View → View → Bool
by_id a b = leb_text a.tracked.finding_id b.tracked.finding_id

-- `all_findings`
unfoldable pub all_findings : Entries → Outcome (List View)
all_findings d = do views ← traverse view_of (tracked_of d); ok (sort_by by_id views)

-- `grouped`: the names in their order, with how often each stands there
unfoldable pub grouped : (View → String) → List View → List (String × ℕ)
grouped field views =
    map (λ name. (name, count (λ v. field v ≟ name) views)) (sort_texts (dedupe (map field views)))

abbrev focus : List View → String
focus [] = "No open findings in the bounded provider set."
focus (v ∷ vs) =
    v.tracked.finding.severity ⧺ ": " ⧺ v.tracked.finding.control ⧺ " on "
    ⧺ v.tracked.finding.resource_name ⧺ ". " ⧺ v.tracked.finding.recommendation

pub record Summary : Type 0 where
  pub total_findings : ℕ
  pub total_open : ℕ
  pub planned : ℕ
  pub unplanned : ℕ
  pub high_critical : ℕ
  pub by_source : List (String × ℕ)
  pub by_resource_type : List (String × ℕ)
  pub by_specialist : List (String × ℕ)
  pub by_eligibility : List (String × ℕ)
  pub priority_findings : List View
  pub open_findings : List View
  pub recommended_focus : String

abbrev pub is_planned : String → View → Bool
is_planned status v = v.tracked.plan.planning_status ≟ status

abbrev is_urgent : View → Bool
is_urgent v = contains v.tracked.finding.severity ("HIGH" ∷ "CRITICAL" ∷ [])

-- `summary`
unfoldable pub summary : Entries → Outcome Summary
summary d = do
  views ← open_findings d
  ok (record {
    total_findings = length d;
    total_open = length views;
    planned = count (is_planned "PLANNED") views;
    unplanned = count (is_planned "UNPLANNED") views;
    high_critical = count is_urgent views;
    by_source = grouped (λ v. v.tracked.finding.source) views;
    by_resource_type = grouped (λ v. v.tracked.finding.resource_type) views;
    by_specialist = grouped (λ v. v.added.specialist_route) views;
    by_eligibility = grouped (λ v. v.added.action_eligibility) views;
    priority_findings = take 10 views;
    open_findings = views;
    recommended_focus = focus views;
  })

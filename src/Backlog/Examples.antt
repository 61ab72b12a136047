-- ===== src/Backlog/Examples.antt =====
-- pilot_v1/backlog.py: a small backlog, and the theorems at it.
use aws_secops.Backlog.Entries.{lookup}
use aws_secops.Backlog.Order.{open_findings-IsOrdered}
use aws_secops.Effects.Outcomes.{traverse}
use aws_secops.Backlog.Lasting.{after_changes-Lasts, sightings-keep_plans}
use aws_secops.Backlog.Views.{
  open_findings, ranked, tracked_of, view_of, Ranked, View, before, is_open,
}
use aws_secops.Backlog.Atomic.{IsAtomic, run_change-IsAtomic}
use aws_secops.Backlog.History.{Change, after_changes, plan_change, run_change, upsert_change}
use aws_secops.Findings.Validate.{check_finding, optional_text, plain_text, validate_finding}
use aws_secops.Backlog.Merge.{fields_of, merge, plan_of, provider_loop, sighting, upsert_loop}
use aws_secops.Backlog.Integrity.{IsSound, after_changes-IsSound}
use aws_secops.Findings.Routing.{action_eligibility, enrich_finding, specialist_route}
use aws_secops.Backlog.Store.{
  FindingBacklog, load_item, load_items, replace_provider, update_plan, upsert, write_file, commit,
  load,
}
use aws_secops.Prelude.{
  List, String, [], length, map, none, refl, some, sort_by, sort_texts, strip, true, ℕ, ◌∷◌, ◌≡◌,
  ◌≤◌, ◌⧺◌, keep, ordered, Perm,
}
use aws_secops.Backlog.Types.{Platform, Entries, Key, Tracked, identity_of, key_of, same_key}
use aws_secops.Effects.{◌>>=◌, Outcome, ok, raised}
use aws_secops.Findings.Types.{text, Fields, Library, Finding}

abbrev pub library : Library
library = record {
  upper = λ s. s;
  is_iso_time = λ s. true;
  has_timezone = λ s. true;
  shown = λ b. "None";
  hash_of_key = λ source kind id control. source ⧺ "|" ⧺ kind ⧺ "|" ⧺ id ⧺ "|" ⧺ control;
}

-- A file system that does not fail, and the entries themselves for the bytes of the file.
abbrev P : Platform (Unit {0}) Entries
P = record {
  library = library;
  now = λ w. "2026-01-01";
  make_folder = λ w. (true, w);
  write = λ w. (true, w);
  encode = λ d. d;
  decode = λ d. some (tracked_of d);
  size = λ d. length d;
}

abbrev finding : String → String → String → Fields
finding id severity status =
    ("source", text "VAPT")
    ∷ ("resource_type", text "EC2_INSTANCE")
    ∷ ("resource_id", text id)
    ∷ ("resource_name", text " web ")
    ∷ ("environment", text "dev")
    ∷ ("control", text "CVE-1")
    ∷ ("severity", text severity)
    ∷ ("status", text status)
    ∷ ("evidence", text "scan")
    ∷ ("recommendation", text "patch")
    ∷ ("observed_at", text "2026-01-01")
    ∷ []

abbrev plan : Fields
plan =
    ("owner", text "ops")
    ∷ ("mitigation_plan", text "patch it")
    ∷ ("target", text "")
    ∷ ("planning_status", text "PLANNED")
    ∷ []

abbrev empty : FindingBacklog (Unit {0}) Entries
empty = record { findings = []; path = true; file = none; world = tt }

abbrev imports : List Fields
imports =
    finding "i-1" "LOW" "NON_COMPLIANT"
    ∷ finding "i-2" "HIGH" "NON_COMPLIANT"
    ∷ finding "i-2" "LOW" "NON_COMPLIANT"
    ∷ []

abbrev changes : List Change
changes =
    upsert_change imports "IMPORTED"
    ∷ plan_change "VAPT|EC2_INSTANCE|i-2|CVE-1" plan
    ∷ upsert_change imports "IMPORTED"
    ∷ []

abbrev filled : FindingBacklog (Unit {0}) Entries
filled = after_changes P changes empty

abbrev second_key : Key
second_key = record {
  source = "VAPT";
  resource_type = "EC2_INSTANCE";
  resource_id = "i-2";
  control = "CVE-1";
}

-- Opening this opens the code of the backlog.
code : Unit {0}
unfolding validate_finding check_finding plain_text optional_text strip plan_of merge sighting
    key_of identity_of same_key upsert_loop provider_loop fields_of commit write_file update_plan
    upsert replace_provider load load_items load_item open_findings view_of ranked enrich_finding
    specialist_route action_eligibility sort_texts sort_by ◌>>=◌
code = tt

statuses_of : Entries → List (String × String × ℕ)
statuses_of d =
    map
      (λ (e : Key × Tracked).
        (e.1.finding.resource_name, e.1.plan.planning_status, e.1.occurrence_count))
      d

-- Two imports of three records, two of them for one key, with a plan between them.
filled_entries : statuses_of filled.findings ≡ ("web", "UNPLANNED", 2) ∷ ("web", "PLANNED", 2) ∷ []
unfolding code statuses_of
filled_entries = refl

run_change-IsAtomic_example : IsAtomic P (run_change P (upsert_change imports "IMPORTED")) empty
run_change-IsAtomic_example = run_change-IsAtomic P (upsert_change imports "IMPORTED") empty

after_changes-IsSound_example :
    IsSound P.library (after_changes P changes empty).findings
    × (length (after_changes P changes empty).findings ≤ 100)
after_changes-IsSound_example = after_changes-IsSound P changes empty (unfold code in refl)

abbrev finding_2 : Finding
finding_2 = record {
  source = "VAPT";
  resource_type = "EC2_INSTANCE";
  resource_id = "i-2";
  resource_name = "web";
  environment = "dev";
  control = "CVE-1";
  severity = "HIGH";
  status = "NON_COMPLIANT";
  evidence = "scan";
  recommendation = "patch";
  observed_at = "2026-01-01";
  owner = none;
  target = none;
}

abbrev second : Tracked
second = record {
  finding = finding_2;
  plan = record {
    owner = "ops";
    mitigation_plan = "patch it";
    target = "";
    planning_status = "PLANNED";
  };
  finding_id = "VAPT|EC2_INSTANCE|i-2|CVE-1";
  first_seen = "2026-01-01";
  last_seen = "2026-01-01";
  occurrence_count = 2;
  seen_in_latest_sync = true;
  evidence_origin = "IMPORTED";
  synced_at = "";
}

filled-load : load P filled.file ≡ ok filled.findings
unfolding code
filled-load = refl

filled-second : lookup second_key filled.findings ≡ some second
unfolding code
filled-second = refl

after_changes-Lasts_example :
    (t' : Tracked) × (lookup second_key (after_changes P changes filled).findings ≡ some t')
    × (t'.first_seen ≡ second.first_seen)
    × (second.occurrence_count ≤ t'.occurrence_count)
after_changes-Lasts_example =
    after_changes-Lasts P changes filled second_key second filled-load filled-second

-- The plan that was made between two imports stays at a third one.
sightings-keep_plans_example :
    (t' : Tracked) × (lookup second_key
        (after_changes P (upsert_change imports "AWS_PROVIDER" ∷ []) filled).findings
      ≡ some t')
    × (t'.plan ≡ second.plan)
sightings-keep_plans_example =
    sightings-keep_plans P changes (upsert_change imports "AWS_PROVIDER" ∷ []) empty second_key
      second (tt, tt) (unfold code in refl) filled-second

abbrev open_views : Outcome (List View) → List View
open_views (ok vs) = vs
open_views (raised e) = []

-- The HIGH finding of the second resource stands before the LOW one of the first.
abbrev first_view : List View → String
first_view [] = ""
first_view (v ∷ vs) = v.tracked.finding_id

filled_first :
    first_view (open_views (open_findings filled.findings)) ≡ "VAPT|EC2_INSTANCE|i-2|CVE-1"
unfolding code
filled_first = refl

open_findings-IsOrdered_example :
    let vs = open_views (open_findings filled.findings) in
    (rows : List Ranked) × (traverse ranked vs ≡ ok rows)
    × (ordered before rows ≡ true)
    × Perm (map (λ (v : View). v.tracked) vs) (keep is_open (tracked_of filled.findings))
open_findings-IsOrdered_example =
    open_findings-IsOrdered filled.findings (open_views (open_findings filled.findings)) found
  where
    found : open_findings filled.findings ≡ ok (open_views (open_findings filled.findings))
    found = unfold code in refl

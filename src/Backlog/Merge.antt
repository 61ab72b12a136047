-- ===== src/Backlog/Merge.antt =====
-- pilot_v1/backlog.py: `_plan`, `_merge`, and the loops of `upsert` and `replace_provider`.
use aws_secops.Findings.Validate.{validate_finding}
use aws_secops.Backlog.Entries.{has_key, insert, lookup}
use aws_secops.Effects.{Outcome, ok, raised, value_error}
use aws_secops.Backlog.Types.{Entries, Key, Plan, Tracked, identity_of, key_of, no_plan}
use aws_secops.Prelude.{
  Bool, List, Option, String, [], contains, false, if◌then◌else◌, is_safe_text, ltb, map, none, not,
  same_texts, some, sort_texts, true, ℕ, ◌&&◌, ◌++◌, ◌+◌, ◌||◌, ◌∷◌, ◌≟◌,
}
use aws_secops.Effects.Outcomes.{◌>>=◌, ◌>>◌, refuse}
use aws_secops.Findings.Types.{text, other, get, Fields, Finding, Library, Value}
use Prim.Native.String.{count as count_chars}

-- A field of a plan: a text, bounded, empty or plain.
abbrev plan_text : Value → ℕ → Outcome String
plan_text (other b) maximum = raised (value_error "plan fields must be bounded single-line text")
plan_text (text s) maximum =
    if ltb maximum (count_chars s) || (not (s ≟ "") && not (is_safe_text s))
    then raised (value_error "plan fields must be bounded single-line text")
    else ok s

-- PLAN_FIELDS
abbrev plan_fields : List String
plan_fields = "owner" ∷ "mitigation_plan" ∷ "target" ∷ "planning_status" ∷ []

-- `_plan` of a dict: exactly the four fields
unfoldable pub plan_of : Fields → Outcome Plan
plan_of value = do
  refuse
      (not (
        same_texts (sort_texts (map (λ (f : String × Value). f.0) value)) (sort_texts plan_fields)))
      (value_error "plan requires only owner, mitigation_plan, target, planning_status")
  owner ← plan_text (get "owner" value) 128
  mitigation_plan ← plan_text (get "mitigation_plan" value) 1000
  target ← plan_text (get "target" value) 128
  planning_status ← plan_text (get "planning_status" value) 128
  refuse (not (contains planning_status ("UNPLANNED" ∷ "PLANNED" ∷ [])))
      (value_error "planning_status must be UNPLANNED or PLANNED")
  ok (record {
    owner = owner;
    mitigation_plan = mitigation_plan;
    target = target;
    planning_status = planning_status;
  })

-- The fields that a new sighting takes from the old entry: its plan, its first sighting, its count.
abbrev old_plan : Option Tracked → Plan
old_plan none = no_plan
old_plan (some t) = t.plan

abbrev old_first_seen : Option Tracked → String → String
old_first_seen none now = now
old_first_seen (some t) now = t.first_seen

abbrev old_count : Option Tracked → ℕ
old_count none = 0
old_count (some t) = t.occurrence_count

module _ (L : Library) where
  -- The entry that `_merge` writes; the finding's own `owner` and `target` give way to the plan.
  unfoldable pub sighting : Option Tracked → Finding → String → String → String → Tracked
  sighting old f origin now synced_at = record {
    finding = record f { owner = none; target = none };
    plan = old_plan old;
    finding_id = identity_of L (key_of f);
    first_seen = old_first_seen old now;
    last_seen = now;
    occurrence_count = old_count old + 1;
    seen_in_latest_sync = true;
    evidence_origin = origin;
    synced_at = synced_at;
  }

  abbrev pub merge_finding : Entries → Finding → String → String → String → Entries
  merge_finding d f origin now synced_at =
      insert (key_of f) (sighting (lookup (key_of f) d) f origin now synced_at) d

  -- `_merge`: the key, and the dict that it has changed
  unfoldable pub merge : Entries → Fields → String → String → String → Outcome (Key × Entries)
  merge d raw origin now synced_at = do
    f ← validate_finding L raw
    ok (key_of f, merge_finding d f origin now synced_at)

  -- The loop of `upsert`: the keys seen so far, the last one first, and the dict.
  abbrev pub unless_seen :
      Bool → List Key → Entries → Outcome (Key × Entries) → Outcome (List Key × Entries)
  unless_seen true seen d merged = ok (seen, d)
  unless_seen false seen d (raised e) = raised e
  unless_seen false seen d (ok (k, d')) = ok (k ∷ seen, d')

  unfoldable pub upsert_loop :
      List Fields → String → String → List Key → Entries → Outcome (List Key × Entries)
  upsert_loop [] origin now seen d = ok (seen, d)
  upsert_loop (raw ∷ raws) origin now seen d = do
    f ← validate_finding L raw
    (seen', d') ← unless_seen (has_key (key_of f) seen) seen d (merge d raw origin now "")
    upsert_loop raws origin now seen' d'

  abbrev optional_field : String → Option String → Fields
  optional_field name none = []
  optional_field name (some s) = (name, text s) ∷ []

  -- A validated finding as a dict.
  unfoldable pub fields_of : Finding → Fields
  fields_of f =
      (("source", text f.source)
        ∷ ("resource_type", text f.resource_type)
        ∷ ("resource_id", text f.resource_id)
        ∷ ("resource_name", text f.resource_name)
        ∷ ("environment", text f.environment)
        ∷ ("control", text f.control)
        ∷ ("severity", text f.severity)
        ∷ ("status", text f.status)
        ∷ ("evidence", text f.evidence)
        ∷ ("recommendation", text f.recommendation)
        ∷ ("observed_at", text f.observed_at)
        ∷ [])
      ++ (optional_field "owner" f.owner ++ optional_field "target" f.target)

  -- The loop of `replace_provider`.
  unfoldable pub provider_loop :
      String → List Fields → String → String → List Key → Entries → Outcome (List Key × Entries)
  provider_loop source [] now synced_at seen d = ok (seen, d)
  provider_loop source (raw ∷ raws) now synced_at seen d = do
    f ← validate_finding L raw
    refuse (not (f.source ≟ source)) (value_error "provider source mismatch")
    (seen', d') ←
        unless_seen (has_key (key_of f) seen) seen d
          (merge d (fields_of f) "AWS_PROVIDER" now synced_at)
    provider_loop source raws now synced_at seen' d'

  -- What `replace_provider` does first to the findings of that provider.
  abbrev pub unsee : String → Tracked → Tracked
  unsee source t =
      if t.finding.source ≟ source && t.evidence_origin ≟ "AWS_PROVIDER"
      then record t { seen_in_latest_sync = false }
      else t

  abbrev pub unsee_all : String → Entries → Entries
  unsee_all source d = map (λ (e : Key × Tracked). (e.0, unsee source e.1)) d

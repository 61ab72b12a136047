-- ===== src/Pilot/Selection.antt =====
-- compliance_agent_v1/grouped_selection_pilot.py: `GroupedSelectionPilot`.
use aws_secops.Prelude.{
  Bool, List, Option, String, [], any, false, if◌then◌else◌, keep, leb_text, length, map, none, not,
  some, sort_texts, true, ℕ, ◌++◌, ◌∷◌, ◌≟◌, sort_by,
}
use aws_secops.Effects.{
  ◌>>=◌, ◌>>◌, Outcome, gets, lift, modify, ok, pure, raise_if, raised, value_error,
}
use aws_secops.Scaled.Types.{Row, FindingQuery}
use aws_secops.Scaled.Store.{
  resolve_finding_id, matching_finding_ids, query, grouped_summary, Page, Groups,
}
use aws_secops.Pilot.Types.{
  Pilot, Scope, PreviewRow, PreviewState, Digests, eligible, stale, unknown_candidate, unsupported,
  excluded,
}
use aws_secops.Pilot.Preview.{
  evidence_digest, is_row_eligible, is_row_excluded, by_finding, accounts_of,
}
use aws_secops.Pilot.Batches.{M, PreviewView, freeze_preview}

abbrev pub chosen_id : String → String × Row → Bool
chosen_id id e = e.0 ≟ id

-- `self._selection.setdefault(finding_id, row)`
abbrev pub add_row : String → Row → List (String × Row) → List (String × Row)
add_row id r chosen = if any (chosen_id id) chosen then chosen else chosen ++ ((id, r) ∷ [])

-- `del self._selection[finding_id]`
abbrev pub drop_row : String → List (String × Row) → List (String × Row)
drop_row id chosen = keep (λ e. not (chosen_id id e)) chosen

-- `sorted(self._selection)`
abbrev pub sorted_ids : List (String × Row) → List String
sorted_ids chosen = sort_texts (map (λ (e : String × Row). e.0) chosen)

pub record Receipt : Type 0 where
  pub selected_count : ℕ
  pub selection_digest : String

-- The filters that the interface gives; the control is the pilot's.
pub record Filter : Type 0 where
  pub account_alias : Option String
  pub config_status : Option String
  pub exception_status : Option String
  pub sort_by : String
  pub sort_direction : String

pub record View : Type 0 where
  pub control : String
  pub page : Page
  pub groups : Groups
  pub selection : Receipt

abbrev pub query_of : String → Filter → ℕ → ℕ → FindingQuery
query_of control f page limit = record {
  control_key = some control;
  account_alias = f.account_alias;
  config_status = f.config_status;
  exception_status = f.exception_status;
  search = none;
  sort_by = f.sort_by;
  sort_direction = f.sort_direction;
  page = page;
  limit = limit;
}

-- The row that `add` takes up.
unfoldable pub addable : String → Option Row → Outcome Row
addable control none = raised (value_error "unknown finding ID")
addable control (some r) =
    if not (r.control_key ≟ control)
    then raised (value_error "unsupported finding control")
    else if not (r.config_status ≟ "NON_COMPLIANT")
    then raised (value_error "stale finding cannot be selected")
    else ok r

abbrev selected_row : String → Row → PreviewState → String → PreviewRow
selected_row id prior state reason = record {
  account_alias = prior.account_alias;
  control_key = prior.control_key;
  resource_id = prior.resource_id;
  finding_id = some id;
  preview_state = state;
  reason = reason;
}

-- A selected finding, as it was when it was added, and what the store has of it now.
unfoldable pub resolve_selected : String → String → Row → Option Row → PreviewRow
resolve_selected control id prior none =
    selected_row id prior unknown_candidate "NOT_IN_CURRENT_EVIDENCE"
resolve_selected control id prior (some r) =
    if not (r.control_key ≟ control)
    then selected_row id prior unsupported "CONTROL_NOT_IN_M3B"
    else if not (r.config_status ≟ "NON_COMPLIANT")
    then selected_row id prior stale "CURRENT_EVIDENCE_NOT_NON_COMPLIANT"
    else if not (r.exception_status ≟ "NONE")
    then selected_row id prior excluded "CURRENT_ONE_TIME_EXCEPTION"
    else selected_row id prior eligible "CURRENT_EVIDENCE_MATCH"

-- The rows of `preview_selection`, sorted by their finding's id.
unfoldable pub selection_rows : List Row → String → List (String × Row) → List PreviewRow
selection_rows store control chosen =
    map (λ (e : String × Row). resolve_selected control e.0 e.1 (resolve_finding_id store e.0))
      (sort_by (λ (a b : String × Row). leb_text a.0 b.0) chosen)

module _ (D : Digests) where
  -- `selection_receipt`
  unfoldable pub selection_receipt : List (String × Row) → Receipt
  selection_receipt chosen = record {
    selected_count = length (sorted_ids chosen);
    selection_digest = D.of_ids (sorted_ids chosen);
  }

  -- `view`
  unfoldable pub view : Filter → ℕ → ℕ → String → M View
  view f page limit group_by = do
    s ← gets (λ s. s)
    shown ← lift (query D.casefold s.store (query_of s.control f page limit))
    groups ← lift (grouped_summary D.casefold s.store (query_of s.control f page limit) group_by)
    pure (record {
      control = s.control;
      page = shown;
      groups = groups;
      selection = selection_receipt s.selection;
    })

  -- `add`
  unfoldable pub add : String → M Receipt
  add id = do
    row ← gets (λ s. addable s.control (resolve_finding_id s.store id))
    r ← lift row
    modify (λ s. record s { selection = add_row id r s.selection })
    gets (λ s. selection_receipt s.selection)

  -- `remove`
  unfoldable pub remove : String → M Receipt
  remove id = do
    there ← gets (λ s. any (chosen_id id) s.selection)
    raise_if (not there) (value_error "finding ID is not selected")
    modify (λ s. record s { selection = drop_row id s.selection })
    gets (λ s. selection_receipt s.selection)

  unfoldable pub add_each : List String → M (Unit {0})
  add_each [] = pure tt
  add_each (id ∷ ids) = add id >> add_each ids

  abbrev no_ids : List String → Bool
  no_ids [] = true
  no_ids (id ∷ ids) = false

  -- `select_all_current_filter`; the page is the query's default
  unfoldable pub select_all : Filter → M Receipt
  select_all f = do
    matched ← gets (λ s. matching_finding_ids D.casefold s.store (query_of s.control f 1 25))
    ids ← lift matched
    raise_if (no_ids ids) (value_error "current filter has no findings to select")
    add_each ids
    gets (λ s. selection_receipt s.selection)

  -- The rows and the scope that `preview_selection` freezes.
  unfoldable pub selection_of : Pilot → List PreviewRow × Scope
  selection_of s =
      let rows = selection_rows s.store s.control s.selection in
      (
        rows,
        record {
          control = s.control;
          eligible = map by_finding (keep is_row_eligible rows);
          exclusions = map by_finding (keep is_row_excluded rows);
          candidate_digest = none;
          selection_digest = some (D.of_ids (sorted_ids s.selection));
          evidence_digest = evidence_digest D s.store;
          selected_accounts = accounts_of (keep is_row_eligible rows);
          mixed_control_blocked = false;
        },
      )

  -- `preview_selection`
  unfoldable pub preview_selection : M PreviewView
  preview_selection = do made ← gets selection_of; freeze_preview D made

-- ===== src/Pilot/Preview.antt =====
-- compliance_agent_v1/csv_bulk_pilot.py: `preview`, up to the rows and the scope that it freezes.
use aws_secops.Prelude.{
  Bool, List, Option, String, [], any, at_most, dedupe, if◌then◌else◌, keep, leb_text, lex, map,
  none, not, same_texts, some, sort_by, sort_texts, ◌&&◌, ◌∷◌, ◌≟◌, Ordering, compare_texts,
}
use aws_secops.Scaled.Types.{Row}
use aws_secops.Scaled.Store.{resolve_candidate}
use aws_secops.Pilot.Candidates.{Candidate}
use aws_secops.Pilot.Types.{
  PreviewRow, PreviewState, Scope, Digests, eligible, duplicate, stale, unknown_candidate,
  unsupported, excluded, is_eligible, is_excluded, state_word,
}

abbrev pub key : Candidate → List String
key c = c.account_alias ∷ c.control_key ∷ c.resource_id ∷ []

abbrev pub same_key : Candidate → Candidate → Bool
same_key c d = same_texts (key c) (key d)

-- `{**base, "preview_state": ..., "reason": ...}`
abbrev row_of : Candidate → PreviewState → String → PreviewRow
row_of c state reason = record {
  account_alias = c.account_alias;
  control_key = c.control_key;
  resource_id = c.resource_id;
  finding_id = none;
  preview_state = state;
  reason = reason;
}

abbrev eligible_row : Candidate → String → PreviewRow
eligible_row c finding_id = record (row_of c eligible "CURRENT_EVIDENCE_MATCH") {
  finding_id = some finding_id;
}

-- A candidate that is the first of its key, and what the store has of it.
unfoldable pub classify : String → Candidate → Option Row → PreviewRow
classify control c none = row_of c unknown_candidate "NOT_IN_CURRENT_EVIDENCE"
classify control c (some r) =
    if not (c.control_key ≟ control)
    then row_of c unsupported "CONTROL_NOT_IN_M3A"
    else if not (r.config_status ≟ "NON_COMPLIANT")
    then row_of c stale "CURRENT_EVIDENCE_NOT_NON_COMPLIANT"
    else if not (r.exception_status ≟ "NONE")
    then row_of c excluded "CURRENT_ONE_TIME_EXCEPTION"
    else eligible_row c r.finding_id

-- One turn of the loop; `seen` is the set of the keys.
abbrev pub preview_row : List Row → String → List Candidate → Candidate → PreviewRow
preview_row store control seen c =
    if any (same_key c) seen
    then row_of c duplicate "DUPLICATE_CANDIDATE"
    else classify control c (resolve_candidate store c.account_alias c.control_key c.resource_id)

-- The loop of `preview`.
unfoldable pub preview_rows : List Row → String → List Candidate → List Candidate → List PreviewRow
preview_rows store control seen [] = []
preview_rows store control seen (c ∷ cs) =
    preview_row store control seen c ∷ preview_rows store control (c ∷ seen) cs

-- `rows.sort(...)`

abbrev compare_previews : PreviewRow → PreviewRow → Ordering
compare_previews a b = lex (compare_texts a.account_alias b.account_alias) (
    lex (compare_texts a.control_key b.control_key) (
      lex (compare_texts a.resource_id b.resource_id)
        (compare_texts (state_word a.preview_state) (state_word b.preview_state))))

abbrev pub previews_before : PreviewRow → PreviewRow → Bool
previews_before a b = at_most (compare_previews a b)

-- `sorted(candidates, key=Candidate.key)`

abbrev compare_keys : Candidate → Candidate → Ordering
compare_keys a b =
    lex (compare_texts a.account_alias b.account_alias)
      (lex (compare_texts a.control_key b.control_key) (compare_texts a.resource_id b.resource_id))

abbrev candidates_before : Candidate → Candidate → Bool
candidates_before a b = at_most (compare_keys a b)

-- An eligible row of a batch whose candidates name more than one control.
abbrev pub block : PreviewRow → PreviewRow
block r =
    if is_eligible r.preview_state
    then record r {
      preview_state = unsupported;
      reason = "MIXED_CONTROL_SCOPE_REQUIRES_SEPARATE_BATCHES";
    }
    else r

abbrev pub is_row_eligible : PreviewRow → Bool
is_row_eligible r = is_eligible r.preview_state

abbrev pub is_row_excluded : PreviewRow → Bool
is_row_excluded r = is_excluded r.preview_state

abbrev id_or_empty : Option String → String
id_or_empty none = ""
id_or_empty (some id) = id

-- The cells of a row in a scope.
abbrev pub by_finding : PreviewRow → String × String × String
by_finding r = (id_or_empty r.finding_id, r.account_alias, r.resource_id)

abbrev by_candidate : PreviewRow → String × String × String
by_candidate r = (r.account_alias, r.control_key, r.resource_id)

-- `sorted({row["account_alias"] for row in eligible})`
abbrev pub accounts_of : List PreviewRow → List String
accounts_of rows = sort_texts (dedupe (map (λ (r : PreviewRow). r.account_alias) rows))

module _ (D : Digests) where
  -- `evidence_receipt()["evidence_digest"]`
  unfoldable pub evidence_digest : List Row → String
  evidence_digest store =
      D.of_rows (sort_by (λ (a b : Row). leb_text a.finding_id b.finding_id) store)

  -- The rows and the scope that `preview` freezes.
  unfoldable pub preview_of : List Row → String → Bool → List Candidate → List PreviewRow × Scope
  preview_of store control strict candidates =
      let sorted = sort_by previews_before (preview_rows store control [] candidates) in
      let mixed = strict && any (λ (c : Candidate). not (c.control_key ≟ control)) candidates in
      let eligible = if mixed then [] else keep is_row_eligible sorted in
      (
        if mixed then map block sorted else sorted,
        record {
          control = control;
          eligible = map by_finding eligible;
          exclusions = map by_candidate (keep is_row_excluded sorted);
          candidate_digest = some (
              D.of_candidates (
                map (λ (c : Candidate). (c.account_alias, c.control_key, c.resource_id))
                  (sort_by candidates_before candidates)));
          selection_digest = none;
          evidence_digest = evidence_digest store;
          selected_accounts = accounts_of eligible;
          mixed_control_blocked = mixed;
        },
      )

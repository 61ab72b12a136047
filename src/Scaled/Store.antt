-- ===== src/Scaled/Store.antt =====
-- compliance_agent_v1/scaled_findings.py: `ScaledFindingStore` and `model_read`. A store is its rows.
use Prim.Native.Nat.{◌*◌, ◌/◌}
use aws_secops.Prelude.{
  Bool, List, Option, String, [], all, any, at_most, contains, count, dedupe, distinct, drop, false,
  find, if◌then◌else◌, is_part, is_slug_text, keep, length, lex, ltb, map, none, not, some, sort_by,
  starts_with, strip, take, tally, true, ℕ, ◌&&◌, ◌+◌, ◌-◌, ◌==◌, ◌||◌, ◌∷◌, ◌≟◌, Ordering, ◌⧺◌,
  compare_texts,
}
use Prim.Native.String.{count as count_chars}
use aws_secops.Effects.Outcomes.{◌>>=◌, ◌>>◌, refuse}
use aws_secops.Effects.{Outcome, ok, value_error}
use aws_secops.Scaled.Types.{
  Row, FindingQuery, cell, controls, aliases, config_statuses, exception_statuses,
  provider_statuses, remediation_statuses, sort_fields, search_fields, csv_fields, max_page_size,
}

abbrev unknown_value : List String → Option String → Bool
unknown_value values none = false
unknown_value values (some v) = not (contains v values)

abbrev bad_search : Option String → Bool
bad_search none = false
bad_search (some s) = strip s ≟ "" || ltb 128 (count_chars s)

-- `_validate_query` of the filters and the order
unfoldable pub validate_filters : FindingQuery → Outcome (Unit {0})
validate_filters q = do
  refuse (unknown_value controls q.control_key) (value_error "unsupported control_key")
  refuse (unknown_value aliases q.account_alias) (value_error "unsupported account_alias")
  refuse (unknown_value config_statuses q.config_status) (value_error "unsupported config_status")
  refuse (unknown_value exception_statuses q.exception_status)
      (value_error "unsupported exception_status")
  refuse (bad_search q.search) (value_error "search must be 1 to 128 characters")
  refuse
      (not (contains q.sort_by sort_fields)
        || not (contains q.sort_direction ("asc" ∷ "desc" ∷ [])))
      (value_error "unsupported sort")

-- `_validate_query`
unfoldable pub validate_query : FindingQuery → Outcome (Unit {0})
validate_query q = do
  validate_filters q
  refuse (ltb q.page 1) (value_error "page must be a positive integer")
  refuse (ltb q.limit 1 || ltb max_page_size q.limit)
      (value_error "limit must be between 1 and 100")

-- `_valid_row`
unfoldable pub valid_row : Row → Bool
valid_row r =
    contains r.account_alias aliases
    && r.region ≟ "ap-southeast-1"
    && contains r.control_key controls
    && contains r.resource_type ("S3_BUCKET" ∷ "SECURITY_GROUP" ∷ [])
    && contains r.config_status config_statuses
    && contains r.provider_status provider_statuses
    && contains r.exception_status exception_statuses
    && contains r.remediation_status remediation_statuses
    && is_slug_text 1 128 r.finding_id
    && is_slug_text 1 128 r.resource_id
    && r.last_evaluated ≟ "2026-09-22T00:00:00Z"

-- `__init__`
unfoldable pub make_store : List Row → Outcome (List Row)
make_store rows = do
  refuse (not (length rows == 1000))
      (value_error "scaled finding truth must contain exactly 1,000 unique findings")
  refuse (not (all valid_row rows))
      (value_error "scaled finding truth contains an invalid or private field")
  refuse (not (distinct (map (λ (r : Row). r.finding_id) rows)))
      (value_error "scaled finding truth must contain exactly 1,000 unique findings")
  ok rows

-- `sorted(..., key=lambda row: (row[sort_by], row["finding_id"]), reverse=...)`

abbrev pub compare_rows : String → Row → Row → Ordering
compare_rows field a b =
    lex (compare_texts (cell field a) (cell field b)) (compare_texts a.finding_id b.finding_id)

abbrev pub before : String → String → Row → Row → Bool
before field direction a b =
    at_most (if direction ≟ "desc" then compare_rows field b a else compare_rows field a b)

-- `if value is not None` of one filter
abbrev pub passes : Option String → String → Bool
passes none v = true
passes (some wanted) v = v ≟ wanted

pub record Page : Type 0 where
  pub total_count : ℕ
  pub returned_count : ℕ
  pub page : ℕ
  pub limit : ℕ
  pub page_count : ℕ
  pub items : List Row

abbrev pub page_of : FindingQuery → List Row → Page
page_of q rows =
    let page_rows = take q.limit (drop ((q.page - 1) * q.limit) rows) in
    record {
      total_count = length rows;
      returned_count = length page_rows;
      page = q.page;
      limit = q.limit;
      page_count = (length rows + q.limit - 1) / q.limit;
      items = page_rows;
    }

abbrev pub is_formula : String → Bool
is_formula s = starts_with "=" s || starts_with "+" s || starts_with "-" s || starts_with "@" s

-- `_csv_safe`
unfoldable pub csv_safe : String → String
csv_safe s = if is_formula s then "'" ⧺ s else s

pub record Groups : Type 0 where
  pub group_by : String
  pub total_count : ℕ
  pub groups : List (String × ℕ)

-- `sum(counts.values())`
abbrev pub sum_counts : List (String × ℕ) → ℕ
sum_counts [] = 0
sum_counts ((key, n) ∷ rest) = n + sum_counts rest

module _ (casefold : String → String) where
  abbrev pub finds : Option String → Row → Bool
  finds none r = true
  finds (some s) r =
      any (λ name. is_part (casefold (strip s)) (casefold (cell name r))) search_fields

  -- The filters of a query, one after another.
  abbrev pub select : FindingQuery → List Row → List Row
  select q rows = keep (finds q.search) (
      keep (λ (r : Row). passes q.exception_status r.exception_status)
        (keep (λ (r : Row). passes q.config_status r.config_status)
          (keep (λ (r : Row). passes q.account_alias r.account_alias)
            (keep (λ (r : Row). passes q.control_key r.control_key) rows))))

  -- `_filtered`
  unfoldable pub filtered : List Row → FindingQuery → Outcome (List Row)
  filtered rows q = do
    validate_query q
    ok (sort_by (before q.sort_by q.sort_direction) (select q rows))

  -- `query`
  unfoldable pub query : List Row → FindingQuery → Outcome Page
  query rows q = do found ← filtered rows q; ok (page_of q found)

  -- `matching_finding_ids`
  unfoldable pub matching_finding_ids : List Row → FindingQuery → Outcome (List String)
  matching_finding_ids rows q = do
    found ← filtered rows q
    ok (map (λ (r : Row). r.finding_id) found)

  -- The rows of `export_csv`, cell by cell, under the header.
  unfoldable pub export_rows : List Row → FindingQuery → Outcome (List (List String))
  export_rows rows q = do
    found ← filtered rows q
    ok (csv_fields ∷ map (λ (r : Row). map (λ name. csv_safe (cell name r)) csv_fields) found)

  -- `grouped_summary`
  unfoldable pub grouped_summary : List Row → FindingQuery → String → Outcome Groups
  grouped_summary rows q group_by = do
    refuse (not (contains group_by ("account_alias" ∷ "control_key" ∷ [])))
        (value_error "unsupported group")
    found ← filtered rows q
    ok (record {
      group_by = group_by;
      total_count = sum_counts (tally (map (cell group_by) found));
      groups = tally (map (cell group_by) found);
    })

pub record Summary : Type 0 where
  pub total_findings : ℕ
  pub account_count : ℕ
  pub control_counts : List (String × ℕ)
  pub config_status_counts : List (String × ℕ)
  pub exception_status_counts : List (String × ℕ)

-- `summary`
unfoldable pub summary : List Row → Summary
summary rows = record {
  total_findings = length rows;
  account_count = length (dedupe (map (λ (r : Row). r.account_alias) rows));
  control_counts = map (λ key. (key, count (λ (r : Row). r.control_key ≟ key) rows)) controls;
  config_status_counts = tally (map (λ (r : Row). r.config_status) rows);
  exception_status_counts = tally (map (λ (r : Row). r.exception_status) rows);
}

abbrev same_candidate : String → String → String → Row → Bool
same_candidate account_alias control_key resource_id r =
    r.account_alias ≟ account_alias && r.control_key ≟ control_key && r.resource_id ≟ resource_id

-- `resolve_candidate`
unfoldable pub resolve_candidate : List Row → String → String → String → Option Row
resolve_candidate rows account_alias control_key resource_id =
    find (same_candidate account_alias control_key resource_id) rows

-- `resolve_finding_id`
unfoldable pub resolve_finding_id : List Row → String → Option Row
resolve_finding_id rows id = find (λ (r : Row). r.finding_id ≟ id) rows

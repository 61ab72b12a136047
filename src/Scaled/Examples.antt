-- ===== src/Scaled/Examples.antt =====
-- compliance_agent_v1/scaled_findings.py: a few rows, and the theorems at them.
use aws_secops.Prelude.{
  List, String, [], ◌∷◌, map, none, some, ordered, keep, sort_by, strip, Perm, refl, true, ◌≡◌,
}
use aws_secops.Effects.{Outcome, ok, raised}
use aws_secops.Scaled.Types.{Row, FindingQuery, cell, generated_row}
use aws_secops.Scaled.Store.{
  Page, filtered, query, validate_query, validate_filters, before, csv_safe,
}
use aws_secops.Scaled.Pages.{AreComplete, query-AreComplete}
use aws_secops.Scaled.Selecting.{filtered-IsSelection, wanted}

abbrev fold : String → String
fold s = s

abbrev rows : List Row
rows =
    generated_row "lab-002" "s3_ssl" 1
    ∷ generated_row "lab-001" "restricted_ssh" 5
    ∷ generated_row "lab-001" "s3_ssl" 2
    ∷ generated_row "lab-003" "s3_ssl" 1
    ∷ []

-- Two rows on a page, by their alias, downwards.
abbrev asked : FindingQuery
asked = record {
  control_key = some "s3_ssl";
  account_alias = none;
  config_status = some "NON_COMPLIANT";
  exception_status = none;
  search = none;
  sort_by = "account_alias";
  sort_direction = "desc";
  page = 2;
  limit = 2;
}

-- Opening this opens the code of the store.
code : Unit {0}
unfolding filtered query validate_query validate_filters sort_by cell csv_safe strip
code = tt

abbrev rows_of : Outcome (List Row) → List Row
rows_of (ok found) = found
rows_of (raised e) = []

abbrev empty_page : Page
empty_page = record {
  total_count = 0;
  returned_count = 0;
  page = 0;
  limit = 0;
  page_count = 0;
  items = [];
}

abbrev page_in : Outcome Page → Page
page_in (ok p) = p
page_in (raised e) = empty_page

aliases_found :
    map (λ (r : Row). r.account_alias) (rows_of (filtered fold rows asked))
    ≡ "lab-003" ∷ "lab-002" ∷ "lab-001" ∷ []
unfolding code
aliases_found = refl

second_page :
    map (λ (r : Row). r.finding_id) (page_in (query fold rows asked)).items
    ≡ "f-lab-001-s3_ssl-02" ∷ []
unfolding code
second_page = refl

safe_cell : csv_safe "=cmd" ≡ "'=cmd"
unfolding code
safe_cell = refl

filtered_lem : filtered fold rows asked ≡ ok (rows_of (filtered fold rows asked))
unfolding code
filtered_lem = refl

query_lem : query fold rows asked ≡ ok (page_in (query fold rows asked))
unfolding code
query_lem = refl

query-AreComplete_example :
    AreComplete fold rows
      (rows_of (filtered fold rows asked))
      asked
      (page_in (query fold rows asked))
query-AreComplete_example =
    query-AreComplete fold rows (rows_of (filtered fold rows asked)) asked
      (page_in (query fold rows asked)) filtered_lem query_lem

filtered-IsSelection_example :
    Perm (rows_of (filtered fold rows asked)) (keep (wanted fold asked) rows)
    × (ordered (before "account_alias" "desc") (rows_of (filtered fold rows asked)) ≡ true)
filtered-IsSelection_example =
    filtered-IsSelection fold rows (rows_of (filtered fold rows asked)) asked filtered_lem

-- ===== src/Pilot/Candidates.antt =====
-- compliance_agent_v1/csv_bulk_pilot.py: `Candidate` and `parse_candidate_csv`.
use aws_secops.Prelude.{
  Bool, List, Option, String, [], false, if◌then◌else◌, ltb, none, not, same_texts, some, strip,
  true, ℕ, ◌+◌, ◌==◌, ◌||◌, ◌∷◌, ◌≟◌,
}
use Prim.Native.String.{count as count_chars}
use aws_secops.Effects.Outcomes.{◌>>=◌, ◌>>◌, refuse}
use aws_secops.Effects.{Outcome, ok, raised, value_error}
use aws_secops.Scaled.Store.{is_formula}

-- CANDIDATE_FIELDS
abbrev pub candidate_fields : List String
candidate_fields = "account_alias" ∷ "control_key" ∷ "resource_id" ∷ []

pub record Candidate : Type 0 where
  pub account_alias : String
  pub control_key : String
  pub resource_id : String

-- What the code takes from its library, over a type of bytes: their number, the text in UTF-8, and
-- `csv.DictReader` of a text, which gives the names of the fields, if there is a first line, and
-- the rows. A row is the cells under the names; none if it has more or fewer cells.
pub record Reader (C : Type 0) : Type 0 where
  pub size : C → ℕ
  pub utf8 : C → Option String
  pub field_names : String → Option (List String)
  pub rows : String → List (Option (List String))

-- `value.strip()` with its tests
unfoldable pub public_value : String → Outcome String
public_value raw =
    let value = strip raw in
    if value ≟ "" || ltb 128 (count_chars value) || is_formula value
    then raised (value_error "candidate CSV contains an invalid public value")
    else ok value

-- One row of the reader.
unfoldable pub candidate_of : Option (List String) → Outcome Candidate
candidate_of (some (a ∷ b ∷ c ∷ [])) = do
  account_alias ← public_value a
  control_key ← public_value b
  resource_id ← public_value c
  ok (record {
    account_alias = account_alias;
    control_key = control_key;
    resource_id = resource_id;
  })
candidate_of (some (a ∷ b ∷ c ∷ d ∷ rest)) = raised (value_error "candidate CSV row is malformed")
candidate_of (some (a ∷ b ∷ [])) = raised (value_error "candidate CSV row is malformed")
candidate_of (some (a ∷ [])) = raised (value_error "candidate CSV row is malformed")
candidate_of (some []) = raised (value_error "candidate CSV row is malformed")
candidate_of none = raised (value_error "candidate CSV row is malformed")

-- The loop over the reader; `n` is the number of candidates so far.
unfoldable pub read_rows : ℕ → List (Option (List String)) → Outcome (List Candidate)
read_rows n [] = ok []
read_rows n (raw ∷ raws) = do
  c ← candidate_of raw
  refuse (ltb 1000 (n + 1)) (value_error "candidate CSV exceeds the row limit")
  cs ← read_rows (n + 1) raws
  ok (c ∷ cs)

abbrev pub given : {A : Type 0} → String → Option A → Outcome A
given message none = raised (value_error message)
given message (some a) = ok a

abbrev pub has_none : List Candidate → Bool
has_none [] = true
has_none (c ∷ cs) = false

-- `parse_candidate_csv`
unfoldable pub parse_candidate_csv : {C : Type 0} → Reader C → C → Outcome (List Candidate)
parse_candidate_csv R content = do
  refuse (R.size content == 0 || ltb 128000 (R.size content))
      (value_error "candidate CSV must be non-empty and within the byte limit")
  t ← given "candidate CSV must be UTF-8" (R.utf8 content)
  names ← given "candidate CSV columns must exactly match the public contract" (R.field_names t)
  refuse (not (same_texts names candidate_fields))
      (value_error "candidate CSV columns must exactly match the public contract")
  candidates ← read_rows 0 (R.rows t)
  refuse (has_none candidates) (value_error "candidate CSV must contain at least one row")
  ok candidates

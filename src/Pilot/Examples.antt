-- ===== src/Pilot/Examples.antt =====
-- compliance_agent_v1/csv_bulk_pilot.py: a preview of three candidates, and the theorems at it.
use aws_secops.Pilot.Parsing.{
  IsAccepted, parse_candidate_csv-IsAccepted, parse_candidate_csv-IsInverse, as_row,
}
use aws_secops.Prelude.{
  List, Option, String, [], ◌∷◌, map, none, some, sort_by, strip, ℕ, zero, suc, ap, false, refl,
  sym, ◌∙◌, ◌≡◌, ◌⧺◌, arith, Bool, if◌then◌else◌, true, ◌≟◌,
}
use Prim.Native.String.{count as count_chars}
use text.Mathlib.TextLemmas.{length-append}
use aws_secops.Effects.{◌>>=◌, ok}
use aws_secops.Scaled.Types.{Row, generated_row}
use aws_secops.Scaled.Store.{resolve_candidate, resolve_finding_id}
use aws_secops.Pilot.Candidates.{
  Reader, candidate_fields, candidate_of, parse_candidate_csv, public_value, read_rows, Candidate,
}
use aws_secops.Pilot.Types.{Pilot, Batch, Digests, PreviewRow, completed, pending}
use aws_secops.Pilot.Preview.{classify, evidence_digest, preview_of, preview_rows}
use aws_secops.Pilot.Batches.{
  approve, compact_of, compact_result, decide, execute_approved, find_batch, freeze_preview,
  get_batch, preview, preview_view, put_batch, execute_rows,
}
use aws_secops.Pilot.History.{
  Operation, decide_call, execute_call, new_pilot, preview_call, run_operation, run_operations,
}
use aws_secops.Pilot.Sound.{dispatched-AreDue}
use aws_secops.Pilot.Handed.{due, rows_of, rows_recorded}
use aws_secops.Pilot.Refinement.{GoesOn, run_operation-Refines}

-- A text of as many marks as the number.
abbrev marks : ℕ → String
marks zero = ""
marks (suc n) = "x" ⧺ marks n

-- Digests that show what they are made of, as far as the texts go.
abbrev D : Digests
D = record {
  casefold = λ s. s;
  of_rows = λ rows. "rows";
  of_ids = λ ids. "ids";
  of_candidates = λ cs. "candidates";
  of_scope = λ s. s.control;
  of_batch = λ h n. marks n;
}

count-marks : (n : ℕ) → count_chars (marks n) ≡ n
count-marks zero = refl
count-marks (suc n) =
    let one : count_chars "x" ≡ 1 = refl in
    omega (arith, length-append "x" (marks n), count-marks n, one)

abbrev store : List Row
store =
    generated_row "lab-001" "restricted_ssh" 1
    ∷ generated_row "lab-001" "restricted_ssh" 5
    ∷ generated_row "lab-002" "restricted_ssh" 1
    ∷ []

abbrev line : String → Option (List String)
line id = some ("lab-001" ∷ "restricted_ssh" ∷ id ∷ [])

-- The bytes are the lines themselves, and these are always the same: an eligible candidate, the
-- same again with spaces, and one with an exception.
abbrev R : Reader (Unit {0})
R = record {
  size = λ c. 100;
  utf8 = λ c. some "";
  field_names = λ t. some candidate_fields;
  rows = λ t. line "sg-lab-001-ssh-01" ∷ line " sg-lab-001-ssh-01 " ∷ line "sg-lab-001-ssh-05" ∷ [];
}

abbrev first : Pilot
first = new_pilot store "restricted_ssh" none

abbrev scope_hash : String
scope_hash = "restricted_ssh"

abbrev calls : List (Operation (Unit {0}))
calls =
    preview_call tt
    ∷ decide_call "x" scope_hash approve
    ∷ execute_call "x" scope_hash []
    ∷ execute_call "x" scope_hash []
    ∷ []

abbrev last : Pilot
last = run_operations D R calls first

-- Opening this opens the code of the pilot.
code : Unit {0}
unfolding execute_rows run_operations run_operation preview decide execute_approved compact_result
    get_batch freeze_preview put_batch find_batch preview_of preview_rows preview_view compact_of
    classify evidence_digest parse_candidate_csv read_rows candidate_of public_value
    resolve_candidate resolve_finding_id sort_by strip ◌>>=◌
code = tt

abbrev no_batch : Batch
no_batch = record {
  scope_hash = "";
  scope = record {
    control = "";
    eligible = [];
    exclusions = [];
    candidate_digest = none;
    selection_digest = none;
    evidence_digest = "";
    selected_accounts = [];
    mixed_control_blocked = false;
  };
  rows = [];
  decision = pending;
  execution = [];
}

abbrev batch_in : Option Batch → Batch
batch_in none = no_batch
batch_in (some b) = b

abbrev batch_of : Pilot → Batch
batch_of s = batch_in (find_batch "x" s.batches)

-- The batch is carried out once, though it is called for twice.
last_batch : (batch_of last).decision ≡ completed
unfolding code
last_batch = refl

abbrev ids : List (String × PreviewRow) → List (String × Option String)
ids log = map (λ (e : String × PreviewRow). (e.0, e.1.finding_id)) log

last_dispatched : ids last.dispatched ≡ ("x", some "f-lab-001-restricted_ssh-01") ∷ []
unfolding code
last_dispatched = refl

there : find_batch "x" last.batches ≡ some (batch_of last)
unfolding code
there = refl

unique : (h g : String) (m n : ℕ) → D.of_batch h m ≡ D.of_batch g n → m ≡ n
unique h g m n e = sym (count-marks m) ∙ ap count_chars e ∙ count-marks n

dispatched-AreDue_example :
    (rows_of "x" last.dispatched ≡ due (batch_of last))
    × (rows_recorded (batch_of last) ≡ due (batch_of last))
dispatched-AreDue_example =
    dispatched-AreDue D unique R calls store "restricted_ssh" none "x" (batch_of last) there

run_operation-Refines_example :
    GoesOn "x" (batch_of last) (run_operation D R (decide_call "x" scope_hash approve) last)
run_operation-Refines_example =
    run_operation-Refines D unique R calls (decide_call "x" scope_hash approve) store
      "restricted_ssh" none "x" (batch_of last) there

abbrev candidate : String → Candidate
candidate id = record {
  account_alias = "lab-001";
  control_key = "restricted_ssh";
  resource_id = id;
}

abbrev candidates : List Candidate
candidates =
    candidate "sg-lab-001-ssh-01"
    ∷ candidate "sg-lab-001-ssh-01"
    ∷ candidate "sg-lab-001-ssh-05"
    ∷ []

parsed : parse_candidate_csv R tt ≡ ok candidates
unfolding code
parsed = refl

parse_candidate_csv-IsAccepted_example : IsAccepted candidates
parse_candidate_csv-IsAccepted_example = parse_candidate_csv-IsAccepted R tt candidates parsed

-- A reader of two files: with the spaces, and without.
abbrev two_files : Reader Bool
two_files = record {
  size = λ spaces. 100;
  utf8 = λ spaces. some (if spaces then "spaces" else "");
  field_names = λ t. some candidate_fields;
  rows = λ t. if t ≟ "spaces" then R.rows t else map as_row candidates;
}

with_spaces : parse_candidate_csv two_files true ≡ ok candidates
unfolding code
with_spaces = refl

parse_candidate_csv-IsInverse_example : parse_candidate_csv two_files false ≡ ok candidates
parse_candidate_csv-IsInverse_example =
    parse_candidate_csv-IsInverse two_files true false "" candidates with_spaces (omega arith)
      (omega arith) refl refl refl

-- ===== src/Jobs/Types.antt =====
-- pilot_v1/jobs.py: jobs, and what the job store takes from outside.
use aws_secops.Prelude.{Bool, List, Option, String, true, false, ℕ}

-- MAX_JOBS
abbrev pub max_jobs : ℕ
max_jobs = 100

-- STATES
pub data JobState : Type 0 where
  pending : JobState
  executing : JobState
  rejected : JobState
  denied : JobState
  completed : JobState
  failed : JobState

abbrev pub is_pending : JobState → Bool
is_pending pending = true
is_pending _ = false

abbrev pub is_executing : JobState → Bool
is_executing executing = true
is_executing _ = false

abbrev pub is_completed : JobState → Bool
is_completed completed = true
is_completed _ = false

-- FIELDS
pub record Job : Type 0 where
  pub job_id : String
  pub finding_id : String
  pub resource_id : String
  pub resource_name : String
  pub control : String
  pub evidence : String
  pub created_at : String
  pub completed_at : Option String
  pub action : String
  pub environment : String
  pub expected_postcondition : String
  pub state : JobState
  pub human_decision : String
  pub policy_decision : String
  pub provider_before : String
  pub provider_after : String
  -- none: it is not known whether something has changed
  pub changed : Option Bool
  pub message : String

-- What the store takes from outside, over a state `W` of the world and a type `J` of the bytes of a
-- file. `write` makes the folder and the temporary file, and puts it in place of the old file, or
-- fails with `OSError` and leaves the old file. `decode` is `json.loads` with the tests on the
-- shape of the object: its version, its fields, their types, and the word of each state.
pub record Platform (W J : Type 0) : Type 0 where
  pub now : W → String
  pub write : W → Bool × W
  pub encode : List Job → J
  pub decode : J → Option (List Job)
  pub size : J → ℕ

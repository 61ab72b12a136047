-- ===== src/Pilot/Types.antt =====
-- compliance_agent_v1/csv_bulk_pilot.py: previews, scopes, batches, and the state of a pilot.
use aws_secops.Prelude.{Bool, List, Option, String, false, true, ℕ}
use aws_secops.Scaled.Types.{Row}

-- PREVIEW_STATES
pub data PreviewState : Type 0 where
  eligible : PreviewState
  duplicate : PreviewState
  stale : PreviewState
  unknown_candidate : PreviewState
  unsupported : PreviewState
  excluded : PreviewState

abbrev pub is_eligible : PreviewState → Bool
is_eligible eligible = true
is_eligible _ = false

abbrev pub is_excluded : PreviewState → Bool
is_excluded excluded = true
is_excluded _ = false

abbrev pub is_duplicate : PreviewState → Bool
is_duplicate duplicate = true
is_duplicate _ = false

-- `row["preview_state"]`
abbrev pub state_word : PreviewState → String
state_word eligible = "ELIGIBLE"
state_word duplicate = "DUPLICATE"
state_word stale = "STALE"
state_word unknown_candidate = "UNKNOWN"
state_word unsupported = "UNSUPPORTED"
state_word excluded = "EXCLUDED"

-- A row of a preview; `finding_id` is there where the code has put one.
pub record PreviewRow : Type 0 where
  pub account_alias : String
  pub control_key : String
  pub resource_id : String
  pub finding_id : Option String
  pub preview_state : PreviewState
  pub reason : String

-- What is frozen: the eligible and the excluded rows by three of their cells, and the digests.
pub record Scope : Type 0 where
  pub control : String
  pub eligible : List (String × String × String)
  pub exclusions : List (String × String × String)
  pub candidate_digest : Option String
  pub selection_digest : Option String
  pub evidence_digest : String
  pub selected_accounts : List String
  pub mixed_control_blocked : Bool

pub data BatchDecision : Type 0 where
  pending : BatchDecision
  approved : BatchDecision
  rejected : BatchDecision
  completed : BatchDecision
  partial : BatchDecision

abbrev pub is_pending : BatchDecision → Bool
is_pending pending = true
is_pending _ = false

abbrev pub is_approved : BatchDecision → Bool
is_approved approved = true
is_approved _ = false

-- The outcome of a row that the executor was given.
pub record Execution : Type 0 where
  pub row : PreviewRow
  pub succeeded : Bool

pub record Batch : Type 0 where
  pub scope_hash : String
  pub scope : Scope
  pub rows : List PreviewRow
  pub decision : BatchDecision
  pub execution : List Execution

-- What a pilot takes from outside: `str.casefold`, `_digest` of the lists and dicts that it digests,
-- and the digest of the evidence of `ScaledFindingStore.evidence_receipt`.
pub record Digests : Type 0 where
  pub casefold : String → String
  pub of_rows : List Row → String
  pub of_ids : List String → String
  pub of_candidates : List (String × String × String) → String
  pub of_scope : Scope → String
  -- of the kind, the hash of the scope and the revision
  pub of_batch : String → ℕ → String

-- The state of `CsvCandidatePilot` and `GroupedSelectionPilot`: `store` is the rows of its finding
-- store, which may be changed between two calls; `batches` is a dict in the order of insertion;
-- `selection` is the one of the second class. The log of the rows that were handed to an executor,
-- with their batches, is an addition that no method reads.
pub record Pilot : Type 0 where
  pub store : List Row
  pub control : String
  pub strict_control_scope : Bool
  pub batches : List (String × Batch)
  pub preparation_revision : ℕ
  pub selection : List (String × Row)
  pub dispatched : List (String × PreviewRow)

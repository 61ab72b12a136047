-- ===== src/Receipts/Types.antt =====
-- pilot_v1/native_decision_receipt.py: the rows of the three tables, and what the code takes from
-- outside as one record: SHA-256, the JSON texts, the clock and the storage under SQLite.
use aws_secops.Prelude.{Bool, List, String, ℕ}

-- TOOL, CONTROL
abbrev pub tool_name : String
tool_name = "decide_s3_ssl_reject_only_mcp_aws_compliance_planner"

abbrev pub control_name : String
control_name = "s3_ssl"

-- A row of `frozen`.
pub record Frozen : Type 0 where
  pub batch_id : String
  pub scope_hash : String
  pub user_hash : String
  pub expires_at : ℕ
  pub state : String

-- The columns of `receipt` that its hash covers, beside the constant tool and control.
pub record Receipt : Type 0 where
  pub batch_id : String
  pub scope_hash : String
  pub action_hash : String
  pub generation_hash : String
  pub user_hash : String
  pub decision : String
  pub outcome : String
  pub recorded_at : ℕ
  pub prior_hash : String

-- The columns of `evidence_event` that its hash covers, beside the sequence.
pub record EvidenceEvent : Type 0 where
  pub batch_id : String
  pub event_type : String
  pub outcome : String
  pub scope_hash : String
  pub detail_hash : String
  pub recorded_at : ℕ
  pub prior_hash : String

-- A row of one of the two chained tables.
pub record Link (A : Type 0) : Type 0 where
  pub sequence : ℕ
  pub event : A
  pub event_hash : String

-- The three tables, in the order of their rows, with the two counters of AUTOINCREMENT.
pub record Tables : Type 0 where
  pub frozen : List Frozen
  pub receipts : List (Link Receipt)
  pub evidence : List (Link EvidenceEvent)
  pub receipt_counter : ℕ
  pub evidence_counter : ℕ

-- `canonical_receipt` and the like are `_canonical` at the dicts that the code builds.
pub record Environment (W : Type 0) : Type 0 where
  pub hash : String → String
  pub canonical_receipt : Receipt → String
  pub canonical_evidence : ℕ → EvidenceEvent → String
  pub canonical_scope : String → String → String → String
  pub clock : W → ℕ × W
  -- `false` where a statement or a commit raises `sqlite3.OperationalError`
  pub execute : W → Bool × W

pub record Receipts (W : Type 0) : Type 0 where
  pub tables : Tables
  pub world : W

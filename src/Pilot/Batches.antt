-- ===== src/Pilot/Batches.antt =====
-- compliance_agent_v1/csv_bulk_pilot.py: `_freeze_preview`, `decide`, `execute_approved` and what
-- they show.
use aws_secops.Prelude.{
  Bool, List, Option, String, [], all, contains, count, false, if◌then◌else◌, keep, length, none,
  not, some, take, true, ℕ, ◌&&◌, ◌++◌, ◌+◌, ◌-◌, ◌||◌, ◌∷◌, ◌≟◌,
}
use aws_secops.Effects.{
  ◌>>=◌, ◌>>◌, Exec, Outcome, gets, lift, modify, ok, pure, raise_if, raised, value_error,
}
use aws_secops.Pilot.Candidates.{Reader, parse_candidate_csv}
use aws_secops.Pilot.Types.{
  Pilot, Batch, BatchDecision, Scope, PreviewRow, Digests, Execution, pending, approved, rejected,
  completed, partial, is_pending, is_approved, is_duplicate, is_eligible, is_excluded,
}
use aws_secops.Pilot.Preview.{preview_of, evidence_digest, is_row_eligible, is_row_excluded, key}

abbrev pub M : Type 0 → Type 0
M A = Exec Pilot A

-- `self._batches.get(batch_id)`, and `self._batches[batch_id] = batch`

unfoldable pub find_batch : String → List (String × Batch) → Option Batch
find_batch id [] = none
find_batch id ((key, b) ∷ bs) = if key ≟ id then some b else find_batch id bs

unfoldable pub put_batch : String → Batch → List (String × Batch) → List (String × Batch)
put_batch id b [] = (id, b) ∷ []
put_batch id b ((key, c) ∷ bs) =
    let rest = put_batch id b bs in if key ≟ id then (key, b) ∷ bs else (key, c) ∷ rest

pub record PreviewView : Type 0 where
  -- none where nothing is eligible, and then nothing is frozen
  pub batch_id : Option String
  pub scope_hash : Option String
  pub control : String
  pub submitted : ℕ
  pub normalized : ℕ
  pub duplicates : ℕ
  pub eligible : ℕ
  pub rejected : ℕ
  pub excluded : ℕ
  pub account_count : ℕ
  pub candidate_digest : Option String
  pub selection_digest : Option String
  pub evidence_digest : String
  pub rejected_page : List PreviewRow
  pub rejected_total : ℕ

abbrev pub is_row_duplicate : PreviewRow → Bool
is_row_duplicate r = is_duplicate r.preview_state

abbrev pub is_row_rejected : PreviewRow → Bool
is_row_rejected r = not (is_eligible r.preview_state) && not (is_excluded r.preview_state)

-- `_preview_view`
unfoldable pub preview_view : String → Batch → PreviewView
preview_view id b = record {
  batch_id = some id;
  scope_hash = some b.scope_hash;
  control = b.scope.control;
  submitted = length b.rows;
  normalized = length b.rows - count is_row_duplicate b.rows;
  duplicates = count is_row_duplicate b.rows;
  eligible = count is_row_eligible b.rows;
  rejected = length (keep is_row_rejected b.rows);
  excluded = count is_row_excluded b.rows;
  account_count = length b.scope.selected_accounts;
  candidate_digest = b.scope.candidate_digest;
  selection_digest = b.scope.selection_digest;
  evidence_digest = b.scope.evidence_digest;
  rejected_page = take 100 (keep is_row_rejected b.rows);
  rejected_total = length (keep is_row_rejected b.rows);
}

pub record CompactResult : Type 0 where
  pub preview : PreviewView
  pub decision : BatchDecision
  pub approved : ℕ
  pub rejected_by_human : ℕ
  pub attempted : ℕ
  pub succeeded : ℕ
  pub failed : ℕ

abbrev was_approved : BatchDecision → ℕ
was_approved approved = 1
was_approved completed = 1
was_approved partial = 1
was_approved _ = 0

abbrev was_rejected : BatchDecision → ℕ
was_rejected rejected = 1
was_rejected _ = 0

-- `compact_result`, of a batch that is there
unfoldable pub compact_of : String → Batch → CompactResult
compact_of id b = record {
  preview = preview_view id b;
  decision = b.decision;
  approved = was_approved b.decision;
  rejected_by_human = was_rejected b.decision;
  attempted = length b.execution;
  succeeded = count (λ (e : Execution). e.succeeded) b.execution;
  failed = count (λ (e : Execution). not e.succeeded) b.execution;
}

-- The decision of the native approval: the word that it was given.
pub data Native : Type 0 where
  approve : Native
  reject : Native
  other_word : Native

abbrev pub decided : Native → Outcome BatchDecision
decided approve = ok approved
decided reject = ok rejected
decided other_word = raised (value_error "native decision must be APPROVE or REJECT")

abbrev pub has_scope : String → Option Batch → Outcome Batch
has_scope hash none = raised (value_error "unknown frozen batch")
has_scope hash (some b) =
    if b.scope_hash ≟ hash then ok b else raised (value_error "frozen batch scope does not match")

-- `_batch`
unfoldable pub get_batch : String → String → M Batch
get_batch id hash = do bs ← gets (λ s. s.batches); lift (has_scope hash (find_batch id bs))

-- `batch["decision"] = ...` and the like: the batch stands in the dict.
abbrev pub set_batch : String → Batch → Pilot → Pilot
set_batch id b s = record s { batches = put_batch id b s.batches }

abbrev pub is_terminal : Batch → Bool
is_terminal b = has_any b.execution || not (is_pending b.decision || is_approved b.decision)
  where
    has_any : List Execution → Bool
    has_any [] = false
    has_any (e ∷ es) = true

-- `executor.dispatch(row)` of a `NoopExecutor`
abbrev pub dispatch : List String → PreviewRow → Execution
dispatch failing r = record { row = r; succeeded = not (fails r.finding_id) }
  where
    fails : Option String → Bool
    fails none = false
    fails (some id) = contains id failing

-- The loop of `execute_approved`: the results, and the log, in which each call of the executor's
-- `dispatch` leaves the batch and the row.
unfoldable pub execute_rows :
    String
    → List String
    → List PreviewRow
    → List (String × PreviewRow)
    → List Execution × List (String × PreviewRow)
execute_rows id failing [] log = ([], log)
execute_rows id failing (r ∷ rs) log =
    let called = execute_rows id failing rs (log ++ ((id, r) ∷ [])) in
    let passed = execute_rows id failing rs log in
    if not (is_row_eligible r) then passed else (dispatch failing r ∷ called.0, called.1)

abbrev pub outcome_of : List Execution → BatchDecision
outcome_of results = if all (λ (e : Execution). e.succeeded) results then completed else partial

module _ (D : Digests) where
  abbrev pub frozen : List PreviewRow → Scope → Batch
  frozen rows scope = record {
    scope_hash = D.of_scope scope;
    scope = scope;
    rows = rows;
    decision = pending;
    execution = [];
  }

  abbrev pub nothing_eligible : {A : Type 0} → List A → Bool
  nothing_eligible [] = true
  nothing_eligible (x ∷ xs) = false

  -- A batch with nothing to approve is shown and not kept.
  abbrev pub freeze_at : Bool → String → Batch → M PreviewView
  freeze_at true id b = pure (record (preview_view id b) { batch_id = none; scope_hash = none })
  freeze_at false id b = modify (set_batch id b) >> pure (preview_view id b)

  abbrev pub batch_id : Scope → ℕ → String
  batch_id scope revision = D.of_batch (D.of_scope scope) revision

  -- `_freeze_preview`
  unfoldable pub freeze_preview : List PreviewRow × Scope → M PreviewView
  freeze_preview (rows, scope) = do
    modify (λ s. record s { preparation_revision = s.preparation_revision + 1 })
    revision ← gets (λ s. s.preparation_revision)
    freeze_at (nothing_eligible scope.eligible) (batch_id scope revision) (frozen rows scope)

  -- `preview`
  unfoldable pub preview : {C : Type 0} → Reader C → C → M PreviewView
  preview R content = do
    candidates ← lift (parse_candidate_csv R content)
    made ← gets (λ s. preview_of D s.store s.control s.strict_control_scope candidates)
    freeze_preview made

  -- `compact_result`
  unfoldable pub compact_result : String → String → M CompactResult
  compact_result id hash = do b ← get_batch id hash; pure (compact_of id b)

  abbrev pub is_changed : Batch → Pilot → Bool
  is_changed b s = not (evidence_digest D s.store ≟ b.scope.evidence_digest)

  -- `decide`
  unfoldable pub decide : String → String → Native → M CompactResult
  decide id hash native = do
    b ← get_batch id hash
    raise_if (not (is_pending b.decision)) (value_error "terminal batch cannot be replayed")
    changed ← gets (is_changed b)
    raise_if changed (value_error "current evidence changed; re-prepare the candidate scope")
    d ← lift (decided native)
    modify (set_batch id (record b { decision = d }))
    compact_result id hash

  -- The batch and the log after the loop.

  abbrev pub executed : String → List String → List (String × PreviewRow) → Batch → Batch
  executed id failing log b =
      let results = (execute_rows id failing b.rows log).0 in
      record b { execution = results; decision = outcome_of results }

  abbrev pub log_dispatched : String → List String → Batch → Pilot → Pilot
  log_dispatched id failing b s = record s {
    dispatched = (execute_rows id failing b.rows s.dispatched).1;
  }

  -- `execute_approved`; `failing` is the executor's
  unfoldable pub execute_approved : String → String → List String → M CompactResult
  execute_approved id hash failing = do
    b ← get_batch id hash
    raise_if (is_terminal b) (value_error "terminal batch cannot be replayed")
    raise_if (not (is_approved b.decision))
        (value_error "only an exact native approval can dispatch this batch")
    changed ← gets (is_changed b)
    raise_if changed (value_error "current evidence changed; re-prepare the candidate scope")
    modify (λ s. set_batch id (executed id failing s.dispatched b) (log_dispatched id failing b s))
    compact_result id hash

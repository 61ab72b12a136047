-- ===== src/Receipts/Store.antt =====
-- pilot_v1/native_decision_receipt.py: the methods of `NativeDecisionReceipts`.
use aws_secops.Receipts.Chain.{last_hash, verify_rows}
use aws_secops.Receipts.Transaction.{
  append_event, evidence_digest, receipt_digest, statement, tick, transaction, validate_binding, M,
}
use aws_secops.Receipts.Types.{
  Environment, EvidenceEvent, Frozen, Link, Receipt, Tables, control_name, tool_name,
}
use aws_secops.Prelude.{
  Bool, List, Option, String, [], any, false, find, if◌then◌else◌, is_hex_text, is_word_text, keep,
  leb, ltb, map, none, not, some, suc, true, ℕ, ◌&&◌, ◌++◌, ◌+◌, ◌-◌, ◌||◌, ◌∷◌, ◌≟◌,
}
use aws_secops.Effects.{
  ◌>>◌, Error, Outcome, gets, integrity_error, ok, operational_error, pure, raise_if, raise_when,
  raised, receipt_error, ◌>>=◌,
}

module _ {W : Type 0} (P : Environment W) where
  abbrev pub same_batch : String → Frozen → Bool
  same_batch batch_id row = row.batch_id ≟ batch_id

  -- `INSERT INTO frozen`: the batch is the primary key
  abbrev pub insert_frozen : Frozen → M P (Unit {0})
  insert_frozen row = do
    raise_when (λ s. any (same_batch row.batch_id) s.tables.frozen) integrity_error
    statement P (λ t. record t { frozen = t.frozen ++ (row ∷ []) })

  -- `except (sqlite3.IntegrityError, sqlite3.OperationalError)` of `register`
  abbrev pub register_error : Error → Error
  register_error integrity_error =
      receipt_error "frozen batch already exists or storage unavailable"
  register_error operational_error =
      receipt_error "frozen batch already exists or storage unavailable"
  register_error e = e

  abbrev malformed_digest : Option String → Bool
  malformed_digest none = false
  malformed_digest (some d) = not (is_hex_text 64 d)

  -- `evidence_digest or ...`
  abbrev given_digest : Option String → String → String
  given_digest none digest = digest
  given_digest (some d) digest = d

  -- `register`; a user that is empty is refused, and so is a deadline not within 1800 seconds
  unfoldable pub register :
      String → String → String → String → String → ℕ → Option String → M P (Unit {0})
  register tool control batch_id scope_hash user_id expires_at digest = do
    validate_binding P tool control batch_id scope_hash
    raise_if (user_id ≟ "") (receipt_error "invalid authenticated freeze binding or TTL")
    first ← tick P
    raise_if (not (ltb first expires_at))
        (receipt_error "invalid authenticated freeze binding or TTL")
    second ← tick P
    raise_if (ltb (second + 1800) expires_at)
        (receipt_error "invalid authenticated freeze binding or TTL")
    raise_if (malformed_digest digest) (receipt_error "invalid provider evidence digest")
    transaction P register_error (do
      insert_frozen (record {
        batch_id = batch_id;
        scope_hash = scope_hash;
        user_hash = P.hash user_id;
        expires_at = expires_at;
        state = "PENDING";
      })
      append_event P batch_id "PREPARE_FROZEN" "FROZEN" scope_hash
          (given_digest digest (P.hash (P.canonical_scope tool control scope_hash)))
      pure tt)

  -- The test on the row that `SELECT ... FROM frozen` found.
  abbrev pub stale : Option Frozen → String → String → ℕ → Bool
  stale none scope_hash user_hash now = true
  stale (some f) scope_hash user_hash now =
      not (f.scope_hash ≟ scope_hash)
      || not (f.user_hash ≟ user_hash)
      || ltb f.expires_at now
      || not (f.state ≟ "PENDING")

  abbrev pub receipt_of : String → Link Receipt → Bool
  receipt_of batch_id row = row.event.batch_id ≟ batch_id

  abbrev pub insert_receipt : Receipt → String → Tables → Tables
  insert_receipt event event_hash t = record t {
    receipts =
        t.receipts
        ++ (record { sequence = suc t.receipt_counter; event = event; event_hash = event_hash }
            ∷ []);
    receipt_counter = suc t.receipt_counter;
  }

  abbrev pub consume_row : String → String → Frozen → Frozen
  consume_row batch_id outcome f =
      if f.batch_id ≟ batch_id && f.state ≟ "PENDING" then record f { state = outcome } else f

  -- `UPDATE frozen SET state=? WHERE batch_id=? AND state='PENDING'`
  abbrev pub consume : String → String → Tables → Tables
  consume batch_id outcome t = record t { frozen = map (consume_row batch_id outcome) t.frozen }

  abbrev pub outcome_of : String → String
  outcome_of decision = if decision ≟ "reject" then "REJECTED" else "APPROVE_BLOCKED"

  -- The part of the result of `record` that is not constant.
  unfoldable pub record_from :
      Tables → String → String → String → String → String → String → ℕ → M P (String × String)
  record_from t batch_id scope_hash action_id generation_id user_id decision now = do
    raise_if (stale (find (same_batch batch_id) t.frozen) scope_hash (P.hash user_id) now)
        (receipt_error "stale, consumed, or mismatched frozen batch")
    let outcome = outcome_of decision
    let event : Receipt = record {
      batch_id = batch_id;
      scope_hash = scope_hash;
      action_hash = P.hash action_id;
      generation_hash = P.hash generation_id;
      user_hash = P.hash user_id;
      decision = decision;
      outcome = outcome;
      recorded_at = now;
      prior_hash = last_hash "GENESIS" t.receipts;
    }
    let event_hash = P.hash (P.canonical_receipt event)
    raise_when (λ s. any (receipt_of batch_id) s.tables.receipts) integrity_error
    statement P (insert_receipt event event_hash)
    statement P (consume batch_id outcome)
    append_event P batch_id "NATIVE_APPROVAL_DECISION" outcome scope_hash event_hash
    pure (outcome, event_hash)

  -- The transaction of `record`, on the tables as they are.
  unfoldable pub record_in :
      String → String → String → String → String → String → ℕ → M P (String × String)
  record_in batch_id scope_hash action_id generation_id user_id decision now = do
    t ← gets (λ s. s.tables)
    record_from t batch_id scope_hash action_id generation_id user_id decision now

  abbrev pub fresh : ℕ → ℕ → Bool
  fresh now decided_at = leb ((now - decided_at) + (decided_at - now)) 60

  abbrev identified : String → String → String → String → Bool
  identified decision action_id generation_id user_id =
      (decision ≟ "reject" || decision ≟ "approve")
      && is_word_text 8 128 action_id
      && is_word_text 8 128 generation_id
      && is_word_text 8 128 user_id

  -- `record`
  unfoldable pub record_decision :
      String
      → String
      → String
      → String
      → String
      → String
      → String
      → String
      → ℕ
      → M P (String × String)
  record_decision tool control batch_id scope_hash action_id generation_id user_id decision
        decided_at =
      do
        validate_binding P tool control batch_id scope_hash
        raise_if (not (identified decision action_id generation_id user_id))
            (receipt_error "invalid native decision identity")
        now ← tick P
        raise_if (not (fresh now decided_at)) (receipt_error "stale native decision timestamp")
        transaction P (λ e. e)
            (record_in batch_id scope_hash action_id generation_id user_id decision now)

  abbrev evidence_of : String → Link EvidenceEvent → Bool
  evidence_of batch_id row = row.event.batch_id ≟ batch_id

  -- `timeline`
  unfoldable pub timeline : String → M P (List (String × String × String))
  timeline batch_id = do
    raise_if (not (is_hex_text 20 batch_id)) (receipt_error "invalid batch")
    gets (λ s.
        map
          (λ (row : Link EvidenceEvent). (row.event.event_type, row.event.outcome, row.event_hash))
          (keep (evidence_of batch_id) s.tables.evidence))

  abbrev is_readback : String → Link EvidenceEvent → Bool
  is_readback batch_id row =
      evidence_of batch_id row && row.event.event_type ≟ "POST_REJECT_READBACK"

  abbrev receipt_in : String → String → Link Receipt → Bool
  receipt_in batch_id scope_hash row = receipt_of batch_id row && row.event.scope_hash ≟ scope_hash

  abbrev was_rejected : Option (Link Receipt) → Bool
  was_rejected none = false
  was_rejected (some row) = row.event.outcome ≟ "REJECTED"

  abbrev readback_outcome : String → Bool
  readback_outcome outcome = outcome ≟ "UNCHANGED" || outcome ≟ "CHANGED" || outcome ≟ "UNAVAILABLE"

  unfoldable pub append_in : String → String → String → String → String → M P String
  append_in batch_id scope_hash event_type outcome detail_hash = do
    t ← gets (λ s. s.tables)
    raise_if (not (was_rejected (find (receipt_in batch_id scope_hash) t.receipts)))
        (receipt_error "post-Reject readback requires durable Reject receipt")
    raise_if (any (is_readback batch_id) t.evidence)
        (receipt_error "post-Reject readback already recorded")
    append_event P batch_id event_type outcome scope_hash detail_hash

  -- `append_evidence`; it returns the hash of the new row
  unfoldable pub append_evidence : String → String → String → String → String → M P String
  append_evidence batch_id scope_hash event_type outcome detail_hash = do
    validate_binding P tool_name control_name batch_id scope_hash
    raise_if
        (not (
          event_type ≟ "POST_REJECT_READBACK"
          && readback_outcome outcome
          && is_hex_text 64 detail_hash))
        (receipt_error "unsupported evidence event")
    transaction P (λ e. e) (append_in batch_id scope_hash event_type outcome detail_hash)

  -- `verify`
  unfoldable pub verify : Tables → Outcome (Unit {0})
  verify t =
      if not (verify_rows (λ (e : Receipt). e.prior_hash) (receipt_digest P) 1 "GENESIS" t.receipts)
      then raised (receipt_error "native decision receipt integrity failure")
      else if not (
          verify_rows (λ (e : EvidenceEvent). e.prior_hash) (evidence_digest P) 1 "GENESIS"
            t.evidence)
      then raised (receipt_error "native decision evidence integrity failure")
      else ok tt

-- The tables of a new database.
abbrev pub no_rows : Tables
no_rows = record {
  frozen = [];
  receipts = [];
  evidence = [];
  receipt_counter = 0;
  evidence_counter = 0;
}

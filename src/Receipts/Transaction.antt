-- ===== src/Receipts/Transaction.antt =====
-- pilot_v1/native_decision_receipt.py: transactions of the database, and `_append_event`. A
-- transaction keeps the tables as they were at BEGIN and puts them back where its body or its
-- commit raises.
use aws_secops.Effects.{
  ◌>>◌, Error, Exec, Outcome, gets, ok, operational_error, pure, raise_if, raised, receipt_error,
  ◌>>=◌,
}
use aws_secops.Receipts.Chain.{last_hash, max_sequence}
use aws_secops.Prelude.{
  Bool, String, [], if◌then◌else◌, is_hex_text, not, suc, ℕ, ◌&&◌, ◌++◌, ◌+◌, ◌∷◌, ◌≟◌,
}
use aws_secops.Receipts.Types.{
  Receipt, Receipts, Tables, control_name, tool_name, Environment, EvidenceEvent,
}

module _ {W : Type 0} (P : Environment W) where
  abbrev pub M : Type 0 → Type 0
  M A = Exec (Receipts W) A

  -- `int(time.time())`
  unfoldable pub tick : M ℕ
  tick s = let (now, world) = P.clock s.world in (ok now, record s { world = world })

  -- A statement that writes.
  unfoldable pub statement : (Tables → Tables) → M (Unit {0})
  statement change s =
      let (fine, world) = P.execute s.world in
      if fine
      then (ok tt, record { tables = change s.tables; world = world })
      else (raised operational_error, record s { world = world })

  abbrev pub settle :
      {A : Type 0} → Tables → (Error → Error) → Outcome A × Receipts W → Outcome A × Receipts W
  settle old handler (raised e, s) = (raised (handler e), record s { tables = old })
  settle old handler (ok a, s) =
      let (fine, world) = P.execute s.world in
      if fine
      then (ok a, record s { world = world })
      else (raised (handler operational_error), record { tables = old; world = world })

  -- BEGIN IMMEDIATE, the body, the commit; `handler` is the `except` clause around the last two.
  unfoldable pub transaction : {A : Type 0} → (Error → Error) → M A → M A
  transaction handler body s =
      let (fine, world) = P.execute s.world in
      if fine
      then settle s.tables handler (body (record s { world = world }))
      else (raised operational_error, record s { world = world })

  -- `_validate_binding`
  abbrev pub bound_to_tool : String → String → String → String → Bool
  bound_to_tool tool control batch_id scope_hash =
      tool ≟ tool_name
      && control ≟ control_name
      && is_hex_text 20 batch_id
      && is_hex_text 24 scope_hash

  unfoldable pub validate_binding : String → String → String → String → M (Unit {0})
  validate_binding tool control batch_id scope_hash =
      raise_if (not (bound_to_tool tool control batch_id scope_hash))
        (receipt_error "unsupported or malformed frozen tool scope")

  abbrev pub receipt_digest : ℕ → Receipt → String
  receipt_digest sequence event = P.hash (P.canonical_receipt event)

  abbrev pub evidence_digest : ℕ → EvidenceEvent → String
  evidence_digest sequence event = P.hash (P.canonical_evidence sequence event)

  abbrev pub insert_evidence : EvidenceEvent → String → Tables → Tables
  insert_evidence event event_hash t = record t {
    evidence =
        t.evidence
        ++ (record { sequence = suc t.evidence_counter; event = event; event_hash = event_hash }
            ∷ []);
    evidence_counter = suc t.evidence_counter;
  }

  -- `_append_event`
  unfoldable pub append_event : String → String → String → String → String → M String
  append_event batch_id event_type outcome scope_hash detail_hash = do
    t ← gets (λ s. s.tables)
    now ← tick
    let event : EvidenceEvent = record {
      batch_id = batch_id;
      event_type = event_type;
      outcome = outcome;
      scope_hash = scope_hash;
      detail_hash = detail_hash;
      recorded_at = now;
      prior_hash = last_hash "GENESIS" t.evidence;
    }
    let event_hash = evidence_digest (max_sequence t.evidence + 1) event
    statement (insert_evidence event event_hash)
    pure event_hash

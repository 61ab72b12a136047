-- ===== src/Receipts/Integrity.antt =====
-- pilot_v1/native_decision_receipt.py: `verify` after any calls.
use aws_secops.Receipts.History.{Call, after_calls}
use aws_secops.Effects.{ok}
use aws_secops.Receipts.Carried.{after_calls-Sound}
use aws_secops.Receipts.Store.{insert_receipt, no_rows, verify}
use aws_secops.Receipts.Transaction.{evidence_digest, insert_evidence, receipt_digest}
use aws_secops.Prelude.{List, [], ap, arith, length, length-append, refl, suc, true, ◌+◌, ◌∷◌, ◌≡◌}
use aws_secops.Receipts.Chain.{last_hash, max_sequence, verify_rows}
use aws_secops.Receipts.Types.{Environment, EvidenceEvent, Frozen, Link, Receipt, Tables}
use aws_secops.Receipts.Linked.{max_sequence-append, verify_rows-append}

module _ {W : Type 0} (P : Environment W) where
  -- Both chains verify, and the counters are the lengths of their tables.
  pub record Intact (t : Tables) : Type 0 where
    pub receipts_verify :
        verify_rows (λ (e : Receipt). e.prior_hash) (receipt_digest P) 1 "GENESIS" t.receipts ≡ true
    pub evidence_verify :
        verify_rows (λ (e : EvidenceEvent). e.prior_hash) (evidence_digest P) 1 "GENESIS" t.evidence
        ≡ true
    pub receipts_counted : t.receipt_counter ≡ length t.receipts
    pub evidence_counted : t.evidence_counter ≡ length t.evidence
    pub evidence_numbered : max_sequence t.evidence ≡ length t.evidence

  pub frozen-Intact :
      (rows : List Frozen) (t : Tables) → Intact t → Intact (record t { frozen = rows })
  frozen-Intact rows t h = record {
    receipts_verify = h.receipts_verify;
    evidence_verify = h.evidence_verify;
    receipts_counted = h.receipts_counted;
    evidence_counted = h.evidence_counted;
    evidence_numbered = h.evidence_numbered;
  }

  pub insert_receipt-Intact :
      (event : Receipt) (t : Tables)
      → event.prior_hash ≡ last_hash "GENESIS" t.receipts
      → Intact t
      → Intact (insert_receipt P event (receipt_digest P 0 event) t)
  insert_receipt-Intact event t p h =
      let row : Link Receipt = record {
        sequence = suc t.receipt_counter;
        event = event;
        event_hash = receipt_digest P 0 event;
      } in
      let counted = h.receipts_counted in
      record {
        receipts_verify =
            verify_rows-append (λ (e : Receipt). e.prior_hash) (receipt_digest P) 1 "GENESIS"
              t.receipts row h.receipts_verify (omega arith) refl p;
        evidence_verify = h.evidence_verify;
        receipts_counted = omega (arith, length-append t.receipts (row ∷ []));
        evidence_counted = h.evidence_counted;
        evidence_numbered = h.evidence_numbered;
      }

  pub insert_evidence-Intact :
      (event : EvidenceEvent) (t : Tables)
      → event.prior_hash ≡ last_hash "GENESIS" t.evidence
      → Intact t
      → Intact (insert_evidence P event (evidence_digest P (max_sequence t.evidence + 1) event) t)
  insert_evidence-Intact event t p h =
      let row : Link EvidenceEvent = record {
        sequence = suc t.evidence_counter;
        event = event;
        event_hash = evidence_digest P (max_sequence t.evidence + 1) event;
      } in
      let counted = h.evidence_counted in
      let numbered = h.evidence_numbered in
      let next : max_sequence t.evidence + 1 ≡ suc t.evidence_counter = omega arith in
      record {
        receipts_verify = h.receipts_verify;
        evidence_verify =
            verify_rows-append (λ (e : EvidenceEvent). e.prior_hash) (evidence_digest P) 1 "GENESIS"
              t.evidence row h.evidence_verify (omega arith)
              (ap (λ n. evidence_digest P n event) next) p;
        receipts_counted = h.receipts_counted;
        evidence_counted = omega (arith, length-append t.evidence (row ∷ []));
        evidence_numbered =
            omega (arith, length-append t.evidence (row ∷ []), max_sequence-append t.evidence row);
      }

  -- A new database on which any calls have been made, in any order and with storage that fails at
  -- any statement, verifies: both chains and their sequence numbers are intact.
  pub verify-after_calls :
      (cs : List Call) (world : W)
      → verify P (after_calls P cs (record { tables = no_rows; world = world })).tables ≡ ok tt
  unfolding verify
  verify-after_calls cs world =
      let h =
        after_calls-Sound P Intact frozen-Intact insert_receipt-Intact insert_evidence-Intact cs
          (record { tables = no_rows; world = world })
          (record {
            receipts_verify = refl;
            evidence_verify = refl;
            receipts_counted = refl;
            evidence_counted = refl;
            evidence_numbered = refl;
          }) in
      rw h.receipts_verify (rw h.evidence_verify refl)

-- ===== src/Receipts/AppendOnly.antt =====
-- pilot_v1/native_decision_receipt.py: the rows of older tables in newer ones.
use aws_secops.Receipts.Chain.{max_sequence}
use aws_secops.Receipts.Carried.{after_calls-Sound}
use aws_secops.Receipts.Transaction.{evidence_digest, receipt_digest}
use aws_secops.Receipts.Types.{Environment, EvidenceEvent, Link, Receipt, Receipts, Tables}
use aws_secops.Prelude.{List, [], ap, refl, suc, ◌++◌, ◌+◌, ◌∙◌, ◌∷◌, ◌≡◌}
use aws_secops.Receipts.History.{Call, after_calls}

-- The tables have the rows of older tables first, in their order.
pub record Extends (old t : Tables) : Type 0 where
  pub new_receipts : List (Link Receipt)
  pub new_evidence : List (Link EvidenceEvent)
  pub receipts_kept : t.receipts ≡ old.receipts ++ new_receipts
  pub evidence_kept : t.evidence ≡ old.evidence ++ new_evidence

append_assoc : {A : Type 0} (xs ys zs : List A) → (xs ++ ys) ++ zs ≡ xs ++ (ys ++ zs)
append_assoc [] ys zs = refl
append_assoc (x ∷ xs) ys zs = ap (λ rest. x ∷ rest) (append_assoc xs ys zs)

append_nil : {A : Type 0} (xs : List A) → xs ≡ xs ++ []
append_nil [] = refl
append_nil (x ∷ xs) = ap (λ rest. x ∷ rest) (append_nil xs)

one_more :
    {A : Type 0} (xs old new more : List A) → xs ≡ old ++ new → xs ++ more ≡ old ++ (new ++ more)
one_more xs old new more e = ap (λ ys. ys ++ more) e ∙ append_assoc old new more

module _ {W : Type 0} (P : Environment W) where
  -- Any calls, whatever their outcomes, leave every receipt and every evidence row as it was, at its
  -- place; new rows come after them.
  pub after_calls-Extends :
      (cs : List Call) (s : Receipts W) → Extends s.tables (after_calls P cs s).tables
  after_calls-Extends cs s =
      after_calls-Sound P (Extends s.tables)
        (λ rows t h. record {
          new_receipts = h.new_receipts;
          new_evidence = h.new_evidence;
          receipts_kept = h.receipts_kept;
          evidence_kept = h.evidence_kept;
        })
        (λ event t _ h. record {
          new_receipts =
              h.new_receipts
              ++ (record {
                sequence = suc t.receipt_counter;
                event = event;
                event_hash = receipt_digest P 0 event;
              }
                  ∷ []);
          new_evidence = h.new_evidence;
          receipts_kept = one_more t.receipts s.tables.receipts h.new_receipts _ h.receipts_kept;
          evidence_kept = h.evidence_kept;
        })
        (λ event t _ h. record {
          new_receipts = h.new_receipts;
          new_evidence =
              h.new_evidence
              ++ (record {
                sequence = suc t.evidence_counter;
                event = event;
                event_hash = evidence_digest P (max_sequence t.evidence + 1) event;
              }
                  ∷ []);
          receipts_kept = h.receipts_kept;
          evidence_kept = one_more t.evidence s.tables.evidence h.new_evidence _ h.evidence_kept;
        })
        cs s
        (record {
          new_receipts = [];
          new_evidence = [];
          receipts_kept = append_nil s.tables.receipts;
          evidence_kept = append_nil s.tables.evidence;
        })

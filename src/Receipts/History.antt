-- ===== src/Receipts/History.antt =====
-- pilot_v1/native_decision_receipt.py: the calls that change the database, one after another, each
-- with whatever outcome.
use aws_secops.Receipts.Types.{Environment, Receipts}
use aws_secops.Receipts.Store.{append_evidence, record_decision, register}
use aws_secops.Prelude.{List, Option, String, [], ℕ, ◌∷◌}

pub data Call : Type 0 where
  register_call : String → String → String → String → String → ℕ → Option String → Call
  record_call : String → String → String → String → String → String → String → String → ℕ → Call
  append_call : String → String → String → String → String → Call

module _ {W : Type 0} (P : Environment W) where
  -- One call; the outcome goes to the caller.
  abbrev pub after_call : Call → Receipts W → Receipts W
  after_call (register_call tool control batch scope user expires digest) s =
      (register P tool control batch scope user expires digest s).1
  after_call (record_call tool control batch scope action generation user decision at) s =
      (record_decision P tool control batch scope action generation user decision at s).1
  after_call (append_call batch scope event_type outcome detail) s =
      (append_evidence P batch scope event_type outcome detail s).1

  abbrev pub after_calls : List Call → Receipts W → Receipts W
  after_calls [] s = s
  after_calls (c ∷ cs) s = after_calls cs (after_call c s)

-- ===== src/Receipts/Examples.antt =====
-- pilot_v1/native_decision_receipt.py: a small history, and the theorems at it.
use aws_secops.Effects.{ok, ◌>>=◌}
use aws_secops.Receipts.AppendOnly.{Extends, after_calls-Extends}
use aws_secops.Receipts.Transaction.{append_event, statement, tick, transaction, validate_binding}
use aws_secops.Receipts.SingleUse.{Refuses, record-single_use}
use aws_secops.Receipts.Store.{
  append_evidence, append_in, no_rows, record_decision, record_from, record_in, register, timeline,
  verify,
}
use aws_secops.Prelude.{List, String, [], map, none, refl, true, ℕ, ◌∷◌, ◌≡◌}
use aws_secops.Receipts.Types.{Environment, EvidenceEvent, Link, Receipts, control_name, tool_name}
use aws_secops.Receipts.Integrity.{verify-after_calls}
use aws_secops.Receipts.History.{Call, after_calls, append_call, record_call, register_call}

abbrev E : Environment ℕ
E = record {
  hash = λ text. text;
  canonical_receipt = λ e. e.prior_hash;
  canonical_evidence = λ n e. e.event_type;
  canonical_scope = λ tool control scope. scope;
  clock = λ now. (now, now);
  execute = λ now. (true, now);
}

abbrev batch : String
batch = "0123456789abcdef0123"

abbrev scope : String
scope = "0123456789abcdef01234567"

abbrev new_database : Receipts ℕ
new_database = record { tables = no_rows; world = 10 }

abbrev register_it : Call
register_it = register_call tool_name control_name batch scope "user_0001" 100 none

abbrev reject_it : Call
reject_it =
    record_call tool_name control_name batch scope "action_1" "generation_1" "user_0001" "reject" 12

abbrev readback : Call
readback =
    append_call batch scope "POST_REJECT_READBACK" "UNCHANGED"
      "0123456789abcdef0123456789abcdef0123456789abcdef0123456789abcdef"

abbrev registered : Receipts ℕ
registered = after_calls E (register_it ∷ []) new_database

abbrev rejected_once : Receipts ℕ
rejected_once = after_calls E (reject_it ∷ []) registered

-- Opening this opens the code of the receipts.
code : Unit {0}
unfolding register validate_binding tick transaction statement append_event record_from record_in
    record_decision append_in append_evidence timeline verify ◌>>=◌
code = tt

events : Receipts ℕ → List String
events s = map (λ (row : Link EvidenceEvent). row.event.event_type) s.tables.evidence

-- A prepared batch, a rejection and its readback leave three evidence rows.
all_events :
    events (after_calls E (readback ∷ []) rejected_once)
    ≡ "PREPARE_FROZEN" ∷ "NATIVE_APPROVAL_DECISION" ∷ "POST_REJECT_READBACK" ∷ []
unfolding code events
all_events = refl

verify-after_calls_example :
    verify E (after_calls E (register_it ∷ reject_it ∷ reject_it ∷ []) new_database).tables ≡ ok tt
verify-after_calls_example = verify-after_calls E (register_it ∷ reject_it ∷ reject_it ∷ []) 10

after_calls-Extends_example :
    Extends registered.tables (after_calls E (reject_it ∷ readback ∷ []) registered).tables
after_calls-Extends_example = after_calls-Extends E (reject_it ∷ readback ∷ []) registered

record-single_use_example :
    Refuses E
      (record_decision E tool_name control_name batch scope "action_2" "generation_1" "user_0001"
        "approve" 12)
      (after_calls E (readback ∷ []) rejected_once)
record-single_use_example =
    record-single_use E tool_name control_name batch scope "action_1" "generation_1" "user_0001"
      "reject" 12 registered ("REJECTED", "GENESIS") rejected_once (readback ∷ []) tool_name
      control_name scope "action_2" "generation_1" "user_0001" "approve" 12 recorded
  where
    recorded :
        record_decision E tool_name control_name batch scope "action_1" "generation_1" "user_0001"
          "reject" 12 registered
        ≡ (ok ("REJECTED", "GENESIS"), rejected_once)
    recorded = unfold code in refl

-- ===== src/Receipts/Carried.antt =====
-- pilot_v1/native_decision_receipt.py: a property of the tables through the methods, whatever fails.
use aws_secops.Receipts.Chain.{last_hash, max_sequence}
use aws_secops.Receipts.Types.{Environment, EvidenceEvent, Frozen, Receipts, Tables, Receipt}
use aws_secops.Effects.Keeps.{
  Keeps, Keeps-bind, Keeps-gets, Keeps-pure, Keeps-raise_if, Keeps-raise_when, Keeps-then,
}
use aws_secops.Receipts.History.{Call, after_calls, append_call, record_call, register_call}
use aws_secops.Receipts.Store.{
  append_evidence, append_in, insert_frozen, record_decision, record_from, record_in, register,
  insert_receipt,
}
use aws_secops.Receipts.Transaction.{
  append_event, evidence_digest, insert_evidence, settle, statement, tick, transaction,
  validate_binding, M, receipt_digest,
}
use aws_secops.Effects.{Error, Outcome, ok, pure, raise_if, raise_when, raised, ◌>>=◌, ◌>>◌}
use aws_secops.Prelude.{
  Bool, Bool-cases, List, Option, String, [], false, inl, inr, refl, true, ℕ, ◌+◌, ◌∷◌, ◌≡◌,
}

module _ {W : Type 0} (P : Environment W) (I : Tables → Type 0)
    (frozen_changes : (rows : List Frozen) (t : Tables) → I t → I (record t { frozen = rows }))
    (receipt_joins : (event : Receipt) (t : Tables)
      → event.prior_hash ≡ last_hash "GENESIS" t.receipts
      → I t
      → I (insert_receipt P event (receipt_digest P 0 event) t))
    (evidence_joins : (event : EvidenceEvent) (t : Tables)
      → event.prior_hash ≡ last_hash "GENESIS" t.evidence
      → I t
      → I (insert_evidence P event (evidence_digest P (max_sequence t.evidence + 1) event) t)) where
  abbrev Sound : Receipts W → Type 0
  Sound s = I s.tables

  -- A statement, and what follows it where it succeeds.
  statement-at :
      {A : Type 0} (change : Tables → Tables) (n : M P A) (s : Receipts W)
      → Sound s
      → ((w : W) → Sound (n (record { tables = change s.tables; world = w })).1)
      → Sound ((statement P change >> n) s).1
  unfolding statement ◌>>=◌
  statement-at change n s h k = elim (Bool-cases (P.execute s.world).0) [
    | inl fine ↦ rw fine (k (P.execute s.world).1)
    | inr refused ↦ rw refused h
  ]

  Keeps-statement :
      (change : Tables → Tables)
      → ((t : Tables) → I t → I (change t))
      → Keeps Sound (statement P change)
  unfolding statement
  Keeps-statement change k = record {
    at = λ s h. elim (Bool-cases (P.execute s.world).0) [
      | inl fine ↦ rw fine (k s.tables h)
      | inr refused ↦ rw refused h
    ];
  }

  guard-at :
      {A : Type 0} (b : Bool) (e : Error) (n : M P A) (s : Receipts W)
      → Sound s
      → Sound (n s).1
      → Sound ((raise_if b e >> n) s).1
  unfolding ◌>>=◌
  guard-at true e n s h k = h
  guard-at false e n s h k = k

  Keeps-tick : Keeps Sound (tick P)
  unfolding tick
  Keeps-tick = record { at = λ s h. h }

  settle-at :
      {A : Type 0} (old : Tables) (handler : Error → Error) (r : Outcome A × Receipts W)
      → I old
      → Sound r.1
      → Sound (settle P old handler r).1
  settle-at old handler (raised e, s) h k = h
  settle-at old handler (ok a, s) h k = elim (Bool-cases (P.execute s.world).0) [
    | inl fine ↦ rw fine k
    | inr refused ↦ rw refused h
  ]

  Keeps-transaction :
      {A : Type 0} (handler : Error → Error) (body : M P A)
      → Keeps Sound body
      → Keeps Sound (transaction P handler body)
  unfolding transaction
  Keeps-transaction handler body k = record {
    at = λ s h. elim (Bool-cases (P.execute s.world).0) [
      | inl fine ↦
          let begun : Receipts W = record s { world = (P.execute s.world).1 } in
          rw fine (settle-at s.tables handler (body begun) h (k.at begun h))
      | inr refused ↦ rw refused h
    ];
  }

  Keeps-append_event :
      (batch kind outcome scope detail : String)
      → Keeps Sound (append_event P batch kind outcome scope detail)
  unfolding append_event tick ◌>>=◌
  Keeps-append_event batch kind outcome scope detail = record {
    at = λ s h.
        let event : EvidenceEvent = record {
          batch_id = batch;
          event_type = kind;
          outcome = outcome;
          scope_hash = scope;
          detail_hash = detail;
          recorded_at = (P.clock s.world).0;
          prior_hash = last_hash "GENESIS" s.tables.evidence;
        } in
        let digest = evidence_digest P (max_sequence s.tables.evidence + 1) event in
        statement-at (insert_evidence P event digest) (pure digest)
          (record s { world = (P.clock s.world).1 }) h (λ w. evidence_joins event s.tables refl h);
  }

  Keeps-binding :
      (tool control batch scope : String)
      → Keeps Sound (validate_binding P tool control batch scope)
  unfolding validate_binding
  Keeps-binding tool control batch scope = Keeps-raise_if _ _

  Keeps-insert_frozen : (row : Frozen) → Keeps Sound (insert_frozen P row)
  Keeps-insert_frozen row =
      Keeps-then (Keeps-raise_when _ _) (Keeps-statement _ λ t h. frozen_changes _ t h)

  when-at :
      {A : Type 0} (p : Receipts W → Bool) (e : Error) (n : M P A) (s : Receipts W)
      → Sound s
      → Sound (n s).1
      → Sound ((raise_when p e >> n) s).1
  unfolding ◌>>=◌
  when-at p e n s h k = elim (Bool-cases (p s)) [
    | inl stops ↦ rw stops h
    | inr goes_on ↦ rw goes_on k
  ]

  record_from-Sound :
      (batch scope action generation user decision : String) (now : ℕ) (s : Receipts W)
      → Sound s
      → Sound (record_from P s.tables batch scope action generation user decision now s).1
  unfolding record_from
  record_from-Sound batch scope action generation user decision now s h = guard-at _ _ _ s h (
      when-at _ _ _ s h (
        statement-at _ _ s h λ w.
          (Keeps-then (Keeps-statement _ λ t k. frozen_changes _ t k)
              (Keeps-bind (Keeps-append_event batch _ _ scope _) λ _. Keeps-pure _)).at
            _ (receipt_joins _ s.tables refl h)))

  Keeps-record_in :
      (batch scope action generation user decision : String) (now : ℕ)
      → Keeps Sound (record_in P batch scope action generation user decision now)
  unfolding record_in ◌>>=◌
  Keeps-record_in batch scope action generation user decision now = record {
    at = record_from-Sound batch scope action generation user decision now;
  }

  Keeps-append_in :
      (batch scope kind outcome detail : String)
      → Keeps Sound (append_in P batch scope kind outcome detail)
  unfolding append_in
  Keeps-append_in batch scope kind outcome detail = Keeps-bind (Keeps-gets _) λ t.
      Keeps-then (Keeps-raise_if _ _)
        (Keeps-then (Keeps-raise_if _ _) (Keeps-append_event batch kind outcome scope detail))

  Keeps-register :
      (tool control batch scope user : String) (expires : ℕ) (digest : Option String)
      → Keeps Sound (register P tool control batch scope user expires digest)
  unfolding register
  Keeps-register tool control batch scope user expires digest =
      Keeps-then (Keeps-binding tool control batch scope) (
        Keeps-then (Keeps-raise_if _ _) (
          Keeps-bind Keeps-tick λ first. Keeps-then (Keeps-raise_if _ _) (
            Keeps-bind Keeps-tick λ second. Keeps-then (Keeps-raise_if _ _) (
              Keeps-then (Keeps-raise_if _ _) (
                Keeps-transaction _ _ (
                  Keeps-then (Keeps-insert_frozen _)
                    (Keeps-then (Keeps-append_event batch _ _ scope _) (Keeps-pure _))))))))

  Keeps-record_decision :
      (tool control batch scope action generation user decision : String) (at : ℕ)
      → Keeps Sound (record_decision P tool control batch scope action generation user decision at)
  unfolding record_decision
  Keeps-record_decision tool control batch scope action generation user decision at =
      Keeps-then (Keeps-binding tool control batch scope) (
        Keeps-then (Keeps-raise_if _ _) (
          Keeps-bind Keeps-tick λ now. Keeps-then (Keeps-raise_if _ _) (
            Keeps-transaction _ _
              (Keeps-record_in batch scope action generation user decision now))))

  Keeps-append_evidence :
      (batch scope kind outcome detail : String)
      → Keeps Sound (append_evidence P batch scope kind outcome detail)
  unfolding append_evidence
  Keeps-append_evidence batch scope kind outcome detail =
      Keeps-then (Keeps-binding _ _ batch scope) (
        Keeps-then (Keeps-raise_if _ _)
          (Keeps-transaction _ _ (Keeps-append_in batch scope kind outcome detail)))

  -- What the three changes of the tables carry on, any calls carry on.
  pub after_calls-Sound : (cs : List Call) (s : Receipts W) → Sound s → Sound (after_calls P cs s)
  after_calls-Sound [] s h = h
  after_calls-Sound (register_call tool control batch scope user expires digest ∷ cs) s h =
      after_calls-Sound cs _ ((Keeps-register tool control batch scope user expires digest).at s h)
  after_calls-Sound (record_call tool control batch scope action generation user decision at ∷ cs) s
        h =
      after_calls-Sound cs _
        ((Keeps-record_decision tool control batch scope action generation user decision at).at s h)
  after_calls-Sound (append_call batch scope kind outcome detail ∷ cs) s h =
      after_calls-Sound cs _ ((Keeps-append_evidence batch scope kind outcome detail).at s h)

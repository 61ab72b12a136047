-- ===== src/Receipts/SingleUse.antt =====
-- pilot_v1/native_decision_receipt.py: `record` for a batch that has a receipt.
use aws_secops.Receipts.AppendOnly.{after_calls-Extends}
use aws_secops.Receipts.History.{Call, after_calls}
use aws_secops.Receipts.Chain.{last_hash}
use aws_secops.Receipts.Transaction.{
  append_event, statement, tick, M, settle, transaction, validate_binding,
}
use aws_secops.Effects.{
  Error, ok, raised, ◌>>=◌, integrity_error, operational_error, receipt_error, bind-returns,
  guard-returns, raise_if, ◌>>◌, Outcome,
}
use aws_secops.Prelude.{
  Bool, List, String, [], any, arith, true, ℕ, ≟_refl, ◌++◌, ◌∷◌, ◌≡◌, Bool-cases, find, inl, inr,
  refl, suc, false, ap, ◌∙◌,
}
use aws_secops.Receipts.Store.{
  receipt_of, record_from, outcome_of, record_in, same_batch, stale, record_decision,
}
use aws_secops.Receipts.Types.{Environment, Receipts, Link, Receipt, Tables}

any-append :
    {A : Type 0} (p : A → Bool) (xs ys : List A) → any p xs ≡ true → any p (xs ++ ys) ≡ true
any-append p [] ys h = absurd (cc h)
any-append p (x ∷ xs) ys h = ground (arith, any-append p xs ys)

any-last :
    {A : Type 0} (p : A → Bool) (xs : List A) (y : A) → p y ≡ true → any p (xs ++ (y ∷ [])) ≡ true
any-last p [] y h = ground arith
any-last p (x ∷ xs) y h = ground (arith, any-last p xs y)

module _ {W : Type 0} (P : Environment W) where
  -- The call raises, and the tables are as before.
  pub record Refuses {A : Type 0} (m : M P A) (s : Receipts W) : Type 0 where
    pub error : Error
    pub raises : (m s).0 ≡ raised error
    pub same_tables : (m s).1.tables ≡ s.tables

  record_from-Refuses :
      (batch scope action generation user decision : String) (now : ℕ) (s : Receipts W)
      → any (receipt_of P batch) s.tables.receipts ≡ true
      → (e : Error) × (record_from P s.tables batch scope action generation user decision now s
          ≡ (raised e, s))
  unfolding record_from ◌>>=◌
  record_from-Refuses batch scope action generation user decision now s h =
      elim (Bool-cases
        (stale P (find (same_batch P batch) s.tables.frozen) scope (P.hash user) now)) [
          | inl is_stale ↦
              (receipt_error "stale, consumed, or mismatched frozen batch", ground arith)
          | inr usable ↦ (integrity_error, ground arith)
        ]

  record_from-receipt :
      (batch scope action generation user decision : String) (now : ℕ) (s : Receipts W)
      (r : String × String)
      → (record_from P s.tables batch scope action generation user decision now s).0 ≡ ok r
      → any
          (receipt_of P batch)
          (record_from P s.tables batch scope action generation user decision now
            s).1.tables.receipts
        ≡ true
  unfolding record_from statement append_event tick ◌>>=◌
  record_from-receipt batch scope action generation user decision now s r e =
      let same = ≟_refl batch in
      let event : Receipt = record {
        batch_id = batch;
        scope_hash = scope;
        action_hash = P.hash action;
        generation_hash = P.hash generation;
        user_hash = P.hash user;
        decision = decision;
        outcome = outcome_of P decision;
        recorded_at = now;
        prior_hash = last_hash "GENESIS" s.tables.receipts;
      } in
      let row : Link Receipt = record {
        sequence = suc s.tables.receipt_counter;
        event = event;
        event_hash = P.hash (P.canonical_receipt event);
      } in
      let there = any-last (receipt_of P batch) s.tables.receipts row same in ground arith

  record_in-Refuses :
      (batch scope action generation user decision : String) (now : ℕ) (s : Receipts W)
      → any (receipt_of P batch) s.tables.receipts ≡ true
      → Refuses
          (transaction P (λ e. e) (record_in P batch scope action generation user decision now))
          s
  unfolding transaction record_in ◌>>=◌
  record_in-Refuses batch scope action generation user decision now s h =
      elim (Bool-cases (P.execute s.world).0) [
        | inl fine ↦
            let begun : Receipts W = record s { world = (P.execute s.world).1 } in
            let (e, r) =
              record_from-Refuses batch scope action generation user decision now begun h in
            record { error = e; raises = rw fine (rw r refl); same_tables = rw fine (rw r refl) }
        | inr refused ↦ record {
          error = operational_error;
          raises = rw refused refl;
          same_tables = rw refused refl;
        }
      ]

  Refuses-guard :
      {A : Type 0} (b : Bool) (e : Error) (n : M P A) (s : Receipts W)
      → Refuses n s
      → Refuses (raise_if b e >> n) s
  unfolding ◌>>=◌
  Refuses-guard true e n s h = record { error = e; raises = refl; same_tables = refl }
  Refuses-guard false e n s h = h

  Refuses-tick :
      {A : Type 0} (k : ℕ → M P A) (s : Receipts W)
      → ((now : ℕ) → Refuses (k now) (record s { world = (P.clock s.world).1 }))
      → Refuses (tick P >>= k) s
  unfolding tick ◌>>=◌
  Refuses-tick k s h =
      let x = h (P.clock s.world).0 in
      record { error = x.error; raises = x.raises; same_tables = x.same_tables }

  record_decision-Refuses :
      (tool control batch scope action generation user decision : String) (at : ℕ) (s : Receipts W)
      → any (receipt_of P batch) s.tables.receipts ≡ true
      → Refuses (record_decision P tool control batch scope action generation user decision at) s
  unfolding record_decision validate_binding
  record_decision-Refuses tool control batch scope action generation user decision at s h =
      Refuses-guard _ _ _ s (
        Refuses-guard _ _ _ s (
          Refuses-tick _ s λ now.
            Refuses-guard _ _ _ _
              (record_in-Refuses batch scope action generation user decision now _ h)))

  settle-returns :
      {A : Type 0} (old : Tables) (handler : Error → Error) (x : Outcome A × Receipts W) (r : A)
      (t : Receipts W)
      → settle P old handler x ≡ (ok r, t)
      → (x.0 ≡ ok r) × (t.tables ≡ x.1.tables)
  settle-returns old handler (raised e, u) r t k = absurd (cc k)
  settle-returns old handler (ok a, u) r t k = elim (Bool-cases (P.execute u.world).0) [
    | inl fine ↦ (ground arith, ground arith)
    | inr refused ↦ absurd (ground arith)
  ]

  transaction-returns :
      {A : Type 0} (handler : Error → Error) (body : M P A) (s : Receipts W) (r : A)
      (t : Receipts W)
      → transaction P handler body s ≡ (ok r, t)
      → let begun : Receipts W = record s { world = (P.execute s.world).1 } in
        ((body begun).0 ≡ ok r) × (t.tables ≡ (body begun).1.tables)
  unfolding transaction
  transaction-returns handler body s r t e = elim (Bool-cases (P.execute s.world).0) [
    | inl fine ↦
        let begun : Receipts W = record s { world = (P.execute s.world).1 } in
        let settled : settle P s.tables handler (body begun) ≡ (ok r, t) = ground arith in
        settle-returns s.tables handler (body begun) r t settled
    | inr refused ↦ absurd (ground arith)
  ]

  record_in-receipt :
      (batch scope action generation user decision : String) (now : ℕ) (s : Receipts W)
      (r : String × String)
      → (record_in P batch scope action generation user decision now s).0 ≡ ok r
      → any
          (receipt_of P batch)
          (record_in P batch scope action generation user decision now s).1.tables.receipts
        ≡ true
  unfolding record_in ◌>>=◌
  record_in-receipt batch scope action generation user decision now s r e =
      record_from-receipt batch scope action generation user decision now s r e

  record_decision-receipt :
      (tool control batch scope action generation user decision : String) (at : ℕ) (s : Receipts W)
      (r : String × String) (t : Receipts W)
      → record_decision P tool control batch scope action generation user decision at s ≡ (ok r, t)
      → any (receipt_of P batch) t.tables.receipts ≡ true
  unfolding record_decision validate_binding
  record_decision-receipt tool control batch scope action generation user decision at s r t e =
      let (_, e1) = guard-returns _ _ _ s r t e in
      let (_, e2) = guard-returns _ _ _ s r t e1 in
      let (now, u, _, e3) = bind-returns (tick P) _ s r t e2 in
      let (_, e4) = guard-returns _ _ _ u r t e3 in
      let begun : Receipts W = record u { world = (P.execute u.world).1 } in
      let (done, kept) =
        transaction-returns (λ x. x) (record_in P batch scope action generation user decision now) u
          r t e4 in
      ap (λ (v : Tables). any (receipt_of P batch) v.receipts) kept
      ∙ record_in-receipt batch scope action generation user decision now begun r done

  -- Once `record` has returned for a batch, it raises at each later call for that batch and changes
  -- no table, whatever the arguments and whatever calls are made between.
  pub record-single_use :
      (tool control batch scope action generation user decision : String) (at : ℕ) (s : Receipts W)
      (r : String × String) (t : Receipts W) (between : List Call)
      (tool' control' scope' action' generation' user' decision' : String) (at' : ℕ)
      → record_decision P tool control batch scope action generation user decision at s ≡ (ok r, t)
      → Refuses
          (record_decision P tool' control' batch scope' action' generation' user' decision' at')
          (after_calls P between t)
  record-single_use tool control batch scope action generation user decision at s r t between tool'
        control' scope' action' generation' user' decision' at' e =
      let h = after_calls-Extends P between t in
      let there =
        record_decision-receipt tool control batch scope action generation user decision at s r t
          e in
      record_decision-Refuses tool' control' batch scope' action' generation' user' decision' at'
        (after_calls P between t)
        (ap (any (receipt_of P batch)) h.receipts_kept
          ∙ any-append (receipt_of P batch) t.tables.receipts h.new_receipts there)

-- ===== src/Pilot/Sound.antt =====
-- compliance_agent_v1/csv_bulk_pilot.py: the batches and the log of dispatches agree.
use aws_secops.Pilot.Handed.{
  due, execute_rows-logged, execute_rows-recorded, is_done, rows_of, rows_of-append, rows_of-mine,
  rows_of-others, rows_recorded,
}
use aws_secops.Prelude.{
  Bool, Bool-cases, List, Option, String, [], all, ap, arith, false, if◌then◌else◌, inl, inr, keep,
  map, none, refl, some, subst, sym, true, ℕ, ≟→eq, ◌++◌, ◌+◌, ◌∙◌, ◌∷◌, ◌≟◌, ◌≡◌, ◌≤◌, ◌⊎◌,
  append_nothing,
}
use aws_secops.Scaled.Types.{Row}
use aws_secops.Pilot.Candidates.{Reader}
use aws_secops.Pilot.Types.{
  Pilot, Batch, BatchDecision, PreviewRow, Digests, Execution, pending, approved, rejected,
  completed, partial,
}
use aws_secops.Pilot.Preview.{is_row_eligible, key}
use aws_secops.Pilot.Batches.{
  find_batch, put_batch, frozen, batch_id, executed, execute_rows, outcome_of,
}
use aws_secops.Pilot.Dict.{find-put, find-put_elsewhere}
use aws_secops.Pilot.Steps.{Step, quiet, freezes, decides, executes, run_operation-Step}
use aws_secops.Pilot.History.{Operation, run_operation, run_operations, new_pilot}

module _ (D : Digests) where
  -- The id was made with one of the revisions so far.
  abbrev Numbered : String → ℕ → Type 0
  Numbered id revision = (h : String) × (r : ℕ) × (id ≡ D.of_batch h r) × (r ≤ revision)

  pub record Sound (s : Pilot) : Type 0 where
    pub numbered :
        (id : String) (b : Batch)
        → find_batch id s.batches ≡ some b
        → Numbered id s.preparation_revision
    pub unlogged : (id : String) → find_batch id s.batches ≡ none → rows_of id s.dispatched ≡ []
    pub settled :
        (id : String) (b : Batch)
        → find_batch id s.batches ≡ some b
        → (rows_of id s.dispatched ≡ due b) × (rows_recorded b ≡ due b)

  later : (id : String) (m n : ℕ) → m ≤ n → Numbered id m → Numbered id n
  later id m n h (hash, r, e, k) = (hash, r, e, omega (arith, h, k))

  -- A step that writes one batch.
  written :
      (s t : Pilot) (key : String) (c : Batch)
      → t.batches ≡ put_batch key c s.batches
      → Numbered key t.preparation_revision
      → s.preparation_revision ≤ t.preparation_revision
      → (rows_of key t.dispatched ≡ due c) × (rows_recorded c ≡ due c)
      → ((id : String) → (key ≟ id) ≡ false → rows_of id t.dispatched ≡ rows_of id s.dispatched)
      → Sound s
      → Sound t
  written s t key c e num more mine others h = record {
    numbered = λ id b f. elim (Bool-cases (key ≟ id)) [
      | inl same ↦ subst (λ n. Numbered n t.preparation_revision) (≟→eq key id same) num
      | inr differs ↦
          later id s.preparation_revision t.preparation_revision more
            (h.numbered id b (before id differs f))
    ];
    unlogged = λ id f. elim (Bool-cases (key ≟ id)) [
      | inl same ↦ absurd (found_there id same f)
      | inr differs ↦ others id differs ∙ h.unlogged id (before id differs f)
    ];
    settled = λ id b f. elim (Bool-cases (key ≟ id)) [
      | inl same ↦
          let is_c : c ≡ b = found_c id same b f in
          subst (λ n. (rows_of n t.dispatched ≡ due b) × (rows_recorded b ≡ due b))
            (≟→eq key id same)
            (subst (λ x. (rows_of key t.dispatched ≡ due x) × (rows_recorded x ≡ due x)) is_c mine)
      | inr differs ↦
          let (logged, kept) = h.settled id b (before id differs f) in
          (others id differs ∙ logged, kept)
    ];
  }
    where
      before :
          (id : String) {o : Option Batch}
          → (key ≟ id) ≡ false
          → find_batch id t.batches ≡ o
          → find_batch id s.batches ≡ o
      before id differs f =
          sym (find-put_elsewhere id key c s.batches differs) ∙ sym (ap (find_batch id) e) ∙ f

      at_key : (id : String) → (key ≟ id) ≡ true → find_batch id t.batches ≡ some c
      at_key id same =
          ap (find_batch id) e
          ∙ subst (λ n. find_batch n (put_batch key c s.batches) ≡ some c) (≟→eq key id same)
              (find-put key c s.batches)

      found_there : (id : String) → (key ≟ id) ≡ true → ¬ (find_batch id t.batches ≡ none)
      found_there id same f = let g = at_key id same in cc (f, g)

      found_c :
          (id : String) → (key ≟ id) ≡ true → (b : Batch) → find_batch id t.batches ≡ some b → c ≡ b
      found_c id same b f = let g = at_key id same in cc (f, g)

  due_pending : (b : Batch) → b.decision ≡ pending → due b ≡ []
  due_pending b h = rw h refl

  due_approved : (b : Batch) → b.decision ≡ approved → due b ≡ []
  due_approved b h = rw h refl

  due_decided :
      (b : Batch) (d : BatchDecision)
      → (d ≡ approved) ⊎ (d ≡ rejected)
      → due (record b { decision = d }) ≡ []
  due_decided b d (inl h) = rw h refl
  due_decided b d (inr h) = rw h refl

  due-executed :
      (b : Batch) (rs : List Execution)
      → due (record b { execution = rs; decision = outcome_of rs }) ≡ keep is_row_eligible b.rows
  due-executed b rs = by_outcome (all (λ (e : Execution). e.succeeded) rs)
    where
      by_outcome :
          (fine : Bool)
          → (if is_done (if fine then completed else partial)
              then keep is_row_eligible b.rows
              else [])
            ≡ keep is_row_eligible b.rows
      by_outcome true = refl
      by_outcome false = refl

  module _ (unique : (h g : String) (m n : ℕ) → D.of_batch h m ≡ D.of_batch g n → m ≡ n) where
    Sound-Step : (s t : Pilot) → Step D s t → Sound s → Sound t
    Sound-Step s t (quiet _ _ bs log more) h = record {
      numbered = λ id b f.
          later id s.preparation_revision t.preparation_revision more
            (h.numbered id b (sym (ap (find_batch id) bs) ∙ f));
      unlogged = λ id f. ap (rows_of id) log ∙ h.unlogged id (sym (ap (find_batch id) bs) ∙ f);
      settled = λ id b f.
          let (logged, kept) = h.settled id b (sym (ap (find_batch id) bs) ∙ f) in
          (ap (rows_of id) log ∙ logged, kept);
    }
    Sound-Step s t (freezes _ _ rows scope bs log rev) h =
        let key = batch_id D scope (s.preparation_revision + 1) in
        written s t key (frozen D rows scope) bs
          (D.of_scope scope, s.preparation_revision + 1, refl, omega (arith, rev))
          (omega (arith, rev))
          (ap (rows_of key) log ∙ h.unlogged key (fresh (find_batch key s.batches) refl), refl)
          (λ id differs. ap (rows_of id) log) h
      where
        fresh :
            (o : Option Batch)
            → find_batch (batch_id D scope (s.preparation_revision + 1)) s.batches ≡ o
            → find_batch (batch_id D scope (s.preparation_revision + 1)) s.batches ≡ none
        fresh none f = f
        fresh (some b) f =
            let (g, r, e, k) = h.numbered (batch_id D scope (s.preparation_revision + 1)) b f in
            let same : s.preparation_revision + 1 ≡ r =
              unique (D.of_scope scope) g (s.preparation_revision + 1) r e in
            absurd (omega (arith, same, k))
    Sound-Step s t (decides _ _ id b d there open_batch two bs log rev) h =
        written s t id (record b { decision = d }) bs
          (later id s.preparation_revision t.preparation_revision (omega (arith, rev))
            (h.numbered id b there))
          (omega (arith, rev))
          (
            ap (rows_of id) log
                ∙ (h.settled id b there).0
                ∙ due_pending b open_batch
                ∙ sym (due_decided b d two),
            (h.settled id b there).1 ∙ due_pending b open_batch ∙ sym (due_decided b d two),
          )
          (λ n differs. ap (rows_of n) log) h
    Sound-Step s t (executes _ _ id b failing there ready bs log rev) h =
        let handed : List (String × PreviewRow) =
          map (λ (r : PreviewRow). (id, r)) (keep is_row_eligible b.rows) in
        let results = (execute_rows id failing b.rows s.dispatched).0 in
        let logged : t.dispatched ≡ s.dispatched ++ handed =
          log ∙ execute_rows-logged id failing b.rows s.dispatched in
        written s t id (executed D id failing s.dispatched b) bs
          (later id s.preparation_revision t.preparation_revision (omega (arith, rev))
            (h.numbered id b there))
          (omega (arith, rev))
          (
            ap (rows_of id) logged
                ∙ rows_of-append id s.dispatched handed
                ∙ ap (λ xs. xs ++ rows_of id handed)
                    ((h.settled id b there).0 ∙ due_approved b ready)
                ∙ rows_of-mine id (keep is_row_eligible b.rows)
                ∙ sym (due-executed b results),
            execute_rows-recorded id failing b.rows s.dispatched ∙ sym (due-executed b results),
          )
          (λ n differs.
            ap (rows_of n) logged
            ∙ rows_of-append n s.dispatched handed
            ∙ ap (λ xs. rows_of n s.dispatched ++ xs)
                (rows_of-others n id (keep is_row_eligible b.rows) differs)
            ∙ append_nothing (rows_of n s.dispatched))
          h

    pub Sound-new : (s : Pilot) → s.batches ≡ [] → s.dispatched ≡ [] → Sound s
    Sound-new s bs log = record {
      numbered = λ id b f. absurd (nowhere id b (sym (ap (find_batch id) bs) ∙ f));
      unlogged = λ id f. ap (rows_of id) log;
      settled = λ id b f. absurd (nowhere id b (sym (ap (find_batch id) bs) ∙ f));
    }
      where
        nowhere : (id : String) (b : Batch) → ¬ (find_batch id [] ≡ some b)
        nowhere id b f = unfold find_batch in cc f

    pub Sound-run_operations :
        {C : Type 0} (R : Reader C) (os : List (Operation C)) (s : Pilot)
        → Sound s
        → Sound (run_operations D R os s)
    unfolding run_operations
    Sound-run_operations R [] s h = h
    Sound-run_operations R (o ∷ os) s h =
        Sound-run_operations R os (run_operation D R o s)
          (Sound-Step s (run_operation D R o s) (run_operation-Step D R o s) h)

    -- If no two revisions make one batch id: after any calls of a new pilot and changes of its
    -- evidence, the rows of a batch that were handed to an executor are its eligible rows, each
    -- once and in order, if it was carried out, and none in every other state; the results that the
    -- batch has are those of the same rows.
    pub dispatched-AreDue :
        {C : Type 0} (R : Reader C) (os : List (Operation C)) (store : List Row) (control : String)
        (strict : Option Bool) (id : String) (b : Batch)
        → find_batch id (run_operations D R os (new_pilot store control strict)).batches ≡ some b
        → (rows_of id (run_operations D R os (new_pilot store control strict)).dispatched ≡ due b)
          × (rows_recorded b ≡ due b)
    dispatched-AreDue R os store control strict id b f =
        (Sound-run_operations R os (new_pilot store control strict) (Sound-new _ refl refl)).settled
          id b f

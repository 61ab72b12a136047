-- ===== src/Pilot/Refinement.antt =====
-- compliance_agent_v1/csv_bulk_pilot.py: what a human sees of a frozen batch, and how it may change.
use aws_secops.Prelude.{
  Bool, Bool-cases, List, Option, String, all, ap, arith, false, if◌then◌else◌, inl, inr, refl,
  some, subst, sym, true, ℕ, ≟→eq, ◌+◌, ◌∙◌, ◌≟◌, ◌≡◌, ◌⊎◌,
}
use aws_secops.Scaled.Types.{Row}
use aws_secops.Pilot.Candidates.{Reader}
use aws_secops.Pilot.Types.{
  Pilot, Batch, BatchDecision, Digests, Execution, pending, approved, rejected, completed, partial,
}
use aws_secops.Pilot.Preview.{key}
use aws_secops.Pilot.Batches.{
  find_batch, put_batch, frozen, batch_id, executed, outcome_of, execute_rows,
}
use aws_secops.Pilot.Dict.{find-put, find-put_elsewhere}
use aws_secops.Pilot.Steps.{Step, quiet, freezes, decides, executes, run_operation-Step}
use aws_secops.Pilot.History.{Operation, run_operation, run_operations, new_pilot}
use aws_secops.Pilot.Sound.{Sound, Sound-run_operations, Sound-new}

-- The contract of a batch: it waits for a human, who approves or rejects it; what was approved is
-- carried out at one time, to the end or in part; all else is final.
pub data Move : BatchDecision → BatchDecision → Type 0 where
  idle : (d : BatchDecision) → Move d d
  approves : Move pending approved
  rejects : Move pending rejected
  completes : Move approved completed
  completes_partly : Move approved partial

-- A later state of the batch: the same rows under the same scope, and a move of the contract.
pub record Follows (b c : Batch) : Type 0 where
  pub rows : c.rows ≡ b.rows
  pub scope : c.scope ≡ b.scope
  pub scope_hash : c.scope_hash ≡ b.scope_hash
  pub move : Move b.decision c.decision

-- The batch is there, and follows the former one.
abbrev pub GoesOn : String → Batch → Pilot → Type 0
GoesOn id b t = (c : Batch) × (find_batch id t.batches ≡ some c) × Follows b c

Follows-same : (b : Batch) → Follows b b
Follows-same b = record { rows = refl; scope = refl; scope_hash = refl; move = idle b.decision }

decide_Move : (p d : BatchDecision) → p ≡ pending → (d ≡ approved) ⊎ (d ≡ rejected) → Move p d
decide_Move p d e (inl h) = subst (λ x. Move x d) (sym e) (subst (Move pending) (sym h) approves)
decide_Move p d e (inr h) = subst (λ x. Move x d) (sym e) (subst (Move pending) (sym h) rejects)

execute_Move : (p : BatchDecision) (rs : List Execution) → p ≡ approved → Move p (outcome_of rs)
execute_Move p rs e =
    subst (λ x. Move x (outcome_of rs)) (sym e)
      (by_outcome (all (λ (x : Execution). x.succeeded) rs))
  where
    by_outcome : (fine : Bool) → Move approved (if fine then completed else partial)
    by_outcome true = completes
    by_outcome false = completes_partly

-- One batch is written: the others stay.
written-GoesOn :
    (s t : Pilot) (key id : String) (b c : Batch)
    → t.batches ≡ put_batch key c s.batches
    → find_batch id s.batches ≡ some b
    → ((key ≟ id) ≡ true → Follows b c)
    → GoesOn id b t
written-GoesOn s t key id b c e f next = elim (Bool-cases (key ≟ id)) [
  | inl same ↦ (
    c,
    ap (find_batch id) e
        ∙ subst (λ n. find_batch n (put_batch key c s.batches) ≡ some c) (≟→eq key id same)
            (find-put key c s.batches),
    next same,
  )
  | inr differs ↦
      (b, ap (find_batch id) e ∙ find-put_elsewhere id key c s.batches differs ∙ f, Follows-same b)
]

found_twice :
    (s : Pilot) (key id : String) (b c : Batch)
    → find_batch key s.batches ≡ some c
    → find_batch id s.batches ≡ some b
    → (key ≟ id) ≡ true
    → b ≡ c
found_twice s key id b c g f same =
    let h = subst (λ n. find_batch n s.batches ≡ some c) (≟→eq key id same) g in cc (f, h)

module _ (D : Digests) where
  module _ (unique : (h g : String) (m n : ℕ) → D.of_batch h m ≡ D.of_batch g n → m ≡ n) where
    Step-GoesOn :
        (s t : Pilot) (id : String) (b : Batch)
        → Sound D s
        → find_batch id s.batches ≡ some b
        → Step D s t
        → GoesOn id b t
    Step-GoesOn s t id b h f (quiet _ _ bs log more) =
        (b, ap (find_batch id) bs ∙ f, Follows-same b)
    Step-GoesOn s t id b h f (freezes _ _ rows scope bs log rev) =
        written-GoesOn s t (batch_id D scope (s.preparation_revision + 1)) id b
          (frozen D rows scope) bs f
          λ same.
            let (g, r, e, k) = h.numbered id b f in
            let number : s.preparation_revision + 1 ≡ r =
              unique (D.of_scope scope) g (s.preparation_revision + 1) r
                (≟→eq (batch_id D scope (s.preparation_revision + 1)) id same ∙ e) in
            absurd (omega (arith, number, k))
    Step-GoesOn s t id b h f (decides _ _ key c d there open_batch two bs log rev) =
        written-GoesOn s t key id b (record c { decision = d }) bs f
          λ same.
            let is_c : b ≡ c = found_twice s key id b c there f same in
            subst (λ (x : Batch). Follows x (record c { decision = d })) (sym is_c)
              (record {
                rows = refl;
                scope = refl;
                scope_hash = refl;
                move = decide_Move c.decision d open_batch two;
              })
    Step-GoesOn s t id b h f (executes _ _ key c failing there ready bs log rev) =
        written-GoesOn s t key id b (executed D key failing s.dispatched c) bs f λ same.
          let is_c : b ≡ c = found_twice s key id b c there f same in
          subst (λ (x : Batch). Follows x (executed D key failing s.dispatched c)) (sym is_c)
            (record {
              rows = refl;
              scope = refl;
              scope_hash = refl;
              move = execute_Move c.decision (execute_rows key failing c.rows s.dispatched).0 ready;
            })

    -- If no two revisions make one batch id: whatever calls were made of a new pilot, the next call
    -- leaves each batch in place with its rows and its scope, and changes its decision only by a move
    -- of the contract.
    pub run_operation-Refines :
        {C : Type 0} (R : Reader C) (os : List (Operation C)) (o : Operation C) (store : List Row)
        (control : String) (strict : Option Bool) (id : String) (b : Batch)
        → find_batch id (run_operations D R os (new_pilot store control strict)).batches ≡ some b
        → GoesOn id b (run_operation D R o (run_operations D R os (new_pilot store control strict)))
    run_operation-Refines R os o store control strict id b f =
        let s = run_operations D R os (new_pilot store control strict) in
        Step-GoesOn s (run_operation D R o s) id b
          (Sound-run_operations D unique R os (new_pilot store control strict)
            (Sound-new D unique _ refl refl))
          f (run_operation-Step D R o s)

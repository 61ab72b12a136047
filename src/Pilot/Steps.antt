-- ===== src/Pilot/Steps.antt =====
-- compliance_agent_v1/csv_bulk_pilot.py: what a call does to the batches and to the log of dispatches.
use aws_secops.Prelude.{
  Bool, Bool-cases, List, Option, String, arith, false, inl, inr, none, refl, some, true, ◌+◌, ◌≟◌,
  ◌≡◌, ◌≤◌, ◌⊎◌, [], subst, sym, ◌∷◌,
}
use aws_secops.Effects.Keeps.{
  Keeps, Keeps-bind, Keeps-gets, Keeps-lift, Keeps-then, Keeps-raise_if, Keeps-pure,
}
use aws_secops.Scaled.Types.{Row}
use aws_secops.Pilot.Candidates.{parse_candidate_csv}
use aws_secops.Pilot.Selection.{Filter}
use aws_secops.Effects.{
  ◌>>=◌, ◌>>◌, Error, Outcome, gets, lift, modify, ok, raise_if, raised, Outcome-cases,
}
use aws_secops.Pilot.Candidates.{Reader}
use aws_secops.Pilot.Types.{
  Pilot, Batch, BatchDecision, Scope, PreviewRow, Digests, pending, approved, rejected, is_pending,
  is_approved,
}
use aws_secops.Pilot.Batches.{
  M, find_batch, put_batch, set_batch, get_batch, has_scope, frozen, batch_id, freeze_at,
  freeze_preview, preview, decide, decided, Native, executed, log_dispatched, execute_approved,
  compact_result, approve, reject, other_word, is_changed, nothing_eligible,
}
use aws_secops.Pilot.Selection.{add, remove, select_all, add_each, preview_selection}
use aws_secops.Pilot.History.{
  Operation, run_operation, preview_call, decide_call, execute_call, add_call, remove_call,
  select_all_call, preview_selection_call, new_evidence,
}

module _ (D : Digests) where
  pub data Step : Pilot → Pilot → Type 0 where
    quiet :
        (s t : Pilot)
        → t.batches ≡ s.batches
        → t.dispatched ≡ s.dispatched
        → s.preparation_revision ≤ t.preparation_revision
        → Step s t
    freezes :
        (s t : Pilot) (rows : List PreviewRow) (scope : Scope)
        → t.batches
          ≡ put_batch
              (batch_id D scope (s.preparation_revision + 1))
              (frozen D rows scope)
              s.batches
        → t.dispatched ≡ s.dispatched
        → t.preparation_revision ≡ s.preparation_revision + 1
        → Step s t
    decides :
        (s t : Pilot) (id : String) (b : Batch) (d : BatchDecision)
        → find_batch id s.batches ≡ some b
        → b.decision ≡ pending
        → (d ≡ approved) ⊎ (d ≡ rejected)
        → t.batches ≡ put_batch id (record b { decision = d }) s.batches
        → t.dispatched ≡ s.dispatched
        → t.preparation_revision ≡ s.preparation_revision
        → Step s t
    executes :
        (s t : Pilot) (id : String) (b : Batch) (failing : List String)
        → find_batch id s.batches ≡ some b
        → b.decision ≡ approved
        → t.batches ≡ put_batch id (executed D id failing s.dispatched b) s.batches
        → t.dispatched ≡ (log_dispatched D id failing b s).dispatched
        → t.preparation_revision ≡ s.preparation_revision
        → Step s t

  stays : (s : Pilot) → Step s s
  stays s = quiet s s refl refl (omega arith)

  guard-Step :
      {A : Type 0} (c : Bool) (e : Error) (n : M A) (s : Pilot)
      → (c ≡ false → Step s (n s).1)
      → Step s ((raise_if c e >> n) s).1
  unfolding ◌>>=◌
  guard-Step true e n s h = stays s
  guard-Step false e n s h = h refl

  lift-Step :
      {A B : Type 0} (r : Outcome A) (f : A → M B) (s : Pilot)
      → ((a : A) → r ≡ ok a → Step s (f a s).1)
      → Step s ((lift r >>= f) s).1
  unfolding ◌>>=◌
  lift-Step (ok a) f s h = h a refl
  lift-Step (raised e) f s h = stays s

  gets-Step :
      {A B : Type 0} (g : Pilot → A) (f : A → M B) (s : Pilot)
      → Step s (f (g s) s).1
      → Step s ((gets g >>= f) s).1
  unfolding ◌>>=◌
  gets-Step g f s h = h

  has_scope-found :
      (hash : String) (o : Option Batch) (b : Batch) → has_scope hash o ≡ ok b → o ≡ some b
  has_scope-found hash none b e = absurd (cc e)
  has_scope-found hash (some c) b e = elim (Bool-cases (c.scope_hash ≟ hash)) [
    | inl same ↦ ground arith
    | inr differs ↦ absurd (ground arith)
  ]

  get_batch-Step :
      {A : Type 0} (id hash : String) (f : Batch → M A) (s : Pilot)
      → ((b : Batch) → find_batch id s.batches ≡ some b → Step s (f b s).1)
      → Step s ((get_batch id hash >>= f) s).1
  unfolding get_batch ◌>>=◌
  get_batch-Step id hash f s h =
      lift-Step (has_scope hash (find_batch id s.batches)) f s
        λ b e. h b (has_scope-found hash (find_batch id s.batches) b e)

  compact_result-same : (id hash : String) (s : Pilot) → (compact_result D id hash s).1 ≡ s
  unfolding compact_result get_batch ◌>>=◌
  compact_result-same id hash s = elim (Outcome-cases (has_scope hash (find_batch id s.batches))) [
    | inl (b, e) ↦ rw e refl
    | inr (x, e) ↦ rw e refl
  ]

  shown_after :
      (id hash : String) (g : Pilot → Pilot) (s : Pilot)
      → Step s (g s)
      → Step s ((modify g >> compact_result D id hash) s).1
  unfolding ◌>>=◌
  shown_after id hash g s h = subst (Step s) (sym (compact_result-same id hash (g s))) h

  pending_only : (d : BatchDecision) → is_pending d ≡ true → d ≡ pending
  pending_only pending h = refl
  pending_only approved h = absurd (cc h)
  pending_only rejected h = absurd (cc h)
  pending_only BatchDecision.completed h = absurd (cc h)
  pending_only BatchDecision.partial h = absurd (cc h)

  approved_only : (d : BatchDecision) → is_approved d ≡ true → d ≡ approved
  approved_only pending h = absurd (cc h)
  approved_only approved h = refl
  approved_only rejected h = absurd (cc h)
  approved_only BatchDecision.completed h = absurd (cc h)
  approved_only BatchDecision.partial h = absurd (cc h)

  decided_two :
      (n : Native) (d : BatchDecision) → decided n ≡ ok d → (d ≡ approved) ⊎ (d ≡ rejected)
  decided_two approve d e = inl (cc e)
  decided_two reject d e = inr (cc e)
  decided_two other_word d e = absurd (cc e)

  decide-Step :
      (id hash : String) (native : Native) (s : Pilot) → Step s (decide D id hash native s).1
  unfolding decide
  decide-Step id hash native s = get_batch-Step id hash _ s λ b there.
      guard-Step _ _ _ s λ open_batch. gets-Step (is_changed D b) _ s (
        guard-Step _ _ _ s λ same. lift-Step (decided native) _ s λ d e.
          shown_after id hash (set_batch id (record b { decision = d })) s (
            decides s _ id b d there (pending_only b.decision (ground arith))
              (decided_two native d e) refl refl refl))

  execute-Step :
      (id hash : String) (failing : List String) (s : Pilot)
      → Step s (execute_approved D id hash failing s).1
  unfolding execute_approved
  execute-Step id hash failing s = get_batch-Step id hash _ s λ b there.
      guard-Step _ _ _ s λ open_batch. guard-Step _ _ _ s λ is_approved_batch.
        gets-Step (is_changed D b) _ s (
          guard-Step _ _ _ s λ same.
            shown_after id hash
              (λ t.
                set_batch id (executed D id failing t.dispatched b)
                  (log_dispatched D id failing b t))
              s
              (executes s _ id b failing there (approved_only b.decision (ground arith)) refl refl
                refl))

  freeze_at-Step :
      (b : Bool) (rows : List PreviewRow) (scope : Scope) (s : Pilot)
      → let t : Pilot = record s { preparation_revision = s.preparation_revision + 1 } in
        Step s
          (freeze_at D b (batch_id D scope (s.preparation_revision + 1)) (frozen D rows scope) t).1
  unfolding ◌>>=◌
  freeze_at-Step true rows scope s = quiet s _ refl refl (omega arith)
  freeze_at-Step false rows scope s = freezes s _ rows scope refl refl refl

  freeze-Step : (made : List PreviewRow × Scope) (s : Pilot) → Step s (freeze_preview D made s).1
  unfolding freeze_preview ◌>>=◌
  freeze-Step (rows, scope) s = freeze_at-Step (nothing_eligible D scope.eligible) rows scope s

  preview-Step :
      {C : Type 0} (R : Reader C) (content : C) (s : Pilot) → Step s (preview D R content s).1
  unfolding preview
  preview-Step R content s =
      lift-Step (parse_candidate_csv R content) _ s
        λ candidates e. gets-Step _ _ s (freeze-Step _ s)

  preview_selection-Step : (s : Pilot) → Step s (preview_selection D s).1
  unfolding preview_selection
  preview_selection-Step s = gets-Step _ _ s (freeze-Step _ s)

  -- The batches and the log are those of `s`.
  record IsQuiet (s t : Pilot) : Type 0 where
    batches : t.batches ≡ s.batches
    dispatched : t.dispatched ≡ s.dispatched
    revision : t.preparation_revision ≡ s.preparation_revision

  select-IsQuiet :
      (s : Pilot) (g : Pilot → List (String × Row))
      → Keeps (IsQuiet s) (modify (λ t. record t { selection = g t }))
  unfolding ◌>>=◌
  select-IsQuiet s g = record {
    at = λ t h. record { batches = h.batches; dispatched = h.dispatched; revision = h.revision };
  }

  add-IsQuiet : (s : Pilot) (id : String) → Keeps (IsQuiet s) (add D id)
  unfolding add
  add-IsQuiet s id =
      Keeps-bind (Keeps-gets _)
        λ row. Keeps-bind (Keeps-lift row) λ r. Keeps-then (select-IsQuiet s _) (Keeps-gets _)

  remove-IsQuiet : (s : Pilot) (id : String) → Keeps (IsQuiet s) (remove D id)
  unfolding remove
  remove-IsQuiet s id =
      Keeps-bind (Keeps-gets _)
        λ there. Keeps-then (Keeps-raise_if _ _) (Keeps-then (select-IsQuiet s _) (Keeps-gets _))

  add_each-IsQuiet : (s : Pilot) (ids : List String) → Keeps (IsQuiet s) (add_each D ids)
  unfolding add_each
  add_each-IsQuiet s [] = Keeps-pure tt
  add_each-IsQuiet s (id ∷ ids) = Keeps-then (add-IsQuiet s id) (add_each-IsQuiet s ids)

  select_all-IsQuiet : (s : Pilot) (f : Filter) → Keeps (IsQuiet s) (select_all D f)
  unfolding select_all
  select_all-IsQuiet s f = Keeps-bind (Keeps-gets _) λ matched.
      Keeps-bind (Keeps-lift matched)
        λ ids. Keeps-then (Keeps-raise_if _ _) (Keeps-then (add_each-IsQuiet s ids) (Keeps-gets _))

  quiet-Step : {A : Type 0} (m : M A) (s : Pilot) → Keeps (IsQuiet s) m → Step s (m s).1
  quiet-Step m s k =
      let h = k.at s (record { batches = refl; dispatched = refl; revision = refl }) in
      quiet s _ h.batches h.dispatched (omega (arith, h.revision))

  -- Each call is one step.
  pub run_operation-Step :
      {C : Type 0} (R : Reader C) (o : Operation C) (s : Pilot) → Step s (run_operation D R o s)
  unfolding run_operation
  run_operation-Step R (preview_call content) s = preview-Step R content s
  run_operation-Step R (decide_call id hash native) s = decide-Step id hash native s
  run_operation-Step R (execute_call id hash failing) s = execute-Step id hash failing s
  run_operation-Step R (add_call id) s = quiet-Step _ s (add-IsQuiet s id)
  run_operation-Step R (remove_call id) s = quiet-Step _ s (remove-IsQuiet s id)
  run_operation-Step R (select_all_call f) s = quiet-Step _ s (select_all-IsQuiet s f)
  run_operation-Step R preview_selection_call s = preview_selection-Step s
  run_operation-Step R (new_evidence rows) s = quiet s _ refl refl (omega arith)

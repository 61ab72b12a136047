-- ===== src/Bulk/Bounds.antt =====
-- pilot_v1/bulk.py: the number of approved items through the methods of the worker.
use aws_secops.Bulk.Run.{steps}
use aws_secops.Bulk.Decisions.{save-current}
use aws_secops.Bulk.Types.{Batch, Item, Platform, Resource, approved}
use aws_secops.Bulk.Preserves.{loaded-cases, require-cases}
use aws_secops.Bulk.Reports.{named, summary}
use aws_secops.Bulk.Counting.{approvals, approvals_of, count-update_item}
use aws_secops.Bulk.Store.{BulkStore, assign, has_state, save, with_items}
use aws_secops.Effects.Keeps.{
  Keeps, Keeps-bind, Keeps-pure, Keeps-raise, Keeps-raise_if, Keeps-then,
}
use aws_secops.Bulk.Worker.{
  Claim, Update, apply_update, claim, claim_checked, claim_first, claim_item, claimed, commit,
  finish, perform, rewrite_item, step, update_item, after_claim,
}
use aws_secops.Bulk.Stable.{current-perform, is_claimable, perform-not_claimable, summary-state}
use aws_secops.Prelude.{
  Option, String, ap, arith, count, false, find, inl, inr, none, refl, some, suc, sym, zero, ℕ, ◌≡◌,
  ◌≤◌,
}
use aws_secops.Effects.{◌>>=◌, ◌>>◌}

-- The approved items are at most `bound`.
module _ {W J : Type 0} (P : Platform W J) (bound : ℕ) where
  abbrev Bounded : BulkStore W J → Type 0
  Bounded s = approvals s ≤ bound

  assign-Bounded :
      (d : Batch) → count (has_state approved) d.items ≤ bound → Keeps Bounded (assign P d)
  unfolding assign ◌>>=◌
  assign-Bounded d q = record { at = λ s h. q }

  save-Bounded : (d : Batch) → Keeps Bounded (save P d)
  save-Bounded d = record { at = λ s h. rw (ap approvals_of (save-current P d s)) h }

  store-Bounded :
      (d : Batch)
      → count (has_state approved) d.items ≤ bound
      → Keeps Bounded (assign P d >> save P d)
  store-Bounded d q = Keeps-then (assign-Bounded d q) (save-Bounded d)

  claim_item-Bounded :
      (d : Batch) (i : Item) (o : Option Resource)
      → count (has_state approved) d.items ≤ bound
      → Keeps Bounded (claim_item P d i o)
  unfolding claim_item
  claim_item-Bounded d i none q = Keeps-raise _
  claim_item-Bounded d i (some r) q =
      let fewer = count-update_item claimed (λ j. refl) i.resource d.items in
      Keeps-then
        (assign-Bounded (with_items d (update_item i.resource claimed d.items)) (omega arith))
        (Keeps-then (save-Bounded (with_items d (update_item i.resource claimed d.items)))
          (Keeps-pure _))

  claim_first-Bounded :
      (d : Batch) (o : Option Item)
      → count (has_state approved) d.items ≤ bound
      → Keeps Bounded (claim_first P d o)
  unfolding claim_first
  claim_first-Bounded d none q = Keeps-pure _
  claim_first-Bounded d (some i) q =
      claim_item-Bounded d i (find (named i.resource) d.manifest.resources) q

  claim_checked-Bounded :
      (d : Batch) → count (has_state approved) d.items ≤ bound → Keeps Bounded (claim_checked P d)
  unfolding claim_checked
  claim_checked-Bounded d q = Keeps-then (Keeps-raise_if _ _) (
      Keeps-then (Keeps-raise_if _ _) (claim_first-Bounded d (find (has_state approved) d.items) q))

  claim-Bounded : (id : String) → Keeps Bounded (claim P id)
  unfolding claim ◌>>=◌
  claim-Bounded id = record {
    at = λ s h. elim (require-cases P id s) [
      | inl (e, r) ↦ rw r h
      | inr (d, at, _, _, r) ↦
          let q : count (has_state approved) d.items ≤ bound = rw (sym (ap approvals_of at)) h in
          rw r ((claim_checked-Bounded d q).at s h)
    ];
  }

  commit-Bounded :
      (c : Claim) (u : Update) → is_claimable u.state ≡ false → Keeps Bounded (commit P c u)
  unfolding commit rewrite_item ◌>>=◌
  commit-Bounded c u k = record {
    at = λ s h. elim (loaded-cases P s) [
      | inl (e, r) ↦ rw r h
      | inr (d, at, r) ↦
          let q : count (has_state approved) d.items ≤ bound = rw (sym (ap approvals_of at)) h in
          let fewer = count-update_item (apply_update u) (λ j. ground (arith, k)) c.name d.items in
          rw r (
            (store-Bounded (with_items d (update_item c.name (apply_update u) d.items))
                (omega arith)).at
              s h)
    ];
  }

  finish-Bounded : (c : Claim) → Keeps Bounded (finish P c)
  unfolding finish
  finish-Bounded c = record {
    at = λ s h.
        (commit-Bounded c (perform P c s).0 (perform-not_claimable P c s)).at (perform P c s).1
          (rw (ap approvals_of (current-perform P c s)) h);
  }

  summary-Bounded : Keeps Bounded (summary P)
  summary-Bounded = record { at = λ s h. rw (summary-state P s) h }

  pub after_claim-Bounded : (o : Option Claim) → Keeps Bounded (after_claim P o)
  after_claim-Bounded none = summary-Bounded
  after_claim-Bounded (some c) = Keeps-then (finish-Bounded c) summary-Bounded

  pub step-Bounded : (id : String) → Keeps Bounded (step P id)
  unfolding step
  step-Bounded id = Keeps-bind (claim-Bounded id) after_claim-Bounded

  pub steps-Bounded : (id : String) (n : ℕ) → Keeps Bounded (steps P id n)
  unfolding steps
  steps-Bounded id zero = record { at = λ s h. h }
  steps-Bounded id (suc n) = record {
    at = λ s h. (steps-Bounded id n).at (step P id s).1 ((step-Bounded id).at s h);
  }

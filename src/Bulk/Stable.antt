-- ===== src/Bulk/Stable.antt =====
-- pilot_v1/bulk.py: the changes that the methods make to items, as a class of functions.
use aws_secops.Prelude.{
  subst, ◌≡◌, refl, ◌∙◌, sym, String, Bool, true, false, some, List, [], ◌∷◌, map, arith,
}
use aws_secops.Effects.{◌>>=◌}
use aws_secops.Effects.Keeps.{
  Keeps, Keeps-if, Keeps-pure, Keeps-raise, Keeps-raise_when, Keeps-then,
}
use aws_secops.Bulk.Types.{
  State, pending, approved, Item, Batch, Reply, Platform, Bpa, Reply, returned, policy_denied,
  call_failed,
}
use aws_secops.Bulk.Store.{BulkStore, with_items, expire, fail_unclaimed, read, Dispatch}
use aws_secops.Bulk.Reports.{summary}
use aws_secops.Bulk.Lifecycle.{interrupt}
use aws_secops.Bulk.Worker.{
  Update, Claim, apply_update, at_name, rewrite_item, update_item, claimed, perform, dispatch,
  readback, commit, abandon,
}
use aws_secops.Bulk.Run.{
  wind_up, reconcile, reconcile_item, reconcile_items, reconciled, unavailable, reconcile_change,
}
use aws_secops.Bulk.Preserves.{
  Holds, assign-Holds, save-Holds, loaded-Holds, require-Holds, store-Holds,
}

-- What a later `step` may still pick, or a decision may make it pick.
abbrev pub is_claimable : State → Bool
is_claimable pending = true
is_claimable approved = true
is_claimable _ = false

-- A change of an item that keeps its resource and makes nothing claimable.
pub record Settles (f : Item → Item) : Type 0 where
  pub same_resource : (i : Item) → (f i).resource ≡ i.resource
  pub no_revival : (i : Item) → is_claimable i.state ≡ false → is_claimable (f i).state ≡ false

pub expire-Settles : Settles expire
expire-Settles = record { same_resource = λ i. ground arith; no_revival = λ i h. ground arith }

pub interrupt-Settles : Settles interrupt
interrupt-Settles = record { same_resource = λ i. ground arith; no_revival = λ i h. ground arith }

pub claimed-Settles : Settles claimed
claimed-Settles = record { same_resource = λ i. refl; no_revival = λ i h. refl }

pub apply_update-Settles : (u : Update) → is_claimable u.state ≡ false → Settles (apply_update u)
apply_update-Settles u k = record { same_resource = λ i. refl; no_revival = λ i h. k }

pub reconciled-Settles : (now : String) (b : Bpa) → Settles (reconciled now b)
reconciled-Settles now b = record { same_resource = λ i. refl; no_revival = λ i h. ground arith }

pub unavailable-Settles : Settles unavailable
unavailable-Settles = record { same_resource = λ i. refl; no_revival = λ i h. h }

pub at_name-Settles : (n : String) (f : Item → Item) → Settles f → Settles (at_name n f)
at_name-Settles n f k = record {
  same_resource = λ i. ground (arith, k.same_resource i);
  no_revival = λ i h. ground (arith, k.no_revival i);
}

pub reconcile_change-Settles : (now : String) (r : Reply Bpa) → Settles (reconcile_change now r)
reconcile_change-Settles now (returned b) = reconciled-Settles now b
reconcile_change-Settles now policy_denied = unavailable-Settles
reconcile_change-Settles now call_failed = unavailable-Settles

-- Reads leave the batch and the journal alone.
module _ {W J : Type 0} (P : Platform W J) where
  pub summary-state : (s : BulkStore W J) → (summary P s).1 ≡ s
  unfolding summary ◌>>=◌
  summary-state s = ground arith

  pub current-perform : (c : Claim) (s : BulkStore W J) → (perform P c s).1.current ≡ s.current
  unfolding perform dispatch readback read
  current-perform c s = ground arith

  pub journal-perform : (c : Claim) (s : BulkStore W J) → (perform P c s).1.journal ≡ s.journal
  unfolding perform dispatch readback read
  journal-perform c s = ground arith

  -- The outcome of the provider calls never makes the item claimable again.
  pub perform-not_claimable :
      (c : Claim) (s : BulkStore W J) → is_claimable (perform P c s).0.state ≡ false
  unfolding perform dispatch readback read
  perform-not_claimable c s = ground arith

module _ {W J : Type 0} (P : Platform W J) (law : (d : Batch) → P.decode (P.encode d) ≡ some d)
    (Q : Batch → Type 0)
    (stable : (f : Item → Item) → Settles f → (d : Batch) → Q d → Q (with_items d (map f d.items)))
    {L : List Dispatch} where
  pub summary-Holds : Keeps (Holds P Q L) (summary P)
  summary-Holds = record { at = λ s h. subst (Holds P Q L) (sym (summary-state P s)) h }

  pub perform-Holds :
      (c : Claim) (s : BulkStore W J)
      → Holds P Q L s
      → Holds P Q (perform P c s).1.dispatches (perform P c s).1
  perform-Holds c s h = record {
    in_memory = λ d e. h.in_memory d (sym (current-perform P c s) ∙ e);
    in_journal = λ b d e. h.in_journal b d (sym (journal-perform P c s) ∙ e);
    log = refl;
  }

  pub rewrite_item-Holds :
      (name : String) (f : Item → Item) → Settles f → Keeps (Holds P Q L) (rewrite_item P name f)
  unfolding rewrite_item
  rewrite_item-Holds name f k = loaded-Holds P law Q _ λ d q.
      store-Holds P law Q (with_items d (update_item name f d.items))
        (stable (at_name name f) (at_name-Settles name f k) d q)

  pub commit-Holds :
      (c : Claim) (u : Update) → is_claimable u.state ≡ false → Keeps (Holds P Q L) (commit P c u)
  unfolding commit
  commit-Holds c u k = rewrite_item-Holds c.name (apply_update u) (apply_update-Settles u k)

  pub wind_up-Holds : Keeps (Holds P Q L) (wind_up P)
  unfolding wind_up fail_unclaimed
  wind_up-Holds = loaded-Holds P law Q _ λ d q.
      Keeps-then
        (assign-Holds P law Q (with_items d (map expire d.items))
          (stable expire expire-Settles d q))
        (Keeps-if _ _ _
          (λ _.
            save-Holds P law Q (with_items d (map expire d.items))
              (stable expire expire-Settles d q))
          (λ _. Keeps-pure _))

  pub abandon-Holds : Keeps (Holds P Q L) (abandon P)
  unfolding abandon fail_unclaimed
  abandon-Holds = loaded-Holds P law Q _ λ d q.
      Keeps-then
        (assign-Holds P law Q (with_items d (map expire d.items))
          (stable expire expire-Settles d q))
        (Keeps-then
          (save-Holds P law Q (with_items d (map expire d.items))
            (stable expire expire-Settles d q))
          (Keeps-raise _))

  reconcile_item-Holds : (name : String) → Keeps (Holds P Q L) (reconcile_item P name)
  unfolding reconcile_item read
  reconcile_item-Holds name = record {
    at = λ s h.
        let (r, s') = read P name s in
        let k = reconcile_change-Settles (P.now s'.world) r in
        (rewrite_item-Holds name (reconcile_change (P.now s'.world) r) k).at s'
          (record { in_memory = h.in_memory; in_journal = h.in_journal; log = h.log });
  }

  reconcile_items-Holds : (items : List Item) → Keeps (Holds P Q L) (reconcile_items P items)
  unfolding reconcile_items
  reconcile_items-Holds [] = Keeps-pure _
  reconcile_items-Holds (i ∷ is) =
      Keeps-if _ _ _ (λ _. Keeps-then (reconcile_item-Holds i.resource) (reconcile_items-Holds is))
        (λ _. reconcile_items-Holds is)

  pub reconcile-Holds : (id : String) → Keeps (Holds P Q L) (reconcile P id)
  unfolding reconcile
  reconcile-Holds id = require-Holds P law Q id _ λ d q.
      Keeps-then (Keeps-raise_when _ _) (Keeps-then (reconcile_items-Holds d.items) summary-Holds)

-- ===== src/Bulk/Counting.antt =====
-- pilot_v1/bulk.py: the number of approved items, before and after a claim.
use aws_secops.Bulk.Claims.{claim-Backed, require-returns}
use aws_secops.Effects.{bind-returns, guard-returns, ok, ◌>>=◌}
use aws_secops.Bulk.Reports.{named}
use aws_secops.Bulk.Store.{BulkStore, has_state, assign, require, save, write_journal}
use aws_secops.Bulk.Types.{Batch, Item, approved, Platform, Resource, unknown}
use aws_secops.Prelude.{
  List, Option, String, [], arith, count, false, find, none, refl, some, ℕ, ≟_refl, ◌<◌, ◌∷◌, ◌≡◌,
  ◌≤◌, any, ap, not, ◌∙◌,
}
use aws_secops.Bulk.Worker.{
  claimed, update_item, Claim, claim, claim_checked, claim_first, claim_item, is_approve,
}

module _ (f : Item → Item) (k : (i : Item) → has_state approved (f i) ≡ false) where
  pub count-update_item :
      (name : String) (items : List Item)
      → count (has_state approved) (update_item name f items) ≤ count (has_state approved) items
  count-update_item name [] = omega arith
  count-update_item name (i ∷ is) = ground (arith, count-update_item name is, k i)

count-claimed :
    (items : List Item) (i : Item)
    → find (has_state approved) items ≡ some i
    → count (has_state approved) (update_item i.resource claimed items)
      < count (has_state approved) items
count-claimed [] i e = absurd (cc e)
count-claimed (x ∷ xs) i e =
    let rest = count-update_item claimed (λ j. refl) i.resource xs in
    let same = ≟_refl i.resource in ground (arith, count-claimed xs i)

find-none :
    (items : List Item)
    → find (has_state approved) items ≡ none
    → count (has_state approved) items ≡ 0
find-none [] e = refl
find-none (i ∷ is) e = ground (arith, find-none is)

abbrev pub approvals_of : Option Batch → ℕ
approvals_of none = 0
approvals_of (some d) = count (has_state approved) d.items

-- The items of the batch in memory that are still to be claimed.
abbrev pub approvals : {W J : Type 0} → BulkStore W J → ℕ
approvals s = approvals_of s.current

module _ {W J : Type 0} (P : Platform W J) where
  -- Of a batch that a claim has read: some item of it was there to claim.
  pub claim-fewer :
      (id : String) (c : Claim) (s t : BulkStore W J)
      → claim P id s ≡ (ok (some c), t)
      → approvals t < approvals s
  claim-fewer id c s t e =
      let b = claim-Backed P id c s t e in
      let fewer = count-claimed b.batch.items b.item b.first_approved in
      rw (ap approvals_of b.in_memory) (rw (ap approvals_of b.loaded_batch) fewer)

  claim_item-some :
      (d : Batch) (i : Item) (o : Option Resource) (s t : BulkStore W J)
      → ¬ (claim_item P d i o s ≡ (ok none, t))
  unfolding claim_item save write_journal assign ◌>>=◌
  claim_item-some d i none s t e = cc e
  claim_item-some d i (some r) s t e = ground arith

  claim_first-none :
      (d : Batch) (o : Option Item) (s t : BulkStore W J)
      → claim_first P d o s ≡ (ok none, t)
      → o ≡ none
  unfolding claim_first
  claim_first-none d none s t e = refl
  claim_first-none d (some i) s t e =
      absurd (claim_item-some d i (find (named i.resource) d.manifest.resources) s t e)

  pub claim-none :
      (id : String) (s t : BulkStore W J) → claim P id s ≡ (ok none, t) → approvals s ≡ 0
  unfolding claim claim_checked
  claim-none id s t e =
      let (d, u, e1, rest1) = bind-returns (require P id) (claim_checked P) s none t e in
      let (same, at, valid) = require-returns P id d s u e1 in
      let (g1, rest2) = guard-returns (not (is_approve d.decision)) _ _ u none t rest1 in
      let (g2, rest3) = guard-returns (any (has_state unknown) d.items) _ _ u none t rest2 in
      ap approvals_of at
      ∙ find-none d.items (claim_first-none d (find (has_state approved) d.items) u t rest3)

-- ===== src/Bulk/Recovery.antt =====
-- pilot_v1/bulk.py: the items after the recovery in `__init__`.
use aws_secops.Bulk.Lifecycle.{interrupt, recover}
use aws_secops.Bulk.Store.{expire, fail_unclaimed}
use aws_secops.Prelude.{Each, List, Option, false, map, none, refl, some, ◌≡◌, Bool, [], ◌∷◌}
use aws_secops.Bulk.Types.{
  Batch, Item, Platform, State, approved, failed, running, unknown, pending, completed, skipped,
  denied, Bpa,
}

-- The item with another state, what was read of it, and a message.
abbrev BecomesState : State → Option Bool → Option Bpa → Item → Item → Type 0
BecomesState st changed after i j =
    (j.state ≡ st)
    × (j.changed ≡ changed)
    × (j.after ≡ after)
    × (j.id ≡ i.id)
    × (j.resource ≡ i.resource)
    × (j.audit ≡ i.audit)
    × (j.verified_at ≡ i.verified_at)

-- What the recovery makes of an item that was in that state.
abbrev pub Recovers : State → Item → Item → Type 0
Recovers running i j = BecomesState unknown none i.after i j
Recovers approved i j = BecomesState failed (some false) none i j
Recovers pending i j = j ≡ i
Recovers completed i j = j ≡ i
Recovers skipped i j = j ≡ i
Recovers denied i j = j ≡ i
Recovers failed i j = j ≡ i
Recovers unknown i j = j ≡ i

item-Recovers : (st : State) (i : Item) → i.state ≡ st → Recovers st i (expire (interrupt i))
item-Recovers running i e = rw e (refl, refl, refl, refl, refl, refl, refl)
item-Recovers approved i e = rw e (refl, refl, refl, refl, refl, refl, refl)
item-Recovers pending i e = rw e refl
item-Recovers completed i e = rw e refl
item-Recovers skipped i e = rw e refl
item-Recovers denied i e = rw e refl
item-Recovers failed i e = rw e refl
item-Recovers unknown i e = rw e refl

items-Recovers :
    (items : List Item)
    → Each (λ (i j : Item). Recovers i.state i j) items (map expire (map interrupt items))
items-Recovers [] = tt
items-Recovers (i ∷ is) = (item-Recovers i.state i refl, items-Recovers is)

module _ {W J : Type 0} (P : Platform W J) where
  -- The recovery leaves one item for each item, in their order and with their ids and resources: a
  -- RUNNING one has become UNKNOWN with nothing known of a change, an APPROVED one FAILED without a
  -- change, and each other one is as it was; so are the batch's id, decision and manifest.
  pub recover_settles :
      (d : Batch)
      → let after = (recover P d).1 in
        Each (λ (i j : Item). Recovers i.state i j) d.items after.items
        × (after.id ≡ d.id)
        × (after.decision ≡ d.decision)
        × (after.manifest ≡ d.manifest)
  unfolding recover fail_unclaimed
  recover_settles d = (items-Recovers d.items, refl, refl, refl)

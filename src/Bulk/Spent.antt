-- ===== src/Bulk/Spent.antt =====
-- pilot_v1/bulk.py: a resource that can be claimed no more, and the calls made or owed for one.
use aws_secops.Bulk.Lifecycle.{is_undecided}
use aws_secops.Bulk.Store.{BulkStore, Dispatch, read, with_items}
use aws_secops.Prelude.{
  Bool, Bool-cases, List, String, [], all, all-map, arith, count, false, if◌then◌else◌, inl, inr,
  map, not, true, ℕ, ◌&&◌, ◌+◌, ◌∷◌, ◌≟◌, ◌≡◌, ◌≤◌,
}
use aws_secops.Bulk.Worker.{Claim, dispatch, perform, readback}
use aws_secops.Bulk.Interleaving.{Flight, System, claimed_item, commit_in, perform_in, performed}
use aws_secops.Bulk.Types.{Batch, Item, Platform}
use aws_secops.Bulk.Stable.{Settles, is_claimable}

-- The item is not of resource `n`, or nothing can claim it.
abbrev pub settled : String → Item → Bool
settled n i = not ((i.resource ≟ n) && is_claimable i.state)

abbrev pub Spent : String → Batch → Type 0
Spent n d = (is_undecided d.decision ≡ false) × (all (settled n) d.items ≡ true)

pub settled-Settles :
    (n : String) (f : Item → Item)
    → Settles f
    → (i : Item) → settled n i ≡ true
    → settled n (f i) ≡ true
settled-Settles n f k i h = ground (arith, k.same_resource i, k.no_revival i)

pub Spent-stable :
    (n : String) (f : Item → Item)
    → Settles f
    → (d : Batch) → Spent n d
    → Spent n (with_items d (map f d.items))
Spent-stable n f k d h = (h.0, all-map (settled n) f (settled-Settles n f k) d.items h.1)

-- The threads that have still to call the provider for `n`, and the calls made for it.
abbrev pub owed : String → List Flight → ℕ
owed n [] = 0
owed n (claimed_item c ∷ fs) = (if c.name ≟ n then 1 else 0) + owed n fs
owed n (performed c u ∷ fs) = owed n fs

abbrev pub dispatched : String → List Dispatch → ℕ
dispatched n xs = count (λ x. x.resource ≟ n) xs

abbrev pub total : {W J : Type 0} → String → System W J → ℕ
total n y = owed n y.flights + dispatched n y.store.dispatches

module _ {W J : Type 0} (P : Platform W J) where
  pub dispatched-perform :
      (n : String) (c : Claim) (s : BulkStore W J)
      → dispatched n (perform P c s).1.dispatches
        ≤ (if c.name ≟ n then 1 else 0) + dispatched n s.dispatches
  unfolding perform dispatch readback read
  dispatched-perform n c s = ground arith

  pub owed-perform_in :
      (n name : String) (fs : List Flight) (s : BulkStore W J)
      → owed n (perform_in P name fs s).0 + dispatched n (perform_in P name fs s).1.dispatches
        ≤ owed n fs + dispatched n s.dispatches
  unfolding perform_in
  owed-perform_in n name [] s = omega arith
  owed-perform_in n name (performed c u ∷ fs) s = owed-perform_in n name fs s
  owed-perform_in n name (claimed_item c ∷ fs) s = elim (Bool-cases (c.name ≟ name)) [
    | inl mine ↦ rw mine (omega (arith, dispatched-perform n c s))
    | inr other ↦ rw other (omega (arith, owed-perform_in n name fs s))
  ]

  pub owed-commit_in :
      (n name : String) (fs : List Flight) (s : BulkStore W J)
      → owed n (commit_in P name fs s).0 ≤ owed n fs
  unfolding commit_in
  owed-commit_in n name [] s = omega arith
  owed-commit_in n name (claimed_item c ∷ fs) s = omega (arith, owed-commit_in n name fs s)
  owed-commit_in n name (performed c u ∷ fs) s = elim (Bool-cases (c.name ≟ name)) [
    | inl mine ↦ rw mine (omega arith)
    | inr other ↦ rw other (owed-commit_in n name fs s)
  ]

-- ===== src/Bulk/Run.antt =====
-- pilot_v1/bulk.py: the worker thread `_run`, and `reconcile`. The rounds of `_run` take fuel. The
-- steps of one round are run in the order of their submission; Bulk/Interleaving.antt has them in
-- any order.
use aws_secops.Prelude.{
  ℕ, zero, suc, String, false, Option, none, some, List, [], ◌∷◌, any, count, min, ◌==◌, ◌||◌,
  if◌then◌else◌,
}
use aws_secops.Effects.{ok, raised, value_error, pure, ◌>>=◌, ◌>>◌, raise_when}
use aws_secops.Bulk.Types.{
  Reply, Bpa, target, same_bpa, approved, running, completed, failed, unknown, Item, returned,
  Platform,
}
use aws_secops.Bulk.Store.{
  BulkStore, M, assign, loaded, has_state, save, any_approved, fail_unclaimed, require, read,
}
use aws_secops.Bulk.Reports.{Summary, summary}
use aws_secops.Bulk.Worker.{rewrite_item, step}

-- How the loop of `_run` ends: by its `return`, by the exception that is swallowed, or by fuel.
pub data Ended : Type 0 where
  returned_early swallowed out_of_fuel : Ended

-- What `reconcile` writes to an UNKNOWN item after a read.
abbrev pub reconciled : String → Bpa → Item → Item
reconciled now after i =
    let met = same_bpa after target in
    record i {
      state = if met then completed else failed;
      after = some after;
      message = "Read-only reconciliation; effect attribution unknown; no retry";
      verified_at = if met then some now else none;
    }

abbrev pub unavailable : Item → Item
unavailable i = record i { message = "Reconciliation unavailable; remains UNKNOWN" }

-- What the loop of `reconcile` does to an item, by how its read ended.
abbrev pub reconcile_change : String → Reply Bpa → Item → Item
reconcile_change now (returned after) = reconciled now after
reconcile_change now _ = unavailable

module _ {W J : Type 0} (P : Platform W J) where
  -- `pool.submit(self.step)` n times, then `future.result()` of each: every submitted step runs,
  -- and the first exception is raised.
  unfoldable pub steps : String → ℕ → M P (Unit {0})
  steps batch_id zero s = (ok tt, s)
  steps batch_id (suc n) s =
      let (r, s') = step P batch_id s in
      let (rest, s'') = steps batch_id n s' in (elim r [ ok _ ↦ rest | raised e ↦ raised e ], s'')

  abbrev pub stop : Ended → BulkStore W J → Ended × BulkStore W J
  stop e s = (e, s)

  -- `while True`
  unfoldable pub rounds : ℕ → String → BulkStore W J → Ended × BulkStore W J
  rounds zero batch_id s = (out_of_fuel, s)
  rounds (suc fuel) batch_id s = elim s.current [
    | none ↦ (swallowed, s)
    | some d ↦
        if any (has_state unknown) d.items
        then (returned_early, s)
        else let round =
            steps batch_id (min (count (has_state approved) d.items) P.concurrency) s in
          let next : Ended × BulkStore W J = elim round.0 [
            | ok _ ↦ rounds fuel batch_id round.1
            | raised e ↦ (swallowed, round.1)
          ] in
          if count (has_state approved) d.items == 0 then (returned_early, s) else next
  ]

  -- The `finally` of `_run`
  unfoldable pub wind_up : M P (Unit {0})
  wind_up = do
    d ← loaded P
    assign P (fail_unclaimed P d).1
    if any_approved P d then save P (fail_unclaimed P d).1 else pure tt

  -- `_run`, after which the thread is dead
  unfoldable pub run : ℕ → String → BulkStore W J → Ended × BulkStore W J
  run fuel batch_id s =
      let (ended, s') = rounds fuel batch_id s in
      let (_, s'') = wind_up s' in (ended, record s'' { worker_alive = false })

  -- One UNKNOWN item: a read, the item's new fields, a `save` in either case.
  unfoldable pub reconcile_item : String → M P (Unit {0})
  reconcile_item name s =
      let (r, s') = read P name s in rewrite_item P name (reconcile_change (P.now s'.world) r) s'

  -- The loop over the items as they were at its start.
  unfoldable pub reconcile_items : List Item → M P (Unit {0})
  reconcile_items [] = pure tt
  reconcile_items (i ∷ is) =
      let rest = reconcile_items is in
      if has_state unknown i then reconcile_item i.resource >> rest else rest

  -- `reconcile`
  unfoldable pub reconcile : String → M P (Option Summary)
  reconcile batch_id = do
    d ← require P batch_id
    raise_when (λ s. s.worker_alive || any (has_state running) d.items)
        (value_error "execution active; wait before reconciliation")
    reconcile_items d.items
    summary P

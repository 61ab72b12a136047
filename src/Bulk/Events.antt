-- ===== src/Bulk/Events.antt =====
-- pilot_v1/bulk.py: a property of the batch through the events of a schedule.
use aws_secops.Effects.{Outcome, ok, raised}
use aws_secops.Bulk.Schedule.{claim-Holds, open_store-Holds}
use aws_secops.Bulk.Store.{with_items, BulkStore, Dispatch}
use aws_secops.Bulk.Worker.{authorized, start, start_by, start_worker, worker_started, Claim, claim}
use aws_secops.Bulk.Types.{Batch, Decision, Item, Platform, approve, reject, undecided}
use aws_secops.Bulk.Interleaving.{
  Flight, claimed_item, performed, Event, System, advance, claim_event, commit_event, commit_in,
  decide_event, perform_event, perform_in, reconcile_event, restart_event, start_event, take_off,
  wind_up_event,
}
use aws_secops.Bulk.Lifecycle.{decide, decide_batch, is_undecided}
use aws_secops.Bulk.Stable.{
  Settles, abandon-Holds, is_claimable, summary-Holds, commit-Holds, perform-Holds,
  perform-not_claimable, reconcile-Holds, wind_up-Holds,
}
use aws_secops.Bulk.Preserves.{Holds, assign-Holds, require-Holds, save-Holds}
use aws_secops.Prelude.{
  Bool, List, Option, String, [], arith, false, map, none, some, true, ◌∷◌, ◌≡◌, Bool-cases, inl,
  inr, ◌≟◌, refl,
}
use aws_secops.Effects.Keeps.{
  Keeps, Keeps-guard, Keeps-pure, Keeps-raise, Keeps-raise_if, Keeps-raise_when, Keeps-then,
}

-- The updates that wait for their commit make nothing claimable.
abbrev pub Harmless : List Flight → Type 0
Harmless [] = Unit
Harmless (claimed_item c ∷ fs) = Harmless fs
Harmless (performed c u ∷ fs) = (is_claimable u.state ≡ false) × Harmless fs

module _ {W J : Type 0} (P : Platform W J) (law : (d : Batch) → P.decode (P.encode d) ≡ some d)
    (Q : Batch → Type 0)
    (stable : (f : Item → Item) → Settles f → (d : Batch) → Q d → Q (with_items d (map f d.items)))
    (Allowed : Decision → Type 0)
    (deciding : (dec : Decision)
      → Allowed dec
      → (d : Batch) → is_undecided d.decision ≡ true
      → is_undecided dec ≡ false
      → Q d
      → Q (decide_batch dec d))
    {L : List Dispatch} where
  pub decide-Holds :
      (id hash : String) (dec : Decision) → Allowed dec → Keeps (Holds P Q L) (decide P id hash dec)
  unfolding decide
  decide-Holds id hash dec a = require-Holds P law Q id _ λ d q. Keeps-guard _ _ λ match.
      Keeps-guard _ _ λ open_batch.
        let q' = deciding dec a d (ground arith) (ground arith) q in
        Keeps-then (assign-Holds P law Q (decide_batch dec d) q')
          (Keeps-then (save-Holds P law Q (decide_batch dec d) q') (summary-Holds P law Q stable))

  authorized-Holds :
      (o : Option (String → W → Bool × W)) (id : String) → Keeps (Holds P Q L) (authorized P o id)
  unfolding authorized
  authorized-Holds none id = record { at = λ s h. h }
  authorized-Holds (some call) id = record {
    at = λ s h. record { in_memory = h.in_memory; in_journal = h.in_journal; log = h.log };
  }

  start_by-Holds :
      (id hash : String) (d : Batch) (x : Decision)
      → Allowed approve
      → Keeps (Holds P Q L) (start_by P id hash d x)
  unfolding start_by
  start_by-Holds id hash d undecided a =
      Keeps-then (authorized-Holds P.authorize id)
        (Keeps-then (decide-Holds id hash approve a) (Keeps-pure _))
  start_by-Holds id hash d approve a =
      Keeps-then (Keeps-raise_if _ _) (authorized-Holds P.authorize id)
  start_by-Holds id hash d reject a = Keeps-raise _

  worker_started-Holds : (b : Bool) → Keeps (Holds P Q L) (worker_started P b)
  worker_started-Holds true = record { at = λ s h. h }
  worker_started-Holds false = record { at = (abandon-Holds P law Q stable).at }

  start_worker-Holds : Keeps (Holds P Q L) (start_worker P)
  unfolding start_worker
  start_worker-Holds = record {
    at = λ s h.
        (worker_started-Holds (P.start_thread s.world).0).at _
          (record { in_memory = h.in_memory; in_journal = h.in_journal; log = h.log });
  }

  pub start-Holds : (id hash : String) → Allowed approve → Keeps (Holds P Q L) (start P id hash)
  unfolding start
  start-Holds id hash a = require-Holds P law Q id _ λ d q. Keeps-then (Keeps-raise_if _ _) (
      Keeps-then (Keeps-raise_when _ _) (
        Keeps-then (Keeps-raise_if _ _) (
          Keeps-then (start_by-Holds id hash d d.decision a)
            (Keeps-then start_worker-Holds (summary-Holds P law Q stable)))))

-- The dispatches after an event, those before it being `L`: only the provider calls of a thread
-- add to them.
abbrev pub log_after :
    {W J : Type 0} (P : Platform W J) → Event → System W J → List Dispatch → List Dispatch
log_after P (perform_event name) y L = (perform_in P name y.flights y.store).1.dispatches
log_after P _ y L = L

abbrev pub Permits : (Decision → Type 0) → Event → Type 0
Permits Allowed (decide_event id hash dec) = Allowed dec
Permits Allowed (start_event id hash) = Allowed approve
Permits Allowed _ = Unit

take_off-Harmless :
    {W J : Type 0} (P : Platform W J) (r : Outcome (Option Claim)) (fs : List Flight)
    → Harmless fs
    → Harmless (take_off P r fs)
take_off-Harmless P (ok (some c)) fs k = k
take_off-Harmless P (ok none) fs k = k
take_off-Harmless P (raised e) fs k = k

module _ {W J : Type 0} (P : Platform W J) (law : (d : Batch) → P.decode (P.encode d) ≡ some d)
    (Q : Batch → Type 0)
    (stable : (f : Item → Item) → Settles f → (d : Batch) → Q d → Q (with_items d (map f d.items)))
    (Allowed : Decision → Type 0)
    (deciding : (dec : Decision)
      → Allowed dec
      → (d : Batch) → is_undecided d.decision ≡ true
      → is_undecided dec ≡ false
      → Q d
      → Q (decide_batch dec d)) where
  perform_in-Holds :
      (name : String) (fs : List Flight) (s : BulkStore W J) {L : List Dispatch}
      → Harmless fs
      → Holds P Q L s
      → Harmless (perform_in P name fs s).0
        × Holds P Q (perform_in P name fs s).1.dispatches (perform_in P name fs s).1
  unfolding perform_in
  perform_in-Holds name [] s k h =
      (tt, record { in_memory = h.in_memory; in_journal = h.in_journal; log = refl })
  perform_in-Holds name (performed c u ∷ fs) s k h =
      let rest = perform_in-Holds name fs s k.1 h in ((k.0, rest.0), rest.1)
  perform_in-Holds name (claimed_item c ∷ fs) s k h = elim (Bool-cases (c.name ≟ name)) [
    | inl mine ↦ rw mine ((perform-not_claimable P c s, k), perform-Holds P law Q stable c s h)
    | inr other ↦ rw other (perform_in-Holds name fs s k h)
  ]

  commit_in-Holds :
      (name : String) (fs : List Flight) (s : BulkStore W J) {L : List Dispatch}
      → Harmless fs
      → Holds P Q L s
      → Harmless (commit_in P name fs s).0 × Holds P Q L (commit_in P name fs s).1
  unfolding commit_in
  commit_in-Holds name [] s k h = (tt, h)
  commit_in-Holds name (claimed_item c ∷ fs) s k h = commit_in-Holds name fs s k h
  commit_in-Holds name (performed c u ∷ fs) s k h = elim (Bool-cases (c.name ≟ name)) [
    | inl mine ↦ rw mine (k.1, (commit-Holds P law Q stable c u k.0).at s h)
    | inr other ↦ let rest = commit_in-Holds name fs s k.1 h in rw other ((k.0, rest.0), rest.1)
  ]

  pub advance-Holds :
      (e : Event) (y : System W J) {L : List Dispatch}
      → Permits Allowed e
      → Harmless y.flights
      → Holds P Q L y.store
      → Harmless (advance P e y).flights × Holds P Q (log_after P e y L) (advance P e y).store
  unfolding advance
  advance-Holds (decide_event id hash dec) y a k h =
      (k, (decide-Holds P law Q stable Allowed deciding id hash dec a).at y.store h)
  advance-Holds (start_event id hash) y a k h =
      (k, (start-Holds P law Q stable Allowed deciding id hash a).at y.store h)
  advance-Holds (claim_event id) y a k h = (
    take_off-Harmless P (claim P id y.store).0 y.flights k,
    (claim-Holds P law Q stable id).at y.store h,
  )
  advance-Holds (perform_event name) y a k h = perform_in-Holds name y.flights y.store k h
  advance-Holds (commit_event name) y a k h = commit_in-Holds name y.flights y.store k h
  advance-Holds wind_up_event y a k h = (k, (wind_up-Holds P law Q stable).at y.store h)
  advance-Holds (reconcile_event id) y a k h = (k, (reconcile-Holds P law Q stable id).at y.store h)
  advance-Holds restart_event y a k h = (tt, (open_store-Holds P law Q stable).at y.store h)

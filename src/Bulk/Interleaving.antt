-- ===== src/Bulk/Interleaving.antt =====
-- pilot_v1/bulk.py: the threads of `_run` and the callers of the store as an explicit schedule.
-- Each event is one section under the lock, or the provider calls of one claimed item, which run
-- with no lock held; any number of claims may be in flight. `restart` ends the process (its threads
-- with it) and opens the store again from the journal.
use aws_secops.Prelude.{String, Option, some, List, [], ◌∷◌, ◌≟◌, if◌then◌else◌, true}
use aws_secops.Effects.{Outcome, ok}
use aws_secops.Bulk.Types.{Decision, Platform}
use aws_secops.Bulk.Store.{BulkStore}
use aws_secops.Bulk.Lifecycle.{open_store, decide}
use aws_secops.Bulk.Worker.{Update, Claim, claim, perform, commit, start}
use aws_secops.Bulk.Run.{wind_up, reconcile}

-- A thread between its two sections: about to call the provider, or about to commit.
pub data Flight : Type 0 where
  claimed_item : Claim → Flight
  performed : Claim → Update → Flight

pub data Event : Type 0 where
  decide_event : String → String → Decision → Event
  start_event : String → String → Event
  claim_event : String → Event
  perform_event : String → Event
  commit_event : String → Event
  wind_up_event : Event
  reconcile_event : String → Event
  restart_event : Event

pub record System (W J : Type 0) : Type 0 where
  pub store : BulkStore W J
  pub flights : List Flight

module _ {W J : Type 0} (P : Platform W J) where
  -- The thread of that resource calls the provider, if it has still to do so.
  unfoldable pub perform_in : String → List Flight → BulkStore W J → List Flight × BulkStore W J
  perform_in name [] s = ([], s)
  perform_in name (performed c u ∷ fs) s =
      let (fs', s') = perform_in name fs s in (performed c u ∷ fs', s')
  perform_in name (claimed_item c ∷ fs) s =
      let (fs', s') = perform_in name fs s in
      let (u, t) = perform P c s in
      if c.name ≟ name then (performed c u ∷ fs, t) else (claimed_item c ∷ fs', s')

  -- The thread of that resource commits what it has learned, and ends.
  unfoldable pub commit_in : String → List Flight → BulkStore W J → List Flight × BulkStore W J
  commit_in name [] s = ([], s)
  commit_in name (claimed_item c ∷ fs) s =
      let (fs', s') = commit_in name fs s in (claimed_item c ∷ fs', s')
  commit_in name (performed c u ∷ fs) s =
      let (fs', s') = commit_in name fs s in
      if c.name ≟ name then (fs, (commit P c u s).1) else (performed c u ∷ fs', s')

  abbrev pub take_off : Outcome (Option Claim) → List Flight → List Flight
  take_off (ok (some c)) fs = claimed_item c ∷ fs
  take_off _ fs = fs

  unfoldable pub advance : Event → System W J → System W J
  advance (decide_event id hash d) y = record y { store = (decide P id hash d y.store).1 }
  advance (start_event id hash) y = record y { store = (start P id hash y.store).1 }
  advance (claim_event id) y =
      let (r, s) = claim P id y.store in record { store = s; flights = take_off r y.flights }
  advance (perform_event name) y =
      let (fs, s) = perform_in name y.flights y.store in record { store = s; flights = fs }
  advance (commit_event name) y =
      let (fs, s) = commit_in name y.flights y.store in record { store = s; flights = fs }
  advance wind_up_event y = record y { store = (wind_up P y.store).1 }
  advance (reconcile_event id) y = record y { store = (reconcile P id y.store).1 }
  advance restart_event y = record { store = (open_store P true y.store).1; flights = [] }

  unfoldable pub advance_all : List Event → System W J → System W J
  advance_all [] y = y
  advance_all (e ∷ es) y = advance_all es (advance e y)

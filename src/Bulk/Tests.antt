-- ===== src/Bulk/Tests.antt =====
-- pilot_v1/bulk.py: runs on a small fleet, and the theorems at those inputs.
use aws_secops.Bulk.Termination.{run-settles}
use aws_secops.Bulk.Counting.{approvals}
use aws_secops.Bulk.Recovery.{recover_settles, Recovers}
use aws_secops.Bulk.Decisions.{decide_once, IsTaken}
use aws_secops.Bulk.Claims.{Backed, claim-Backed}
use aws_secops.Bulk.Approval.{no_dispatch_without_approval}
use aws_secops.Bulk.Once.{at_most_once}
use aws_secops.Bulk.Spent.{dispatched}
use aws_secops.Bulk.Run.{rounds, run, steps, wind_up, out_of_fuel}
use aws_secops.Bulk.Interleaving.{
  Event, System, advance, advance_all, claim_event, commit_in, perform_event, perform_in,
  restart_event,
}
use aws_secops.Bulk.Worker.{
  claim, claim_checked, claim_first, claim_item, commit, dispatch, finish, perform, readback,
  rewrite_item, step, is_approve, Claim,
}
use aws_secops.Effects.{◌>>=◌, ok, raised, value_error}
use aws_secops.Bulk.Reports.{summary, summary_of}
use aws_secops.Bulk.Offline.{Fleet, exposed, offline}
use aws_secops.Bulk.Validate.{validate}
use aws_secops.Bulk.Types.{
  Batch, Item, Platform, State, approve, bpa, pending, completed, reject, unknown, undecided,
  approved,
}
use aws_secops.Bulk.Lifecycle.{
  decide, fresh_batch, fresh_manifest, preview, read_evidence, adopt, load, open_from, open_store,
  recover,
}
use aws_secops.Bulk.Store.{
  BulkStore, assign, read, read_or_raise, save, write_journal, fail_unclaimed, loaded, require,
}
use aws_secops.Bulk.Reports.{Row}
use aws_secops.Bulk.Walk.{Shows, visit, visit-IsComplete}
use aws_secops.Prelude.{
  List, [], false, map, none, refl, some, sort_texts, ◌∷◌, ◌≡◌, ◌≤◌, arith, ◌<◌, Each, length, suc,
}

abbrev fleet : Fleet
fleet = record { values = ("a", exposed) ∷ ("b", exposed) ∷ []; calls = 0 }

abbrev P : Platform Fleet Batch
P = offline ("b" ∷ "a" ∷ [])

abbrev empty : BulkStore Fleet Batch
empty = record {
  current = none;
  journal = none;
  archives = [];
  rollovers = [];
  worker_alive = false;
  world = fleet;
  dispatches = [];
}

abbrev previewed : BulkStore Fleet Batch
previewed = (preview P false empty).1

abbrev approved_store : BulkStore Fleet Batch
approved_store = (decide P "batch" "batch" approve previewed).1

abbrev states : BulkStore Fleet Batch → List State
states s = elim s.current [ none ↦ [] | some d ↦ map (λ (i : Item). i.state) d.items ]

-- Opening this opens the code of the store.
code : Unit {0}
unfolding preview read_evidence read_or_raise read bpa fresh_batch fresh_manifest sort_texts assign
    save write_journal validate ◌>>=◌ summary summary_of decide require claim claim_checked
    claim_first claim_item perform dispatch readback commit rewrite_item loaded finish step steps
    rounds wind_up fail_unclaimed run advance advance_all perform_in commit_in open_store open_from
    load adopt recover
code = tt

preview_states : states previewed ≡ pending ∷ pending ∷ []
unfolding code
preview_states = refl

-- Approve, run the worker: both buckets are changed, one call each.
abbrev ran : BulkStore Fleet Batch
ran = (run P 3 "batch" approved_store).1

run_states : states ran ≡ completed ∷ completed ∷ []
unfolding code
run_states = refl

ran_calls : ran.world.calls ≡ 2
unfolding code
ran_calls = refl

-- A schedule with a crash between the provider call and the commit of the first item.
abbrev schedule : List Event
schedule =
    claim_event "batch"
    ∷ claim_event "batch"
    ∷ perform_event "a"
    ∷ restart_event
    ∷ claim_event "batch"
    ∷ perform_event "b"
    ∷ []

abbrev crashed : System Fleet Batch
crashed = advance_all P schedule (record { store = approved_store; flights = [] })

crashed_states : states crashed.store ≡ unknown ∷ unknown ∷ []
unfolding code
crashed_states = refl

crashed_calls : dispatched "a" crashed.store.dispatches ≡ 1
unfolding code
crashed_calls = refl

at_most_once_example : dispatched "a" crashed.store.dispatches ≤ 1
at_most_once_example = at_most_once P (λ d. refl) schedule approved_store "a" nothing
  where
    nothing : approved_store.dispatches ≡ []
    nothing = unfold code in refl

abbrev rejected_store : BulkStore Fleet Batch
rejected_store = (decide P "batch" "batch" reject previewed).1

no_dispatch_without_approval_example :
    (advance_all P schedule (record { store = rejected_store; flights = [] })).store.dispatches
    ≡ rejected_store.dispatches
no_dispatch_without_approval_example =
    no_dispatch_without_approval P (λ d. refl) schedule rejected_store
      (tt, (tt, (tt, (tt, (tt, (tt, tt)))))) in_memory in_journal
  where
    in_memory : (d : Batch) → rejected_store.current ≡ some d → is_approve d.decision ≡ false
    in_memory d e = unfold code in cc

    in_journal :
        (b d : Batch)
        → rejected_store.journal ≡ some b
        → P.decode b ≡ some d
        → is_approve d.decision ≡ false
    in_journal b d e f = unfold code in cc

abbrev first_claim : Claim
first_claim = record { batch = "batch"; name = "a"; before = exposed }

claim-Backed_example : Backed P first_claim approved_store (claim P "batch" approved_store).1
claim-Backed_example =
    claim-Backed P "batch" first_claim approved_store (claim P "batch" approved_store).1 handed_out
  where
    handed_out :
        claim P "batch" approved_store ≡ (ok (some first_claim), (claim P "batch" approved_store).1)
    handed_out = unfold code in refl

abbrev held : BulkStore Fleet Batch → Batch
held s = elim s.current [ none ↦ fresh_batch P "" (fresh_manifest P 0 []) | some d ↦ d ]

recover_settles_example :
    let d = held (claim P "batch" approved_store).1 in
    let after = (recover P d).1 in
    Each (λ (i j : Item). Recovers i.state i j) d.items after.items
    × (after.id ≡ d.id)
    × (after.decision ≡ d.decision)
    × (after.manifest ≡ d.manifest)
recover_settles_example = recover_settles P (held (claim P "batch" approved_store).1)

decide_once_example :
    let d = held previewed in
    let t = (decide P d.id (P.digest d.manifest) approve previewed).1 in
    ((e : Batch) × (t.current ≡ some e) × IsTaken approve d e)
    × (decide P d.id (P.digest d.manifest) reject t
        ≡ (raised (value_error "approval already consumed"), t))
decide_once_example = decide_once P previewed (held previewed) approve reject at fine u refl refl
  where
    at : previewed.current ≡ some (held previewed)
    at = unfold code in refl

    fine : validate P (held previewed) ≡ ok tt
    fine = unfold code in refl

    u : (held previewed).decision ≡ undecided
    u = unfold code in refl

run-settles_example :
    (¬ ((run P 3 "batch" approved_store).0 ≡ out_of_fuel))
    × (approvals (run P 3 "batch" approved_store).1 ≡ 0)
    × ((run P 3 "batch" approved_store).1.worker_alive ≡ false)
run-settles_example = run-settles P 3 "batch" approved_store one_thread enough
  where
    one_thread : 0 < P.concurrency
    one_thread = omega arith

    enough : approvals approved_store < 3
    enough = unfold code in omega arith

-- Pages of one item: after the claim, "a" is RUNNING and "b" APPROVED.
visit-IsComplete_example :
    let s = (claim P "batch" approved_store).1 in
    (rows : List Row) × (visit P 1 (some approved) (held s).id (suc (length (held s).items)) 0 s
      ≡ (ok rows, s))
    × Shows (some approved) (held s).manifest.resources (held s).items rows
visit-IsComplete_example =
    visit-IsComplete P 1 (some approved) (held (claim P "batch" approved_store).1)
      (claim P "batch" approved_store).1 at fine (omega arith) (omega arith)
  where
    at : (claim P "batch" approved_store).1.current ≡ some (held (claim P "batch" approved_store).1)
    at = unfold code in refl

    fine : validate P (held (claim P "batch" approved_store).1) ≡ ok tt
    fine = unfold code in refl

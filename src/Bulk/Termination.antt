-- ===== src/Bulk/Termination.antt =====
-- pilot_v1/bulk.py: the loop of `_run`, and what `_run` leaves.
use aws_secops.Bulk.Decisions.{save-current}
use aws_secops.Bulk.Bounds.{after_claim-Bounded, steps-Bounded}
use aws_secops.Bulk.Reports.{Summary}
use aws_secops.Bulk.Run.{out_of_fuel, rounds, steps, run, wind_up}
use aws_secops.Bulk.Worker.{Claim, claim, step, after_claim}
use aws_secops.Bulk.Types.{Platform, Item, approved}
use aws_secops.Bulk.Store.{
  BulkStore, assign, expire, fail_unclaimed, has_state, with_items, loaded, save,
}
use aws_secops.Bulk.Counting.{approvals, claim-none, claim-fewer, approvals_of}
use aws_secops.Prelude.{
  Option, String, arith, none, some, suc, zero, ℕ, ◌<◌, ◌≡◌, Option-cases, ap, inl, inr, ◌≤◌,
  Bool-cases, List, [], count, false, map, min, refl, ◌==◌, ◌∷◌,
}
use aws_secops.Effects.{bind-returns, ok, Outcome, Outcome-cases, ◌>>=◌}

module _ {W J : Type 0} (P : Platform W J) where
  step-fewer :
      (id : String) (s : BulkStore W J) (x : Option Summary) (t : BulkStore W J)
      → 0 < approvals s
      → step P id s ≡ (ok x, t)
      → approvals t < approvals s
  unfolding step
  step-fewer id s x t some_left e =
      let (o, u, claimed_one, rest) = bind-returns (claim P id) (after_claim P) s x t e in
      go o u claimed_one rest
    where
      go :
          (o : Option Claim) (u : BulkStore W J)
          → claim P id s ≡ (ok o, u)
          → after_claim P o u ≡ (ok x, t)
          → approvals t < approvals s
      go none u a b = absurd (omega (arith, claim-none P id s u a))
      go (some c) u a b =
          let fewer = claim-fewer P id c s u a in
          let kept : approvals (after_claim P (some c) u).1 ≤ approvals u =
            (after_claim-Bounded P (approvals u) (some c)).at u (omega arith) in
          let same : approvals (after_claim P (some c) u).1 ≡ approvals t =
            ap (λ (y : Outcome (Option Summary) × BulkStore W J). approvals y.1) b in
          omega arith

  -- A round that goes on has claimed something.
  steps-fewer :
      (id : String) (n : ℕ) (s : BulkStore W J)
      → 0 < approvals s
      → 0 < n
      → (steps P id n s).0 ≡ ok tt
      → approvals (steps P id n s).1 < approvals s
  unfolding steps
  steps-fewer id zero s some_left k e = omega arith
  steps-fewer id (suc n) s some_left k e = elim (Outcome-cases (step P id s).0) [
    | inr (x, failed_step) ↦ absurd (ground arith)
    | inl (x, fine) ↦
        let fewer : approvals (step P id s).1 < approvals s =
          step-fewer id s x (step P id s).1 some_left (ap (λ r. (r, (step P id s).1)) fine) in
        let kept : approvals (steps P id n (step P id s).1).1 ≤ approvals (step P id s).1 =
          (steps-Bounded P (approvals (step P id s).1) id n).at (step P id s).1 (omega arith) in
        omega arith
  ]

  rounds-ends :
      (fuel : ℕ) (id : String) (s : BulkStore W J)
      → 0 < P.concurrency
      → approvals s < fuel
      → ¬ ((rounds P fuel id s).0 ≡ out_of_fuel)
  unfolding rounds
  rounds-ends zero id s k enough e = omega arith
  rounds-ends (suc fuel) id s k enough e = elim (Option-cases s.current) [
    | inl nothing ↦ ground arith
    | inr (d, at) ↦
        let n = min (count (has_state approved) d.items) P.concurrency in
        let left : approvals s ≡ count (has_state approved) d.items = ap approvals_of at in
        elim (Outcome-cases (steps P id n s).0) [
          | inr (x, failed_step) ↦ ground arith
          | inl (x, fine) ↦ elim (Bool-cases (count (has_state approved) d.items == 0)) [
            | inl nothing_left ↦ ground arith
            | inr some_left ↦
                let pos : 0 < count (has_state approved) d.items = ground arith in
                let fewer = steps-fewer id n s (omega arith) (omega arith) fine in
                let later = rounds-ends fuel id (steps P id n s).1 k (omega arith) in ground arith
          ]
        ]
  ]

  expire-none : (items : List Item) → count (has_state approved) (map expire items) ≡ 0
  expire-none [] = refl
  expire-none (i ∷ is) = ground (arith, expire-none is)

  wind_up-none : (s : BulkStore W J) → approvals (wind_up P s).1 ≡ 0
  unfolding wind_up loaded fail_unclaimed assign ◌>>=◌
  wind_up-none s = elim (Option-cases s.current) [
    | inl nothing ↦ ground arith
    | inr (d, at) ↦
        let d' = with_items d (map expire d.items) in
        let kept : approvals (save P d' (record s { current = some d' })).1
            ≡ approvals_of (some d') =
          ap approvals_of (save-current P d' (record s { current = some d' })) in
        let none_left = expire-none d.items in ground arith
  ]

  -- With a worker of at least one thread and fuel above the number of approved items, the loop
  -- ends by itself; when the worker is done no item is APPROVED, and the thread is dead.
  pub run-settles :
      (fuel : ℕ) (id : String) (s : BulkStore W J)
      → 0 < P.concurrency
      → approvals s < fuel
      → (¬ ((run P fuel id s).0 ≡ out_of_fuel))
        × (approvals (run P fuel id s).1 ≡ 0)
        × ((run P fuel id s).1.worker_alive ≡ false)
  unfolding run
  run-settles fuel id s k enough =
      (rounds-ends fuel id s k enough, wind_up-none (rounds P fuel id s).1, refl)

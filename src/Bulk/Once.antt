-- ===== src/Bulk/Once.antt =====
-- pilot_v1/bulk.py: the number of calls of `provider.apply` for one resource in a schedule.
use aws_secops.Bulk.Spent.{
  Spent, Spent-stable, dispatched, owed, owed-commit_in, owed-perform_in, settled, total,
}
use native.Mathlib.Decide.{dec_lt}
use aws_secops.Effects.{Outcome, ok, raised}
use aws_secops.Bulk.Preserves.{Holds}
use aws_secops.Bulk.Events.{Harmless, Permits, advance-Holds, log_after}
use aws_secops.Bulk.Claims.{Backed, claim-Backed}
use aws_secops.Bulk.Store.{BulkStore, Dispatch, with_items, has_state}
use aws_secops.Prelude.{
  Bool-cases, List, String, [], all, arith, inl, inr, true, ℕ, ◌+◌, ◌∷◌, ◌≟◌, ◌≡◌, ◌≤◌, ap, eq→≟,
  find-all, find-holds, refl, some, ◌<◌, Option, none, all-map_of, subst, sym, ≟_refl, ≟→eq,
}
use aws_secops.Bulk.Worker.{Claim, at_name, claimed, claim, update_item}
use aws_secops.Bulk.Interleaving.{
  Flight, System, Event, advance, decide_event, start_event, claim_event, commit_event,
  perform_event, reconcile_event, restart_event, take_off, wind_up_event, advance_all,
}
use aws_secops.Bulk.Types.{Batch, Item, Platform, approved}

record IsOnce {W J : Type 0} (P : Platform W J) (y : System W J) : Type 0 where
  harmless : Harmless y.flights
  once : (n : String) → total n y ≤ 1
  spent : (n : String) → 0 < total n y → Holds P (Spent n) y.store.dispatches y.store

relog :
    {W J : Type 0} (P : Platform W J) (Q : Batch → Type 0) {L : List Dispatch} {s : BulkStore W J}
    → Holds P Q L s
    → Holds P Q s.dispatches s
relog P Q h = record { in_memory = h.in_memory; in_journal = h.in_journal; log = refl }

-- An item that is claimed is approved, so its resource was not spent.
claim_unspent :
    {W J : Type 0} (P : Platform W J) (c : Claim) (s t : BulkStore W J) (b : Backed P c s t)
    → ¬ (Spent c.name b.batch)
claim_unspent P c s t b h =
    let named_so : c.name ≡ b.item.resource = ap (λ (x : Claim). x.name) b.is_claim in
    let live = find-holds (has_state approved) b.batch.items b.item b.first_approved in
    let dead =
      find-all (has_state approved) (settled c.name) b.batch.items b.item b.first_approved h.1 in
    ground (arith, eq→≟ b.item.resource c.name)

settled-claimed : (n : String) (i : Item) → settled n (at_name n claimed i) ≡ true
settled-claimed n i = ground arith

module _ {W J : Type 0} (P : Platform W J)
    (law : (d : Batch) → P.decode (P.encode d) ≡ some d) where
  permitted : (e : Event) → Permits (λ dec. Unit) e
  permitted (decide_event id hash dec) = tt
  permitted (start_event id hash) = tt
  permitted _ = tt

  keep :
      (n : String) (e : Event) (y : System W J)
      → Harmless y.flights
      → Holds P (Spent n) y.store.dispatches y.store
      → Holds P (Spent n) (advance P e y).store.dispatches (advance P e y).store
  keep n e y k h =
      relog P (Spent n)
        (advance-Holds P law (Spent n) (Spent-stable n) (λ dec. Unit)
          (λ dec u d open_batch v q. absurd (cc (q.0))) e y (permitted e) k h).1

  Harmless-advance :
      (e : Event) (y : System W J) → Harmless y.flights → Harmless (advance P e y).flights
  Harmless-advance e y k =
      (advance-Holds P law (λ d. Unit) (λ f g d q. tt) (λ dec. Unit) (λ dec u d v w q. tt) e y
        (permitted e) k
        (record { in_memory = λ d x. tt; in_journal = λ b d x z. tt; log = refl })).0

  log-advance :
      (e : Event) (y : System W J)
      → Harmless y.flights
      → (advance P e y).store.dispatches ≡ log_after P e y y.store.dispatches
  log-advance e y k =
      (advance-Holds P law (λ d. Unit) (λ f g d q. tt) (λ dec. Unit) (λ dec u d v w q. tt) e y
        (permitted e) k
        (record { in_memory = λ d x. tt; in_journal = λ b d x z. tt; log = refl })).1.log

  -- The claims that an event adds.
  abbrev new_claims : String → Event → System W J → ℕ
  new_claims n (claim_event id) y = owed n (take_off P (claim P id y.store).0 [])
  new_claims n _ y = 0

  owed-take_off :
      (n : String) (r : Outcome (Option Claim)) (fs : List Flight)
      → owed n (take_off P r fs) ≡ owed n (take_off P r []) + owed n fs
  owed-take_off n (ok (some c)) fs = omega arith
  owed-take_off n (ok none) fs = omega arith
  owed-take_off n (raised e) fs = omega arith

  total-advance :
      (n : String) (e : Event) (y : System W J)
      → Harmless y.flights
      → total n (advance P e y) ≤ new_claims n e y + total n y
  unfolding advance
  total-advance n (claim_event id) y k = omega (
    arith,
    owed-take_off n (claim P id y.store).0 y.flights,
    ap (dispatched n) (log-advance (claim_event id) y k),
  )
  total-advance n (perform_event name) y k =
      omega (arith, owed-perform_in P n name y.flights y.store)
  total-advance n (commit_event name) y k = omega (
    arith,
    owed-commit_in P n name y.flights y.store,
    ap (dispatched n) (log-advance (commit_event name) y k),
  )
  total-advance n (decide_event id hash dec) y k =
      omega (arith, ap (dispatched n) (log-advance (decide_event id hash dec) y k))
  total-advance n (start_event id hash) y k =
      omega (arith, ap (dispatched n) (log-advance (start_event id hash) y k))
  total-advance n wind_up_event y k =
      omega (arith, ap (dispatched n) (log-advance wind_up_event y k))
  total-advance n (reconcile_event id) y k =
      omega (arith, ap (dispatched n) (log-advance (reconcile_event id) y k))
  total-advance n restart_event y k =
      omega (arith, ap (dispatched n) (log-advance restart_event y k))

  claimed_spent :
      (c : Claim) (s t : BulkStore W J) → Backed P c s t → Holds P (Spent c.name) t.dispatches t
  claimed_spent c s t b =
      let d' = with_items b.batch (update_item b.item.resource claimed b.batch.items) in
      let named_so : b.item.resource ≡ c.name = sym (ap (λ (x : Claim). x.name) b.is_claim) in
      let spent : Spent c.name d' = (
        ground (arith, b.decided_approve),
        subst (λ n. all (settled n) (update_item b.item.resource claimed b.batch.items) ≡ true)
            named_so
            (all-map_of (settled b.item.resource) (at_name b.item.resource claimed)
              (settled-claimed b.item.resource) b.batch.items),
      ) in
      record {
        in_memory = λ d e. let same : d' ≡ d = cc b.in_memory in subst (Spent c.name) same spent;
        in_journal = λ bytes d e f.
            let same : d' ≡ d = cc (b.durable, law d') in subst (Spent c.name) same spent;
        log = refl;
      }

  unspent_before :
      (y : System W J) (c : Claim) (t : BulkStore W J)
      → IsOnce P y
      → Backed P c y.store t
      → total c.name y ≡ 0
  unspent_before y c t k b =
      let never : ¬ (0 < total c.name y) =
        λ q. claim_unspent P c y.store t b ((k.spent c.name q).in_memory b.batch b.loaded_batch) in
      omega arith

  abbrev Fresh : String → System W J → Outcome (Option Claim) × BulkStore W J → Type 0
  Fresh n y x =
      (owed n (take_off P x.0 []) ≡ 1) × (total n y ≡ 0) × Holds P (Spent n) x.1.dispatches x.1

  Fresh-claim :
      (n id : String) (y : System W J) (x : Outcome (Option Claim) × BulkStore W J)
      → claim P id y.store ≡ x
      → IsOnce P y
      → 0 < owed n (take_off P x.0 [])
      → Fresh n y x
  Fresh-claim n id y (raised e, t) eq k h = absurd (omega arith)
  Fresh-claim n id y (ok none, t) eq k h = absurd (omega arith)
  Fresh-claim n id y (ok (some c), t) eq k h = elim (Bool-cases (c.name ≟ n)) [
    | inr other ↦ absurd (ground arith)
    | inl mine ↦
        let b = claim-Backed P id c y.store t eq in
        subst (λ m. Fresh m y (ok (some c), t)) (≟→eq c.name n mine)
          (rw (≟_refl c.name) (omega arith), unspent_before y c t k b, claimed_spent c y.store t b)
  ]

  -- What an event newly claims was not spent, and is spent afterwards.
  newly :
      (n : String) (e : Event) (y : System W J)
      → IsOnce P y
      → 0 < new_claims n e y
      → (new_claims n e y ≡ 1)
        × (total n y ≡ 0)
        × Holds P (Spent n) (advance P e y).store.dispatches (advance P e y).store
  unfolding advance
  newly n (claim_event id) y k h = Fresh-claim n id y (claim P id y.store) refl k h
  newly n (decide_event id hash dec) y k h = absurd (omega arith)
  newly n _ y k h = absurd (omega arith)

  IsOnce-advance : (e : Event) (y : System W J) → IsOnce P y → IsOnce P (advance P e y)
  IsOnce-advance e y k = record {
    harmless = Harmless-advance e y k.harmless;
    once = λ n. elim (dec_lt 0 (new_claims n e y)) [
      | yes fresh ↦
          let (one, zero_before, _) = newly n e y k fresh in
          omega (arith, total-advance n e y k.harmless)
      | no old ↦ omega (arith, total-advance n e y k.harmless, k.once n)
    ];
    spent = λ n h. elim (dec_lt 0 (new_claims n e y)) [
      | yes fresh ↦ (newly n e y k fresh).2
      | no old ↦ keep n e y k.harmless (k.spent n (omega (arith, total-advance n e y k.harmless)))
    ];
  }

  IsOnce-advance_all :
      (es : List Event) (y : System W J) → IsOnce P y → IsOnce P (advance_all P es y)
  unfolding advance_all
  IsOnce-advance_all [] y k = k
  IsOnce-advance_all (e ∷ es) y k = IsOnce-advance_all es (advance P e y) (IsOnce-advance e y k)

  -- From a store that has dispatched nothing since its preview, with no thread in flight, any
  -- schedule of decisions, starts, claims, provider calls, commits, wind-ups, reconciliations and
  -- restarts calls `provider.apply` at most once for each resource name.
  pub at_most_once :
      (es : List Event) (s : BulkStore W J) (n : String)
      → s.dispatches ≡ []
      → dispatched n (advance_all P es (record { store = s; flights = [] })).store.dispatches ≤ 1
  at_most_once es s n nothing = omega (arith, (IsOnce-advance_all es _ start).once n)
    where
      none_at : (m : String) → dispatched m s.dispatches ≡ 0
      none_at m = ap (dispatched m) nothing

      start : IsOnce P (record { store = s; flights = [] })
      start = record {
        harmless = tt;
        once = λ m. omega (arith, none_at m);
        spent = λ m h. absurd (omega (arith, none_at m));
      }

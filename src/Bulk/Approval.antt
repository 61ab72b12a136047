-- ===== src/Bulk/Approval.antt =====
-- pilot_v1/bulk.py: schedules in which nobody approves.
use aws_secops.Bulk.Events.{Permits, Harmless, advance-Holds, log_after}
use aws_secops.Bulk.Types.{Batch, Decision, Platform}
use aws_secops.Bulk.Interleaving.{
  Event, advance, advance_all, commit_in, perform_in, take_off, System, claim_event, commit_event,
  decide_event, perform_event, reconcile_event, restart_event, start_event, wind_up_event,
}
use aws_secops.Effects.{◌>>=◌}
use aws_secops.Bulk.Worker.{claim, is_approve, claim_checked}
use aws_secops.Bulk.Store.{BulkStore, Dispatch}
use aws_secops.Bulk.Preserves.{Holds, require-cases}
use aws_secops.Prelude.{
  List, String, [], false, inl, inr, refl, some, ◌∷◌, ◌≡◌, ap, subst, sym, ◌∙◌,
}

abbrev NotApproved : Batch → Type 0
NotApproved d = is_approve d.decision ≡ false

abbrev NotApproving : Decision → Type 0
NotApproving dec = is_approve dec ≡ false

-- No event of the schedule approves the batch: no APPROVE decision and no start.
abbrev pub NeverApproves : List Event → Type 0
NeverApproves [] = Unit
NeverApproves (e ∷ es) = Permits NotApproving e × NeverApproves es

module _ {W J : Type 0} (P : Platform W J)
    (law : (d : Batch) → P.decode (P.encode d) ≡ some d) where
  -- A batch that is not approved is not claimed.
  claim_unapproved :
      (id : String) (L : List Dispatch) (s : BulkStore W J)
      → Holds P NotApproved L s
      → take_off P (claim P id s).0 [] ≡ []
  unfolding claim claim_checked ◌>>=◌
  claim_unapproved id L s h = elim (require-cases P id s) [
    | inl (e, r) ↦ rw r
    | inr (d, at, _, _, r) ↦ rw r (rw (h.in_memory d at) refl)
  ]

  quiet_flights :
      (e : Event) (y : System W J) {L : List Dispatch}
      → y.flights ≡ []
      → Holds P NotApproved L y.store
      → (advance P e y).flights ≡ []
  unfolding advance perform_in commit_in
  quiet_flights (claim_event id) y {L} none_there h =
      ap (take_off P (claim P id y.store).0) none_there ∙ claim_unapproved id L y.store h
  quiet_flights (perform_event name) y none_there h =
      ap (λ fs. (perform_in P name fs y.store).0) none_there
  quiet_flights (commit_event name) y none_there h =
      ap (λ fs. (commit_in P name fs y.store).0) none_there
  quiet_flights restart_event y none_there h = refl
  quiet_flights (decide_event id hash dec) y none_there h = none_there
  quiet_flights (start_event id hash) y none_there h = none_there
  quiet_flights wind_up_event y none_there h = none_there
  quiet_flights (reconcile_event id) y none_there h = none_there

  quiet_log :
      (e : Event) (y : System W J) (L : List Dispatch)
      → y.flights ≡ []
      → y.store.dispatches ≡ L
      → log_after P e y L ≡ L
  unfolding perform_in
  quiet_log (perform_event name) y L none_there same =
      ap (λ fs. (perform_in P name fs y.store).1.dispatches) none_there ∙ same
  quiet_log _ y L none_there same = refl

  quiet :
      (es : List Event) (y : System W J) (L : List Dispatch)
      → NeverApproves es
      → y.flights ≡ []
      → Holds P NotApproved L y.store
      → (advance_all P es y).store.dispatches ≡ L
  unfolding advance_all
  quiet [] y L a none_there h = h.log
  quiet (e ∷ es) y L a none_there h =
      let next =
        advance-Holds P law NotApproved (λ f k d q. q) NotApproving (λ dec ok d u v q. ok) e y a.0
          (subst Harmless (sym none_there) tt) h in
      quiet es (advance P e y) L a.1 (quiet_flights e y none_there h) (
        subst (λ M. Holds P NotApproved M (advance P e y).store) (quiet_log e y L none_there h.log)
          next.1)

  -- A schedule that never approves never calls `provider.apply`, whatever it claims, performs,
  -- commits, reconciles or restarts, if neither the batch in memory nor the one in the journal is
  -- approved at its start and no thread is in flight there.
  pub no_dispatch_without_approval :
      (es : List Event) (s : BulkStore W J)
      → NeverApproves es
      → ((d : Batch) → s.current ≡ some d → is_approve d.decision ≡ false)
      → ((b : J) (d : Batch)
          → s.journal ≡ some b
          → P.decode b ≡ some d
          → is_approve d.decision ≡ false)
      → (advance_all P es (record { store = s; flights = [] })).store.dispatches ≡ s.dispatches
  no_dispatch_without_approval es s a h k =
      quiet es (record { store = s; flights = [] }) s.dispatches a refl
        (record { in_memory = h; in_journal = k; log = refl })

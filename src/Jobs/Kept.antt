-- ===== src/Jobs/Kept.antt =====
-- pilot_v1/service.py: `decide_job` and `create_job` as a whole keep a stable property of the jobs.
use aws_secops.Jobs.Laws.{find-has_id, find-put}
use aws_secops.Prelude.{
  List, String, find, inl, inr, refl, some, subst, sym, true, ℕ, ◌≡◌, false, suc, ◌+◌, arith,
  Option, Bool, none, not,
}
use aws_secops.Effects
use aws_secops.Effects.{
  ◌>>=◌, ◌>>◌, Exec, Outcome, Error, gets, lift, modify, ok, pure, raise_if, raised, value_error,
  continue,
}
use aws_secops.Effects.Keeps.{Keeps, Keeps-bind, Keeps-then, Keeps-gets, Keeps-lift}
use aws_secops.Jobs.Types.{Job, is_pending}
use aws_secops.Jobs.Store.{has_id, put, update, get, known, JobStore}
use aws_secops.Jobs.Saving.{Saved, Updated, update-Updated}
use aws_secops.Jobs.Service.{
  Outside, PilotService, Call, State, on_jobs, Decision, M, reject, approve, deny_test,
}
use aws_secops.Jobs.Decide.{
  carry_out, decide_job, refresh_backlog, as_executing, as_rejected, decide_known, show_outcome,
}
use aws_secops.Jobs.Stable.{IsStable, IsKept, update-IsKept, Saved-IsKept_anew, Saved-IsKept_raised}
use aws_secops.Jobs.Carried.{Held, InFlight, remediation_calls}
use aws_secops.Jobs.Decided.{InFlight-try}

module _ {W J B : Type 0} (P : Outside W J B)
    (law : (js : List Job) → P.jobs.decode (P.jobs.encode js) ≡ some js) (Q : ℕ → List Job → Type 0)
    (stable : IsStable Q) where
  pub Held-show :
      (k : ℕ) (f : PilotService W J B → State)
      → Keeps (Held P law Q stable k) (modify (λ s. record s { state = f s }))
  unfolding ◌>>=◌
  Held-show k f = record { at = λ s h. record { kept = h.kept } }

  pub Held-refresh_backlog : (k : ℕ) → Keeps (Held P law Q stable k) (refresh_backlog P)
  unfolding refresh_backlog
  Held-refresh_backlog k =
      Keeps-bind (Keeps-gets _) λ d. Keeps-bind (Keeps-lift _) λ shown. Held-show k _

  still_open :
      (id : String) (j k : Job) (js : List Job)
      → find (has_id id) js ≡ some j
      → find (has_id id) js ≡ some k
      → is_pending j.state ≡ true
      → ¬ (is_pending k.state ≡ false)
  still_open id j k js f g h p = let same : j ≡ k = cc (f, g) in cc (same, h, p)

  Held-reject :
      (id : String) (j : Job) (now : String) (s : PilotService W J B)
      → find (has_id id) s.jobs.jobs ≡ some j
      → is_pending j.state ≡ true
      → Held P law Q stable 0 s
      → Held P law Q stable 0 (on_jobs P (update P.jobs id (as_rejected now)) s).1
  unfolding on_jobs
  Held-reject id j now s there open_job h = record {
    kept =
        update-IsKept P.jobs law id (as_rejected now) s.jobs
          (λ k found.
            stable.change _ s.jobs.jobs k (as_rejected now k)
              (subst (λ n. find (has_id n) s.jobs.jobs ≡ some k)
                (sym (find-has_id id k s.jobs.jobs found)) found)
              refl (λ p. absurd (still_open id j k s.jobs.jobs there found open_job p))
              h.kept.in_memory)
          h.kept;
  }

  -- The approval is written down, and one remediation call may follow.
  Held-approve :
      (id : String) (j : Job) (s : PilotService W J B) (f : Job → M P Job)
      → find (has_id id) s.jobs.jobs ≡ some j
      → is_pending j.state ≡ true
      → Held P law Q stable 0 s
      → ((job : Job) (t : PilotService W J B)
          → InFlight P law Q stable 1 id t
          → Held P law Q stable 0 (f job t).1)
      → Held P law Q stable 0 ((on_jobs P (update P.jobs id as_executing) >>= f) s).1
  unfolding on_jobs ◌>>=◌
  Held-approve id j s f there open_job h rest =
      go (update P.jobs id as_executing s.jobs)
        (update-Updated P.jobs id as_executing s.jobs h.kept.has_file)
    where
      counted :
          (calls : List (Call J)) → suc (0 + remediation_calls calls) ≡ 1 + remediation_calls calls
      counted calls = omega arith

      closed :
          (i : Job) (t : JobStore W J) (y k : Job)
          → i.job_id ≡ id
          → find (has_id id) t.jobs ≡ some y
          → Saved P.jobs (put (as_executing i) s.jobs.jobs) (as_executing i) s.jobs (ok k, t)
          → is_pending y.state ≡ false
      closed i t y k is_id found_y (inl (_, jobs, _, _)) =
          let at_id : find (has_id id) (put (as_executing i) s.jobs.jobs) ≡ some (as_executing i) =
            subst (λ n. find (has_id n) (put (as_executing i) s.jobs.jobs) ≡ some (as_executing i))
              is_id (find-put (as_executing i) s.jobs.jobs) in
          let same : as_executing i ≡ y = cc (jobs, found_y, at_id) in
          subst (λ (z : Job). is_pending z.state ≡ false) same refl
      closed i t y k is_id found_y (inr (e, stopped, _, _, _)) = absurd (cc stopped)

      go :
          (x : Outcome Job × JobStore W J)
          → Updated P.jobs id as_executing s.jobs x
          → Held P law Q stable 0 (Effects.continue x.0 f (record s { jobs = x.1 })).1
      go (ok k, t) (inl (i, found, saved)) =
          let same : i ≡ j = cc (found, there) in
          let is_id : i.job_id ≡ id = find-has_id id i s.jobs.jobs found in
          let at_id : find (has_id i.job_id) s.jobs.jobs ≡ some i =
            subst (λ n. find (has_id n) s.jobs.jobs ≡ some i) (sym is_id) found in
          let spent =
            stable.spend (0 + remediation_calls s.calls) s.jobs.jobs i (as_executing i) at_id
              (subst (λ (y : Job). is_pending y.state ≡ true) (sym same) open_job) refl refl
              h.kept.in_memory in
          rest k (record s { jobs = t })
            (record {
              held = record {
                kept =
                    Saved-IsKept_anew P.jobs law s.jobs refl
                      (subst (λ n. Q n (put (as_executing i) s.jobs.jobs)) (counted s.calls) spent)
                      saved;
              };
              decided = λ y found_y. closed i t y k is_id found_y saved;
            })
      go (ok k, t) (inr (e, same)) = absurd (cc same)
      go (raised e, t) (inl (i, found, saved)) = record {
        kept = Saved-IsKept_raised P.jobs law e (raised e, t) refl h.kept saved;
      }
      go (raised e, t) (inr (x, same)) =
          let back : t ≡ s.jobs = cc same in
          record {
            kept = subst (IsKept P.jobs (Q (0 + remediation_calls s.calls))) (sym back) h.kept;
          }

  Held-carry_out :
      (id : String) (decision : Decision) (j : Job) (s : PilotService W J B)
      → find (has_id id) s.jobs.jobs ≡ some j
      → is_pending j.state ≡ true
      → Held P law Q stable 0 s
      → Held P law Q stable 0 (carry_out P id decision s).1
  unfolding carry_out
  Held-carry_out id reject j s there open_job h =
      unfold ◌>>=◌ in Held-reject id j _ s there open_job h
  Held-carry_out id approve j s there open_job h =
      Held-approve id j s _ there open_job h
        λ job t f. ((InFlight-try P law Q stable 0 id approve job).at t f).held
  Held-carry_out id deny_test j s there open_job h =
      Held-approve id j s _ there open_job h
        λ job t f. ((InFlight-try P law Q stable 0 id deny_test job).at t f).held

  Held-show_outcome :
      (decision : Decision) (j : Job) → Keeps (Held P law Q stable 0) (show_outcome P decision j)
  unfolding show_outcome
  Held-show_outcome decision j =
      Keeps-then (Held-show 0 _) (Keeps-then (Held-refresh_backlog 0) (Keeps-gets _))

  Held-decide_known :
      (b : Bool) (e : Error) (id : String) (decision : Decision) (s : PilotService W J B)
      → (b ≡ false → Held P law Q stable 0 (carry_out P id decision s).1)
      → Held P law Q stable 0 s
      → Held P law Q stable 0
          ((raise_if b e >> (carry_out P id decision >>= show_outcome P decision)) s).1
  unfolding ◌>>=◌
  Held-decide_known true e id decision s k h = h
  Held-decide_known false e id decision s k h = after (carry_out P id decision s) (k refl)
    where
      after :
          (x : Outcome Job × PilotService W J B)
          → Held P law Q stable 0 x.1
          → Held P law Q stable 0 (Effects.continue x.0 (show_outcome P decision) x.1).1
      after (ok j, t) k = (Held-show_outcome decision j).at t k
      after (raised e, t) k = k

  Held-known :
      (o : Option Job) (id : String) (decision : Decision) (s : PilotService W J B)
      → find (has_id id) s.jobs.jobs ≡ o
      → Held P law Q stable 0 s
      → Held P law Q stable 0 ((lift (known P.jobs o) >>= decide_known P id decision) s).1
  unfolding ◌>>=◌
  Held-known none id decision s e h = h
  Held-known (some j) id decision s e h =
      Held-decide_known (not (is_pending j.state)) _ id decision s
        (λ open_job. Held-carry_out id decision j s e (ground arith) h) h

  -- `decide_job` keeps the property, whatever it does.
  pub Held-decide_job :
      (id : String) (decision : Decision) → Keeps (Held P law Q stable 0) (decide_job P id decision)
  unfolding decide_job ◌>>=◌ on_jobs get
  Held-decide_job id decision = record {
    at = λ s h. Held-known (find (has_id id) s.jobs.jobs) id decision s refl h;
  }

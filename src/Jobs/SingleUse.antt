-- ===== src/Jobs/SingleUse.antt =====
-- pilot_v1/service.py: the decisions on a job over any calls and restarts.
use aws_secops.Prelude.{
  List, String, [], false, find, none, refl, some, true, ◌≡◌, ap, arith, subst, sym, ◌+◌, ℕ,
}
use aws_secops.Effects.{modify, ◌>>=◌, Error, raised, value_error}
use aws_secops.Effects.Keeps.{Keeps, Keeps-bind, Keeps-then, Keeps-gets, Keeps-lift, Keeps-raise_if}
use aws_secops.Jobs.Types.{Job, is_pending}
use aws_secops.Jobs.Store.{has_id, get, known}
use aws_secops.Jobs.Store as Store
use aws_secops.Jobs.Service.{Outside, PilotService, Decision, State, M, on_jobs, reject}
use aws_secops.Jobs.Decide.{decide_job, carry_out, show_outcome, refresh_backlog}
use aws_secops.Jobs.Stable.{OnFile-map, OnFile}
use aws_secops.Jobs.Carried.{remediation_calls}
use aws_secops.Jobs.Lasting.{Lasts-run_operations}
use aws_secops.Jobs.Spending.{Paid, Paid-IsStable, Closed, Closed-IsStable}
use aws_secops.Jobs.History.{Operation, System, AreNew, run_operations}

module _ {W J B : Type 0} (P : Outside W J B) where
  -- The call raises and changes nothing at all.
  abbrev pub IsRefused : {A : Type 0} → M P A → PilotService W J B → Type 0
  IsRefused m s = (e : Error) × (m s ≡ (raised e, s))

  -- Decisions on a job that is not pending change nothing.
  decided-IsRefused :
      (id : String) (decision : Decision) (j : Job) (s : PilotService W J B)
      → find (has_id id) s.jobs.jobs ≡ some j
      → is_pending j.state ≡ false
      → IsRefused (decide_job P id decision) s
  unfolding decide_job get ◌>>=◌ on_jobs
  decided-IsRefused id decision j s there ended = (
    value_error "job is not pending; decisions are single-use and never replayed",
    rw (there, ended) refl,
  )

  module _ (law : (js : List Job) → P.jobs.decode (P.jobs.encode js) ≡ some js) where
    -- Once a job has been decided, in memory and on file, and if each id that is drawn later is new
    -- at its time: each later decision on it raises and changes nothing, makes no call of the
    -- Gateway, and this stays so over any calls of create_job, decide_job, reject, approve and
    -- check, any changes of the backlog and of the state shown, and any restarts.
    pub decide-single_use :
        (id : String) (decision : Decision) (os : List Operation) (y : System W J B)
        → y.service.jobs.path ≡ true
        → Closed id 0 y.service.jobs.jobs
        → OnFile P.jobs (Closed id 0) y.service.jobs.file
        → AreNew P os y
        → (run_operations P os y).running ≡ true
        → IsRefused (decide_job P id decision) (run_operations P os y).service
    decide-single_use id decision os y path closed on_file new up =
        let end =
          Lasts-run_operations P law (Closed id) (Closed-IsStable id) os y new
            (record { has_file = path; on_file = on_file; in_memory = λ _. closed }) in
        let (j, there, ended) = end.in_memory up in
        decided-IsRefused id decision j (run_operations P os y).service there ended

    -- From a new pilot, which has no job file and has made no call, if each id that is drawn is new:
    -- after any calls of create_job, decide_job, reject, approve and check, any changes of the
    -- backlog and of the state shown, and any restarts, the remediation calls that have been made
    -- are no more than the approved jobs on file.
    pub calls-Paid :
        (os : List Operation) (y : System W J B)
        → y.service.jobs.path ≡ true
        → y.service.jobs.file ≡ none
        → y.service.jobs.jobs ≡ []
        → y.service.calls ≡ []
        → AreNew P os y
        → OnFile P.jobs
            (Paid (remediation_calls (run_operations P os y).service.calls))
            (run_operations P os y).service.jobs.file
    calls-Paid os y path no_file no_jobs no_calls new =
        OnFile-map P.jobs (run_operations P os y).service.jobs.file
          (pulled (remediation_calls (run_operations P os y).service.calls))
          (Lasts-run_operations P law Paid Paid-IsStable os y new (record {
            has_file = path;
            on_file =
                subst (OnFile P.jobs (Paid (0 + remediation_calls y.service.calls))) (sym no_file)
                  none_made;
            in_memory =
                λ _. subst (Paid (0 + remediation_calls y.service.calls)) (sym no_jobs) none_made;
          })).on_file
      where
        pulled : (n : ℕ) (js : List Job) → Paid (0 + n) js → Paid n js
        pulled n js h = omega (arith, h)

        none_made : Paid (0 + remediation_calls y.service.calls) []
        none_made = omega (arith, ap (λ c. remediation_calls c) no_calls)

  abbrev Quiet : PilotService W J B → PilotService W J B → Type 0
  Quiet old s = (s.calls ≡ old.calls) × (s.findings ≡ old.findings)

  on_jobs-Quiet :
      {A : Type 0} (old : PilotService W J B) (m : Store.M P.jobs A)
      → Keeps (Quiet old) (on_jobs P m)
  unfolding on_jobs
  on_jobs-Quiet old m = record { at = λ s h. h }

  modify-Quiet :
      (old : PilotService W J B) (f : PilotService W J B → State)
      → Keeps (Quiet old) (modify (λ s. record s { state = f s }))
  unfolding ◌>>=◌
  modify-Quiet old f = record { at = λ s h. h }

  show_outcome-Quiet :
      (old : PilotService W J B) (decision : Decision) (j : Job)
      → Keeps (Quiet old) (show_outcome P decision j)
  unfolding show_outcome refresh_backlog
  show_outcome-Quiet old decision j = Keeps-then (modify-Quiet old _) (
      Keeps-then
        (Keeps-bind (Keeps-gets _) λ d. Keeps-bind (Keeps-lift _) λ shown. modify-Quiet old _)
        (Keeps-gets _))

  decide-Quiet :
      (old : PilotService W J B) (id : String) → Keeps (Quiet old) (decide_job P id reject)
  unfolding decide_job carry_out
  decide-Quiet old id = Keeps-bind (on_jobs-Quiet old _) λ job. Keeps-then (Keeps-raise_if _ _) (
      Keeps-bind (Keeps-bind (Keeps-gets _) λ now. on_jobs-Quiet old _)
        λ ended. show_outcome-Quiet old reject ended)

  -- A REJECT, whatever becomes of it, makes no call of the Gateway and leaves the backlog as it was.
  pub reject-IsQuiet :
      (id : String) (s : PilotService W J B)
      → ((decide_job P id reject s).1.calls ≡ s.calls)
        × ((decide_job P id reject s).1.findings ≡ s.findings)
  reject-IsQuiet id s = (decide-Quiet s id).at s (refl, refl)

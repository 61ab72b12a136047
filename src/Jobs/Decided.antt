-- ===== src/Jobs/Decided.antt =====
-- pilot_v1/service.py: `decide_job` and `create_job` keep a stable property of the jobs.
use aws_secops.Prelude.{List, String, arith, false, refl, some, suc, true, ℕ, ◌≡◌}
use aws_secops.Effects.{Outcome, ok, raised}
use aws_secops.Effects.Keeps.{Keeps, Keeps-bind, Keeps-then, Keeps-gets, Keeps-lift, Keeps-raise_if}
use aws_secops.Effects.Leads.{Leads, Leads-bind, Leads-last}
use aws_secops.Findings.Types.{Fields}
use aws_secops.Jobs.Types.{Job, is_pending}
use aws_secops.Jobs.Gateway.{AuditRecord}
use aws_secops.Jobs.Service
use aws_secops.Jobs.Service.{
  Outside, PilotService, Call, State, on_jobs, on_findings, call_gateway, try_except, Decision, M,
  handle,
}
use aws_secops.Jobs.Decide.{read_finding, approve_remediation, execute, settle, give_up, as_done}
use aws_secops.Jobs.Stable.{IsStable}
use aws_secops.Jobs.Carried.{
  InFlight, InFlight-call, InFlight-update, InFlight-on_findings, InFlight-fewer, InFlight-show,
}

module _ {W J B : Type 0} (P : Outside W J B)
    (law : (js : List Job) → P.jobs.decode (P.jobs.encode js) ≡ some js) (Q : ℕ → List Job → Type 0)
    (stable : IsStable Q) where
  InFlight-quiet :
      (k : ℕ) (id tool environment : String)
      → Keeps
          (InFlight P law Q stable k id)
          (call_gateway P tool (record { environment = environment; approved = false }))
  InFlight-quiet k id tool environment = record {
    at = (InFlight-call P law Q stable k k id tool environment false (omega arith)).at;
  }

  pub InFlight-read_finding :
      (k : ℕ) (id : String) → Keeps (InFlight P law Q stable k id) (read_finding P)
  unfolding read_finding
  InFlight-read_finding k id = Keeps-bind (InFlight-quiet k id _ _) λ response. Keeps-lift _

  InFlight-approve :
      (k : ℕ) (id environment : String)
      → Leads
          (InFlight P law Q stable (suc k) id)
          (InFlight P law Q stable k id)
          (approve_remediation P environment)
  unfolding approve_remediation
  InFlight-approve k id environment =
      Leads-bind (Keeps-raise_if _ _) (InFlight-fewer P law Q stable k id) λ _.
        Leads-last (InFlight-call P law Q stable (suc k) k id _ environment true (omega arith))
          λ response. Keeps-lift _

  InFlight-settle :
      (k : ℕ) (id : String) (decision : Decision) (a : AuditRecord) (after : Fields) (job : Job)
      → Keeps (InFlight P law Q stable k id) (settle P id decision a after job)
  unfolding settle
  InFlight-settle k id decision a after job = Keeps-then (Keeps-raise_if _ _) (
      Keeps-then (Keeps-raise_if _ _) (
        Keeps-bind (Keeps-gets _) λ now. Keeps-bind (Keeps-lift _) λ finding.
          Keeps-then (InFlight-on_findings P law Q stable k id _) (
            Keeps-then (InFlight-show P law Q stable k id _) (
              Keeps-bind (Keeps-gets _) λ ended.
                InFlight-update P law Q stable k id _ (λ j. refl) (λ j h. done a ended j)
                  (λ j. refl)))))
    where
      done : (a : AuditRecord) (now : String) (j : Job) → is_pending (as_done a now j).state ≡ false
      done a now j = ground arith

  InFlight-execute :
      (k : ℕ) (id : String) (decision : Decision) (job : Job)
      → Leads
          (InFlight P law Q stable (suc k) id)
          (InFlight P law Q stable k id)
          (execute P id decision job)
  unfolding execute
  InFlight-execute k id decision job = Leads-bind (Keeps-raise_if _ _) fewer λ _.
      Leads-bind (InFlight-read_finding (suc k) id) fewer λ before.
        Leads-bind (Keeps-raise_if _ _) fewer λ _.
          Leads-bind
            (InFlight-update P law Q stable (suc k) id _ (λ j. refl) (λ j h. h) (λ j. refl)) fewer
            λ dispatched. Leads-last (InFlight-approve k id _) λ a.
              Keeps-bind (InFlight-update P law Q stable k id _ (λ j. refl) (λ j h. h) (λ j. refl))
                λ answered. Keeps-bind (InFlight-read_finding k id) λ after.
                  Keeps-bind
                    (InFlight-update P law Q stable k id _ (λ j. refl) (λ j h. h) (λ j. refl))
                    λ read. InFlight-settle k id decision a after read
    where
      fewer :
          (s : PilotService W J B)
          → InFlight P law Q stable (suc k) id s
          → InFlight P law Q stable k id s
      fewer = InFlight-fewer P law Q stable k id

  InFlight-give_up : (k : ℕ) (id : String) → Keeps (InFlight P law Q stable k id) (give_up P id)
  unfolding give_up
  InFlight-give_up k id =
      Keeps-bind (Keeps-gets _)
        λ now. InFlight-update P law Q stable k id _ (λ j. refl) (λ j h. refl) (λ j. refl)

  pub InFlight-try :
      (k : ℕ) (id : String) (decision : Decision) (job : Job)
      → Leads
          (InFlight P law Q stable (suc k) id)
          (InFlight P law Q stable k id)
          (try_except P (execute P id decision job) (give_up P id))
  unfolding try_except
  InFlight-try k id decision job = record {
    at = λ s h. go (execute P id decision job s) ((InFlight-execute k id decision job).at s h);
  }
    where
      go :
          (x : Outcome Job × PilotService W J B)
          → InFlight P law Q stable k id x.1
          → InFlight P law Q stable k id (Service.handle P (give_up P id) x).1
      go (ok a, t) h = h
      go (raised e, t) h = (InFlight-give_up k id).at t h

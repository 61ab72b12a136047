-- ===== src/Jobs/Lasting.antt =====
-- pilot_v1/service.py: a stable property of the jobs holds after any calls and restarts.
use aws_secops.Prelude.{
  Bool, List, Option, [], inl, inr, none, some, true, ℕ, ◌+◌, ◌∷◌, ◌≡◌, false, if◌then◌else◌, refl,
}
use aws_secops.Effects
use aws_secops.Effects.{
  ◌>>=◌, ◌>>◌, Exec, Outcome, Error, gets, lift, modify, ok, pure, raise, raise_if, raised,
  continue,
}
use aws_secops.Effects.Keeps.{
  Keeps, Keeps-bind, Keeps-then, Keeps-gets, Keeps-raise_if, Keeps-raise,
}
use aws_secops.Backlog.Store.{FindingBacklog}
use aws_secops.Backlog.Store as BacklogStore
use aws_secops.Backlog.Types.{Entries}
use aws_secops.Backlog.History.{run_change}
use aws_secops.Jobs.Types.{Job}
use aws_secops.Jobs.Store.{JobStore, open_store}
use aws_secops.Jobs.Service.{Outside, PilotService, Decision, on_jobs, on_findings}
use aws_secops.Jobs.Decide.{reject_shown, approve_shown, refresh_backlog, decide_shown}
use aws_secops.Jobs.Stable.{IsStable, OnFile}
use aws_secops.Jobs.Carried.{Held, remediation_calls}
use aws_secops.Jobs.Kept.{Held-decide_job, Held-show, Held-refresh_backlog}
use aws_secops.Jobs.Created.{Held-create_job}
use aws_secops.Jobs.Checked.{Held-check}
use aws_secops.Jobs.Opened.{Opened, open_store-Opened}
use aws_secops.Jobs.History.{
  Operation, create_call, decide_call, reject_call, approve_call, backlog_call, check_call,
  show_call, restart, System, start, started, run_call, run_operation, run_operations, AreNew,
  IsNewFor, stored, first_state,
}

module _ {W J B : Type 0} (P : Outside W J B)
    (law : (js : List Job) → P.jobs.decode (P.jobs.encode js) ≡ some js) (Q : ℕ → List Job → Type 0)
    (stable : IsStable Q) where
  -- The property holds of the file, and of the jobs in memory if there is a service.
  pub record Lasts (y : System W J B) : Type 0 where
    pub has_file : y.service.jobs.path ≡ true
    pub on_file : OnFile P.jobs (Q (0 + remediation_calls y.service.calls)) y.service.jobs.file
    pub in_memory : y.running ≡ true → Q (0 + remediation_calls y.service.calls) y.service.jobs.jobs

  Lasts-Held :
      (s : PilotService W J B) (b : Bool)
      → Held P law Q stable 0 s
      → Lasts (record { service = s; running = b })
  Lasts-Held s b h = record {
    has_file = h.kept.has_file;
    on_file = h.kept.on_file;
    in_memory = λ _. h.kept.in_memory;
  }

  Held-on_findings :
      {A : Type 0} (m : Exec (FindingBacklog W B) A)
      → Keeps (Held P law Q stable 0) (on_findings P m)
  unfolding on_findings
  Held-on_findings m = record {
    at = λ s h. record {
      kept = record {
        has_file = h.kept.has_file;
        in_memory = h.kept.in_memory;
        on_file = h.kept.on_file;
      };
    };
  }

  Held-decide_shown :
      (o : Option Job) (decision : Decision) (e : Error)
      → Keeps (Held P law Q stable 0) (decide_shown P o decision e)
  Held-decide_shown none decision e = Keeps-raise e
  Held-decide_shown (some j) decision e = Held-decide_job P law Q stable j.job_id decision

  Held-run_call :
      (o : Operation) (s : PilotService W J B)
      → IsNewFor P o s
      → Held P law Q stable 0 s
      → Held P law Q stable 0 (run_call P o s)
  unfolding run_call reject_shown approve_shown
  Held-run_call (create_call id finding_id) s new h =
      Held-create_job P law Q stable id finding_id s new h
  Held-run_call (decide_call id decision) s new h =
      (Held-decide_job P law Q stable id decision).at s h
  Held-run_call reject_call s new h =
      (Keeps-bind (Keeps-gets _) λ workflow.
          Keeps-then (Keeps-raise_if _ _)
            (Keeps-bind (Keeps-gets _) λ job. Held-decide_shown job _ _)).at
        s h
  Held-run_call (approve_call environment) s new h =
      (Keeps-bind (Keeps-gets _) λ workflow. Keeps-then (Keeps-raise_if _ _) (
          Keeps-then (Keeps-raise_if _ _)
            (Keeps-bind (Keeps-gets _) λ job. Held-decide_shown job _ _))).at
        s h
  Held-run_call (backlog_call c) s new h = (Held-on_findings (run_change P.backlog c)).at s h
  Held-run_call (check_call id) s new h = Held-check P law Q stable id s new h
  Held-run_call (show_call shown) s new h = record {
    kept = record {
      has_file = h.kept.has_file;
      in_memory = h.kept.in_memory;
      on_file = h.kept.on_file;
    };
  }
  Held-run_call restart s new h = h

  Lasts-ended :
      (x : Outcome (Unit {0}) × PilotService W J B)
      → Held P law Q stable 0 x.1
      → Lasts (started P x)
  Lasts-ended (r, s) h = Lasts-Held s _ h

  -- The rest of `__init__`, after the job file is read.
  rest_of_start :
      (x : Outcome (Unit {0}) × JobStore W J) (s : PilotService W J B)
      → Opened P.jobs law Q stable (0 + remediation_calls s.calls) x
      → Lasts (
          started P (
            Effects.continue x.0
              (λ _.
                modify (λ (t : PilotService W J B). record t { state = first_state })
                >> refresh_backlog P)
              (record s { jobs = x.1 })))
  rest_of_start (ok u, t) s (inl k) =
      Lasts-ended
        ((modify (λ (t : PilotService W J B). record t { state = first_state })
            >> refresh_backlog P)
          (record s { jobs = t }))
        ((Keeps-then (Held-show P law Q stable 0 _) (Held-refresh_backlog P law Q stable 0)).at
          (record s { jobs = t }) (record { kept = k }))
  rest_of_start (ok u, t) s (inr (e, stopped, path, held)) = absurd (cc stopped)
  rest_of_start (raised e, t) s (inl k) = record {
    has_file = k.has_file;
    on_file = k.on_file;
    in_memory = λ up. absurd (cc up);
  }
  rest_of_start (raised e, t) s (inr (x, stopped, path, held)) = record {
    has_file = path;
    on_file = held;
    in_memory = λ up. absurd (cc up);
  }

  Lasts-start :
      (s : PilotService W J B)
      → s.jobs.path ≡ true
      → OnFile P.jobs (Q (0 + remediation_calls s.calls)) s.jobs.file
      → Lasts (started P (start P s))
  unfolding start ◌>>=◌ on_jobs
  Lasts-start s path held =
      go (BacklogStore.load P.backlog (stored P s.findings.path s.findings.file))
    where
      go :
          (r : Outcome Entries)
          → Lasts (
              started P (
                Effects.continue r
                  (λ d.
                    modify (λ (t : PilotService W J B). record t {
                      findings = record (t.findings) { findings = d };
                    })
                    >> (on_jobs P (open_store P.jobs)
                        >> (modify (λ (t : PilotService W J B). record t { state = first_state })
                            >> refresh_backlog P)))
                  s))
      go (ok d) =
          rest_of_start (open_store P.jobs s.jobs)
            (record s { findings = record (s.findings) { findings = d } })
            (open_store-Opened P.jobs law Q stable _ s.jobs path held)
      go (raised e) = record { has_file = path; on_file = held; in_memory = λ up. absurd (cc up) }

  called :
      (o : Operation) (y : System W J B) (b : Bool)
      → y.running ≡ b
      → IsNewFor P o y.service
      → Lasts y
      → Lasts (if b then record y { service = run_call P o y.service } else y)
  called o y true up new h = Lasts-Held _ _ (
      Held-run_call o y.service new (record {
        kept = record { has_file = h.has_file; in_memory = h.in_memory up; on_file = h.on_file };
      }))
  called o y false up new h = h

  Lasts-run_operation :
      (o : Operation) (y : System W J B)
      → IsNewFor P o y.service
      → Lasts y
      → Lasts (run_operation P o y)
  unfolding run_operation
  Lasts-run_operation restart y new h = Lasts-start y.service h.has_file h.on_file
  Lasts-run_operation o y new h = called o y y.running refl new h

  -- What a stable property says of the jobs lasts over any calls and restarts.
  pub Lasts-run_operations :
      (os : List Operation) (y : System W J B)
      → AreNew P os y
      → Lasts y
      → Lasts (run_operations P os y)
  unfolding run_operations AreNew
  Lasts-run_operations [] y new h = h
  Lasts-run_operations (o ∷ os) y (new, rest) h =
      Lasts-run_operations os (run_operation P o y) rest (Lasts-run_operation o y new h)

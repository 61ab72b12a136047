-- ===== src/Jobs/Checked.antt =====
-- pilot_v1/service.py: `check` keeps a stable property of the jobs.
use aws_secops.Prelude.{Bool, List, String, false, some, true, ℕ, ◌≡◌}
use aws_secops.Effects.{◌>>=◌, Exec, modify, pure}
use aws_secops.Effects.Keeps.{Keeps, Keeps-then, Keeps-gets, Keeps-lift, Keeps-raise_if}
use aws_secops.Effects.Leads.{Leads, Leads-bind, Leads-last}
use aws_secops.Findings.Types.{Finding}
use aws_secops.Backlog.Store.{FindingBacklog}
use aws_secops.Jobs.Types.{Job}
use aws_secops.Jobs.Service.{Outside, PilotService, State, on_findings}
use aws_secops.Jobs.Check.{call_harness, check, create_checked}
use aws_secops.Jobs.Stable.{IsStable}
use aws_secops.Jobs.Carried.{Held}
use aws_secops.Jobs.Kept.{Held-refresh_backlog, Held-show}
use aws_secops.Jobs.Created.{Held-create, IsNew, Ready, Ready-Held}

module _ {W J B : Type 0} (P : Outside W J B)
    (law : (js : List Job) → P.jobs.decode (P.jobs.encode js) ≡ some js) (Q : ℕ → List Job → Type 0)
    (stable : IsStable Q) where
  abbrev IsReady : String → PilotService W J B → Type 0
  IsReady id s = Ready P law Q stable id s

  -- The jobs, their file and the calls are those of before.
  moved-Ready :
      (id : String) (s : PilotService W J B) (w : W) (findings : FindingBacklog W B) (shown : State)
      → IsReady id s
      → IsReady id
          (record s { jobs = record (s.jobs) { world = w }; findings = findings; state = shown })
  moved-Ready id s w findings shown h = record {
    in_flight = record {
      held = record {
        kept = record {
          has_file = h.in_flight.held.kept.has_file;
          in_memory = h.in_flight.held.kept.in_memory;
          on_file = h.in_flight.held.kept.on_file;
        };
      };
      decided = h.in_flight.decided;
    };
    is_new = h.is_new;
  }

  Ready-call_harness : (id : String) → Keeps (IsReady id) (call_harness P)
  unfolding call_harness
  Ready-call_harness id = record { at = λ s h. moved-Ready id s _ _ _ h }

  Ready-on_findings :
      {A : Type 0} (id : String) (m : Exec (FindingBacklog W B) A)
      → Keeps (IsReady id) (on_findings P m)
  unfolding on_findings
  Ready-on_findings id m = record { at = λ s h. moved-Ready id s _ _ _ h }

  Ready-show :
      (id : String) (f : PilotService W J B → State)
      → Keeps (IsReady id) (modify (λ s. record s { state = f s }))
  unfolding ◌>>=◌
  Ready-show id f = record { at = λ s h. moved-Ready id s s.jobs.world s.findings _ h }

  weaker : (id : String) (s : PilotService W J B) → IsReady id s → Held P law Q stable 0 s
  weaker id s h = h.in_flight.held

  pure-Leads : (id : String) → Leads (IsReady id) (Held P law Q stable 0) (pure tt)
  unfolding ◌>>=◌
  pure-Leads id = record { at = λ s h. weaker id s h }

  create_checked-Leads :
      (b : Bool) (id : String) (f : Finding)
      → Leads (IsReady id) (Held P law Q stable 0) (create_checked P b id f)
  unfolding create_checked
  create_checked-Leads false id f = pure-Leads id
  create_checked-Leads true id f = Leads-bind (Keeps-gets _) (weaker id) λ d.
      Leads-bind (Keeps-lift _) (weaker id) λ views.
        Leads-bind (Keeps-lift _) (weaker id) λ item.
          Leads-last (Held-create P law Q stable id item) λ job. Held-show P law Q stable 0 _

  check-Leads : (id : String) → Leads (IsReady id) (Held P law Q stable 0) (check P id)
  unfolding check
  check-Leads id = Leads-bind (Ready-call_harness id) (weaker id) λ result.
      Leads-bind (Keeps-lift _) (weaker id) λ finding.
        Leads-bind (Keeps-raise_if _ _) (weaker id) λ _.
          Leads-bind (Keeps-gets _) (weaker id) λ now.
            Leads-bind (Keeps-lift _) (weaker id) λ normalized.
              Leads-bind (Ready-on_findings id _) (weaker id) λ _.
                Leads-bind (Keeps-lift _) (weaker id) λ enriched.
                  Leads-bind (Keeps-gets _) (weaker id) λ d.
                    Leads-bind (Keeps-lift _) (weaker id) λ shown.
                      Leads-bind (Ready-show id _) (weaker id) λ _.
                        Leads-last (create_checked-Leads _ id normalized)
                          λ _. Keeps-then (Held-refresh_backlog P law Q stable 0) (Keeps-gets _)

  -- `check` with a new id keeps the property, whatever it does.
  pub Held-check :
      (id : String) (s : PilotService W J B)
      → IsNew P law Q stable id s
      → Held P law Q stable 0 s
      → Held P law Q stable 0 (check P id s).1
  Held-check id s new h = (check-Leads id).at s (Ready-Held P law Q stable id s new h)

-- ===== src/Jobs/Created.antt =====
-- pilot_v1/service.py: `create_job` keeps a stable property of the jobs.
use aws_secops.Prelude.{List, Option, String, [], any, arith, false, find, none, some, ℕ, ◌∷◌, ◌≡◌}
use aws_secops.Effects.{◌>>=◌}
use aws_secops.Effects.Keeps.{Keeps, Keeps-bind, Keeps-then, Keeps-gets, Keeps-lift, Keeps-raise_if}
use aws_secops.Effects.Leads.{Leads, Leads-bind, Leads-last}
use aws_secops.Backlog.Views.{View}
use aws_secops.Jobs.Types.{Job}
use aws_secops.Jobs.Store.{has_id, put, create, create_from, new_job, JobStore, is_active_for}
use aws_secops.Jobs.Saving.{then-Saved}
use aws_secops.Jobs.Service.{Outside, PilotService, on_jobs, call_gateway}
use aws_secops.Jobs.Decide.{create_job, read_finding}
use aws_secops.Jobs.Stable.{IsStable, IsKept, Saved-IsKept}
use aws_secops.Jobs.Carried.{Held, InFlight}
use aws_secops.Jobs.Decided.{InFlight-read_finding}
use aws_secops.Jobs.Kept.{Held-refresh_backlog, Held-show}

module _ {W J B : Type 0} (P : Outside W J B)
    (law : (js : List Job) → P.jobs.decode (P.jobs.encode js) ≡ some js) (Q : ℕ → List Job → Type 0)
    (stable : IsStable Q) where
  -- No job has that id.
  abbrev pub IsNew : String → PilotService W J B → Type 0
  IsNew id s = any (has_id id) s.jobs.jobs ≡ false

  pub record Ready (id : String) (s : PilotService W J B) : Type 0 where
    pub in_flight : InFlight P law Q stable 0 id s
    pub is_new : IsNew id s

  IsNew-read_finding : (id : String) → Keeps (IsNew id) (read_finding P)
  unfolding read_finding call_gateway
  IsNew-read_finding id = Keeps-bind (record { at = λ s h. h }) λ response. Keeps-lift _

  Ready-read_finding : (id : String) → Keeps (Ready id) (read_finding P)
  Ready-read_finding id = record {
    at = λ s h. record {
      in_flight = (InFlight-read_finding P law Q stable 0 id).at s h.in_flight;
      is_new = (IsNew-read_finding id).at s h.is_new;
    };
  }

  create_from-IsKept :
      (n : ℕ) (o : Option Job) (id : String) (v : View) (s : JobStore W J)
      → any (has_id id) s.jobs ≡ false
      → IsKept P.jobs (Q n) s
      → IsKept P.jobs (Q n) (create_from P.jobs o id v s).1
  unfolding ◌>>=◌
  create_from-IsKept n (some j) id v s h k = k
  create_from-IsKept n none id v s h k =
      let new : Job = new_job id v (P.jobs.now s.world) in
      Saved-IsKept P.jobs law k (stable.add n s.jobs new h k.in_memory)
        (then-Saved P.jobs (put new s.jobs) new s k.has_file)

  pub Held-create :
      (id : String) (v : View)
      → Leads (Ready id) (Held P law Q stable 0) (on_jobs P (create P.jobs id v))
  unfolding on_jobs create ◌>>=◌
  Held-create id v = record {
    at = λ s h. record {
      kept =
          create_from-IsKept _ (find (is_active_for v.tracked.finding_id) s.jobs.jobs) id v s.jobs
            h.is_new h.in_flight.held.kept;
    };
  }

  create_job-Leads :
      (id finding_id : String)
      → Leads (Ready id) (Held P law Q stable 0) (create_job P id finding_id)
  unfolding create_job
  create_job-Leads id finding_id = Leads-bind (Keeps-gets _) weaker λ d.
      Leads-bind (Keeps-lift _) weaker λ views. Leads-bind (Keeps-lift _) weaker λ item.
        Leads-bind (Ready-read_finding id) weaker λ provider.
          Leads-bind (Keeps-gets _) weaker λ now. Leads-bind (Keeps-lift _) weaker λ current.
            Leads-bind (Keeps-raise_if _ _) weaker λ _. Leads-last (Held-create id item) λ job.
              Keeps-then (Held-show P law Q stable 0 _)
                (Keeps-then (Held-refresh_backlog P law Q stable 0) (Keeps-gets _))
    where
      weaker : (s : PilotService W J B) → Ready id s → Held P law Q stable 0 s
      weaker s h = h.in_flight.held

  -- A new id, before the job is created.
  pub Ready-Held :
      (id : String) (s : PilotService W J B) → IsNew id s → Held P law Q stable 0 s → Ready id s
  Ready-Held id s new h = record {
    in_flight = record { held = h; decided = λ j found. absurd (nowhere s.jobs.jobs j new found) };
    is_new = new;
  }
    where
      nowhere :
          (js : List Job) (j : Job) → any (has_id id) js ≡ false → ¬ (find (has_id id) js ≡ some j)
      nowhere [] j n f = cc f
      nowhere (k ∷ ks) j n f = ground (arith, nowhere ks j)

  -- `create_job` with a new id keeps the property, whatever it does.
  pub Held-create_job :
      (id finding_id : String) (s : PilotService W J B)
      → IsNew id s
      → Held P law Q stable 0 s
      → Held P law Q stable 0 (create_job P id finding_id s).1
  Held-create_job id finding_id s new h =
      (create_job-Leads id finding_id).at s (Ready-Held id s new h)

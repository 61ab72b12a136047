-- ===== src/Jobs/Carried.antt =====
-- pilot_v1/service.py: a stable property of the jobs is kept by the service's calls.
use aws_secops.Backlog.Store.{FindingBacklog}
use aws_secops.Jobs.Laws.{find-has_id}
use aws_secops.Prelude.{
  Bool, List, String, arith, count, false, find, if◌then◌else◌, some, subst, sym, ℕ, ◌+◌, ◌∙◌, ◌≡◌,
  inl, inr, ◌⊎◌, suc,
}
use aws_secops.Effects.{◌>>=◌, Exec, modify}
use aws_secops.Effects.Keeps.{Keeps}
use aws_secops.Effects.Leads.{Leads}
use aws_secops.Jobs.Types.{Job, is_pending}
use aws_secops.Jobs.Store as Store
use aws_secops.Jobs.Store.{has_id, put, update, create, save, JobStore}
use aws_secops.Jobs.Service.{State, Outside, PilotService, Call, on_jobs, on_findings, call_gateway}
use aws_secops.Jobs.Stable.{IsStable, IsKept, IsKept-map, update-IsKept, update-find}

abbrev pub remediation_calls : {J : Type 0} → List (Call J) → ℕ
remediation_calls {J} calls = count (λ (c : Call J). c.arguments.approved) calls

module _ {W J B : Type 0} (P : Outside W J B)
    (law : (js : List Job) → P.jobs.decode (P.jobs.encode js) ≡ some js) (Q : ℕ → List Job → Type 0)
    (stable : IsStable Q) where
  -- `k` more remediation calls may follow.
  pub record Held (k : ℕ) (s : PilotService W J B) : Type 0 where
    pub kept : IsKept P.jobs (Q (k + remediation_calls s.calls)) s.jobs

  -- The job of that id has been decided.
  pub record InFlight (k : ℕ) (id : String) (s : PilotService W J B) : Type 0 where
    pub held : Held k s
    pub decided : (j : Job) → find (has_id id) s.jobs.jobs ≡ some j → is_pending j.state ≡ false

  moved :
      {K : List Job → Type 0} (s : Store.JobStore W J) (w : W)
      → IsKept P.jobs K s
      → IsKept P.jobs K (record s { world = w })
  moved s w h = record { has_file = h.has_file; in_memory = h.in_memory; on_file = h.on_file }

  pub InFlight-call :
      (n k : ℕ) (id tool environment : String) (asked : Bool)
      → n ≡ k + (if asked then 1 else 0)
      → Leads
          (InFlight n id)
          (InFlight k id)
          (call_gateway P tool (record { environment = environment; approved = asked }))
  unfolding call_gateway
  InFlight-call n k id tool environment asked e = record {
    at = λ s h. record {
      held = record {
        kept =
            moved s.jobs _
              (IsKept-map P.jobs (λ js. subst (λ m. Q m js) (shifted s.calls)) h.held.kept);
      };
      decided = h.decided;
    };
  }
    where
      shifted :
          (calls : List (Call J))
          → n + remediation_calls calls ≡ k + ((if asked then 1 else 0) + remediation_calls calls)
      shifted calls = omega (arith, e)

  pub InFlight-fewer :
      (k : ℕ) (id : String) (s : PilotService W J B) → InFlight (suc k) id s → InFlight k id s
  InFlight-fewer k id s h = record {
    held = record {
      kept =
          IsKept-map P.jobs
            (λ js q.
              stable.fewer (k + remediation_calls s.calls) js
                (subst (λ m. Q m js) (pulled s.calls) q))
            h.held.kept;
    };
    decided = h.decided;
  }
    where
      pulled :
          (calls : List (Call J))
          → suc k + remediation_calls calls ≡ suc (k + remediation_calls calls)
      pulled calls = omega arith

  -- A change of what the interface shows.
  pub InFlight-show :
      (k : ℕ) (id : String) (f : PilotService W J B → State)
      → Keeps (InFlight k id) (modify (λ s. record s { state = f s }))
  unfolding ◌>>=◌
  InFlight-show k id f = record {
    at = λ s h. record { held = record { kept = h.held.kept }; decided = h.decided };
  }

  pub InFlight-on_findings :
      {A : Type 0} (k : ℕ) (id : String) (m : Exec (FindingBacklog W B) A)
      → Keeps (InFlight k id) (on_findings P m)
  unfolding on_findings
  InFlight-on_findings k id m = record {
    at = λ s h. record {
      held = record {
        kept = record {
          has_file = h.held.kept.has_file;
          in_memory = h.held.kept.in_memory;
          on_file = h.held.kept.on_file;
        };
      };
      decided = h.decided;
    };
  }

  -- An update of a job that has been decided.
  pub InFlight-update :
      (k : ℕ) (id : String) (values : Job → Job)
      → ((j : Job) → (values j).job_id ≡ j.job_id)
      → ((j : Job) → is_pending j.state ≡ false → is_pending (values j).state ≡ false)
      → ((j : Job) → (values j).human_decision ≡ j.human_decision)
      → Keeps (InFlight k id) (on_jobs P (update P.jobs id values))
  unfolding on_jobs
  InFlight-update k id values same_id decided same_human = record {
    at = λ s h. record {
      held = record {
        kept =
            update-IsKept P.jobs law id values s.jobs
              (λ j there.
                stable.change _ s.jobs.jobs j (values j)
                  (subst (λ n. find (has_id n) s.jobs.jobs ≡ some j)
                    (sym (same_id j ∙ find-has_id id j s.jobs.jobs there)) there)
                  (decided j (h.decided j there)) (λ _. same_human j) h.held.kept.in_memory)
              h.held.kept;
      };
      decided = λ j there.
          after s h j (update-find P.jobs id values s.jobs h.held.kept.has_file same_id j there);
    };
  }
    where
      after :
          (s : PilotService W J B)
          → InFlight k id s
          → (j : Job)
          → ((j0 : Job) × (find (has_id id) s.jobs.jobs ≡ some j0) × (j ≡ values j0))
            ⊎ (find (has_id id) s.jobs.jobs ≡ some j)
          → is_pending j.state ≡ false
      after s h j (inl (j0, there, is_new)) =
          subst (λ (x : Job). is_pending x.state ≡ false) (sym is_new)
            (decided j0 (h.decided j0 there))
      after s h j (inr there) = h.decided j there

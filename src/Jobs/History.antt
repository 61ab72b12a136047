-- ===== src/Jobs/History.antt =====
-- pilot_v1/service.py: the start of a service, and any calls of it, one after another. The server of
-- server.py takes one request at a time.
use aws_secops.Prelude.{
  Bool, List, Option, String, [], any, false, if◌then◌else◌, none, true, ◌∷◌, ◌≡◌,
}
use aws_secops.Effects.{◌>>=◌, ◌>>◌, Outcome, ok, raised, gets, lift, modify}
use aws_secops.Backlog.Store as BacklogStore
use aws_secops.Backlog.History.{Change, run_change}
use aws_secops.Jobs.Store.{open_store, has_id}
use aws_secops.Jobs.Service.{Outside, PilotService, State, Decision, M, on_jobs, on_findings}
use aws_secops.Jobs.Check.{check}
use aws_secops.Jobs.Decide.{create_job, decide_job, reject_shown, approve_shown, refresh_backlog}

abbrev pub first_state : State
first_state = record {
  stage = "READY";
  workflow = none;
  message = "Run the provider check to begin.";
  explanation = none;
  finding = none;
  job = none;
  audit = none;
  backlog = none;
  jobs = [];
}

pub data Operation : Type 0 where
  -- with the `uuid4().hex` that it draws
  create_call : String → String → Operation
  decide_call : String → Decision → Operation
  reject_call : Operation
  approve_call : String → Operation
  -- `check`, with the id that it may draw
  check_call : String → Operation
  backlog_call : Change → Operation
  -- What `import_source`, `sync_provider` and `check_s3` do to `self.state`: they put any state that
  -- one likes. What they do to the backlog is a `backlog_call`.
  show_call : State → Operation
  -- the process ends, and a new service is made
  restart : Operation

-- `running`: whether the last start has returned; a service that has not started takes no calls.
pub record System (W J B : Type 0) : Type 0 where
  pub service : PilotService W J B
  pub running : Bool

module _ {W J B : Type 0} (P : Outside W J B) where
  abbrev pub stored : Bool → Option B → Option B
  stored has_file file = if has_file then file else none

  -- `__init__`
  unfoldable pub start : M P (Unit {0})
  start = do
    bytes ← gets (λ s. stored s.findings.path s.findings.file)
    d ← lift (BacklogStore.load P.backlog bytes)
    modify (λ s. record s { findings = record (s.findings) { findings = d } })
    on_jobs P (open_store P.jobs)
    modify (λ s. record s { state = first_state })
    refresh_backlog P

  abbrev pub returned : {A : Type 0} → Outcome A → Bool
  returned (ok a) = true
  returned (raised e) = false

  abbrev pub started : Outcome (Unit {0}) × PilotService W J B → System W J B
  started (r, s) = record { service = s; running = returned r }

  -- A call; what it returns or raises goes to the client.
  unfoldable pub run_call : Operation → PilotService W J B → PilotService W J B
  run_call (create_call id finding_id) s = (create_job P id finding_id s).1
  run_call (decide_call id decision) s = (decide_job P id decision s).1
  run_call reject_call s = (reject_shown P s).1
  run_call (approve_call environment) s = (approve_shown P environment s).1
  run_call (backlog_call c) s = (on_findings P (run_change P.backlog c) s).1
  run_call (check_call id) s = (check P id s).1
  run_call (show_call shown) s = record s { state = shown }
  run_call restart s = s

  unfoldable pub run_operation : Operation → System W J B → System W J B
  run_operation restart y = started (start y.service)
  run_operation o y = if y.running then record y { service = run_call o y.service } else y

  unfoldable pub run_operations : List Operation → System W J B → System W J B
  run_operations [] y = y
  run_operations (o ∷ os) y = run_operations os (run_operation o y)

  -- The ids that are drawn are new, each at its time.
  abbrev pub IsNewFor : Operation → PilotService W J B → Type 0
  IsNewFor (create_call id finding_id) s = any (has_id id) s.jobs.jobs ≡ false
  IsNewFor (check_call id) s = any (has_id id) s.jobs.jobs ≡ false
  IsNewFor _ s = Unit

  unfoldable pub AreNew : List Operation → System W J B → Type 0
  AreNew [] y = Unit
  AreNew (o ∷ os) y = IsNewFor o y.service × AreNew os (run_operation o y)

-- ===== src/Jobs/Decide.antt =====
-- pilot_v1/service.py: `_read_finding`, `create_job`, `decide_job`, `approve` and `reject`.
use aws_secops.Prelude.{
  Bool, Option, String, [], false, find, if◌then◌else◌, none, not, some, true, ◌&&◌, ◌||◌, ◌∷◌, ◌≟◌,
}
use aws_secops.Effects.{
  ◌>>=◌, ◌>>◌, Outcome, Error, gets, lift, modify, ok, raise, raise_if, raised, runtime_error,
  value_error,
}
use aws_secops.Findings.Types.{Fields, Value, text, other, get, Finding}
use aws_secops.Findings.Normalize.{is_text, normalize_sg}
use aws_secops.Backlog.Merge.{fields_of}
use aws_secops.Backlog.Store.{upsert}
use aws_secops.Backlog.Views.{View, open_findings, summary}
use aws_secops.Jobs.Types.{Job, failed, executing, rejected, denied, completed, is_pending}
use aws_secops.Jobs.Store as Store
use aws_secops.Jobs.Store.{update, create, history}
use aws_secops.Jobs.Gateway.{AuditRecord, remediation_outcome, finding_of_response}
use aws_secops.Jobs.Service.{
  Outside, PilotService, M, on_jobs, on_findings, call_gateway, try_except, Decision, word,
  is_reject, is_deny_test, State, Audit,
}

-- `after["status"]`
abbrev pub text_of : Value → String
text_of (text s) = s
text_of (other b) = ""

-- `all(finding.get(key) == job[key] for key in ("resource_id", "control"))`
abbrev pub matches : Fields → Job → Bool
matches f j = is_text j.resource_id (get "resource_id" f) && is_text j.control (get "control" f)

abbrev pub environment_of : Decision → String
environment_of d = if is_deny_test d then "prod" else "dev"

abbrev pub is_denial : AuditRecord → Bool
is_denial a = a.gateway_decision ≟ "DENY"

abbrev pub expected_status : AuditRecord → String
expected_status a = if is_denial a then "NON_COMPLIANT" else "COMPLIANT"

-- The fields that each step of `decide_job` updates.

abbrev pub as_rejected : String → Job → Job
as_rejected now j = record j {
  state = rejected;
  human_decision = "REJECT";
  completed_at = some now;
  message = "REJECTED — no Gateway or Lambda call; no AWS change.";
}

abbrev pub as_executing : Job → Job
as_executing j = record j {
  state = executing;
  human_decision = "APPROVE";
  message = "Execution started; no automatic retry.";
}

abbrev pub as_dispatched : Job → Job
as_dispatched j = record j { changed = none; policy_decision = "UNKNOWN" }

abbrev pub as_answered : AuditRecord → Job → Job
as_answered a j = record j { changed = some a.changed; policy_decision = a.gateway_decision }

abbrev pub as_read : Fields → Job → Job
as_read after j = record j { provider_after = text_of (get "status" after) }

abbrev pub as_done : AuditRecord → String → Job → Job
as_done a now j = record j {
  state = if is_denial a then denied else completed;
  completed_at = some now;
  message =
      if is_denial a
      then "DENIED — Gateway Policy blocked the synthetic request; no remediation."
      else "COMPLETED — exact DEV action allowed; provider re-read COMPLIANT.";
}

abbrev pub as_failed : String → Job → Job
as_failed now j = record j {
  state = failed;
  completed_at = some now;
  message =
      "FAILED — check provider and local prerequisites. No automatic retry; unknown change is not zero change.";
}

module _ {W J B : Type 0} (P : Outside W J B) where
  -- `_read_finding`
  unfoldable pub read_finding : M P Fields
  read_finding = do
    response ←
        call_gateway P P.config.read_tool_name (record { environment = "dev"; approved = false })
    lift (finding_of_response P.parse response)

  -- `approve_remediation`
  unfoldable pub approve_remediation : String → M P AuditRecord
  approve_remediation environment = do
    raise_if (not (environment ≟ "dev") && not (environment ≟ "prod"))
        (value_error "environment must be dev or synthetic prod")
    response ←
        call_gateway P P.config.remediation_tool_name
          (record { environment = environment; approved = true })
    lift (remediation_outcome P.parse P.config.remediation_tool_name response)

  abbrev pub clock : PilotService W J B → String
  clock s = P.jobs.now s.jobs.world

  -- `_refresh_backlog`
  unfoldable pub refresh_backlog : M P (Unit {0})
  refresh_backlog = do
    d ← gets (λ s. s.findings.findings)
    shown ← lift (summary d)
    modify (λ s. record s {
      state = record (s.state) { backlog = some shown; jobs = history P.jobs s.jobs.jobs };
    })

  -- The `try` block of `decide_job`; `job` is the job as it was set to EXECUTING.
  unfoldable pub settle : String → Decision → AuditRecord → Fields → Job → M P Job
  settle id decision a after job = do
    raise_if (not (matches after job) || not (is_text (expected_status a) (get "status" after)))
        (runtime_error "independent provider verification failed")
    raise_if (is_deny_test decision && not (is_denial a))
        (runtime_error "synthetic PROD unexpectedly allowed")
    now ← gets clock
    finding ← lift (normalize_sg P.backlog.library after none now)
    on_findings P (upsert P.backlog (fields_of P.backlog.library finding ∷ []) "AWS_PROVIDER")
    modify (λ s. record s { state = record (s.state) { finding = some after } })
    ended ← gets clock
    on_jobs P (update P.jobs id (as_done a ended))

  unfoldable pub execute : String → Decision → Job → M P Job
  execute id decision job = do
    raise_if (not (P.config.profile ≟ "amit") || not (P.config.region ≟ "ap-southeast-1"))
        (runtime_error "unexpected AWS context")
    before ← read_finding
    raise_if (not (is_text "NON_COMPLIANT" (get "status" before)) || not (matches before job))
        (runtime_error "provider no longer matches the approved exact action")
    dispatched ← on_jobs P (update P.jobs id as_dispatched)
    a ← approve_remediation (environment_of decision)
    answered ← on_jobs P (update P.jobs id (as_answered a))
    after ← read_finding
    read ← on_jobs P (update P.jobs id (as_read after))
    settle id decision a after read

  -- The `except` block of `decide_job`.
  unfoldable pub give_up : String → M P Job
  give_up id = do now ← gets clock; on_jobs P (update P.jobs id (as_failed now))

  unfoldable pub carry_out : String → Decision → M P Job
  carry_out id decision =
      if is_reject decision
      then gets clock >>= (λ now. on_jobs P (update P.jobs id (as_rejected now)))
      else on_jobs P (update P.jobs id as_executing)
        >>= (λ job. try_except P (execute id decision job) (give_up id))

  abbrev audit_of : Decision → Job → Audit
  audit_of decision j = record {
    human_decision = j.human_decision;
    policy_decision = j.policy_decision;
    provider_verification = j.provider_after;
    changed = j.changed;
    exact_tool = if is_reject decision then "NOT_CALLED" else P.config.remediation_tool_name;
  }

  -- `self.state.update(...)` at the end of `decide_job`
  abbrev pub show_decided : Decision → Job → PilotService W J B → PilotService W J B
  show_decided decision j s = record s {
    state = record (s.state) {
      stage = word j.state;
      job = some j;
      message = j.message;
      explanation = some j.message;
      audit = some (audit_of decision j);
    };
  }

  -- `decide_job` after the decision is carried out
  unfoldable pub show_outcome : Decision → Job → M P State
  show_outcome decision j = do
    modify (show_decided decision j)
    refresh_backlog
    gets (λ s. s.state)

  -- `decide_job` of the job that stands under the id
  abbrev pub decide_known : String → Decision → Job → M P State
  decide_known id decision job = do
    raise_if (not (is_pending job.state))
        (value_error "job is not pending; decisions are single-use and never replayed")
    decided ← carry_out id decision
    show_outcome decision decided

  -- `decide_job`
  unfoldable pub decide_job : String → Decision → M P State
  decide_job id decision = do job ← on_jobs P (Store.get P.jobs id); decide_known id decision job

  abbrev is_finding : String → View → Bool
  is_finding finding_id v = v.tracked.finding_id ≟ finding_id

  abbrev supported_item : Option View → Outcome View
  supported_item none = raised (
      value_error
        "only the supported direct Security Group finding may create a job; all others are PLAN_ONLY")
  supported_item (some v) =
      if v.added.action_eligibility ≟ "REMEDIATION_SUPPORTED"
      then ok v
      else raised (
          value_error
            "only the supported direct Security Group finding may create a job; all others are PLAN_ONLY")

  abbrev same_target : Finding → Finding → Bool
  same_target f g = f.resource_id ≟ g.resource_id && f.control ≟ g.control && f.status ≟ g.status

  -- `create_job`; `id` is the `uuid4().hex` that `JobStore.create` draws
  unfoldable pub create_job : String → String → M P State
  create_job id finding_id = do
    d ← gets (λ s. s.findings.findings)
    views ← lift (open_findings d)
    item ← lift (supported_item (find (is_finding finding_id) views))
    provider ← read_finding
    now ← gets clock
    current ← lift (normalize_sg P.backlog.library provider none now)
    raise_if (not (same_target current item.tracked.finding))
        (runtime_error "provider no longer matches the exact eligible finding; check again")
    job ← on_jobs P (create P.jobs id item)
    modify (λ s. record s { state = record (s.state) { job = some job } })
    refresh_backlog
    gets (λ s. s.state)

  abbrev is_sg : Option String → Bool
  is_sg none = false
  is_sg (some w) = w ≟ "sg"

  -- `self.state.get("job", {}).get("job_id")`, which `decide_job` does not know if it is missing
  abbrev pub decide_shown : Option Job → Decision → Error → M P State
  decide_shown none decision e = raise e
  decide_shown (some j) decision e = decide_job j.job_id decision

  -- `reject`
  unfoldable pub reject_shown : M P State
  reject_shown = do
    workflow ← gets (λ s. s.state.workflow)
    raise_if (not (is_sg workflow)) (runtime_error "run the Security Group provider check first")
    job ← gets (λ s. s.state.job)
    decide_shown job Decision.reject (value_error "unknown server-owned job ID")

  -- `approve`
  unfoldable pub approve_shown : String → M P State
  approve_shown environment = do
    workflow ← gets (λ s. s.state.workflow)
    raise_if (not (is_sg workflow)) (runtime_error "run the Security Group provider check first")
    raise_if (not (environment ≟ "dev") && not (environment ≟ "prod"))
        (value_error "environment must be dev or synthetic prod")
    job ← gets (λ s. s.state.job)
    decide_shown job (if environment ≟ "dev" then Decision.approve else Decision.deny_test)
        (runtime_error "current finding is PLAN_ONLY or has no pending job")

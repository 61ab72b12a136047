-- ===== src/Jobs/Service.antt =====
-- pilot_v1/service.py: `PilotService` with its jobs and its backlog. The world of the service is the
-- one of its job store.
use aws_secops.Prelude.{Bool, List, Option, String, false, true, ◌∷◌, ℕ}
use aws_secops.Effects.{Exec, Outcome, ok, raised}
use aws_secops.Findings.Types.{Fields}
use aws_secops.Backlog.Store.{FindingBacklog}
use aws_secops.Backlog.Types as Backlog
use aws_secops.Backlog.Views.{Summary}
use aws_secops.Jobs.Types.{
  Platform, Job, JobState, failed, pending, executing, rejected, denied, completed,
}
use aws_secops.Jobs.Store.{JobStore, has_id, create, update, history}
use aws_secops.Jobs.Store as Store
use aws_secops.Jobs.Gateway.{Response, Parsed}

-- The fields of `PilotConfig` that the jobs use, and `profile`.
pub record PilotConfig : Type 0 where
  pub profile : String
  pub region : String
  pub gateway_url : String
  pub read_tool_name : String
  pub remediation_tool_name : String

-- The arguments of a call: `environment`, and whether `approved` is there, as True.
pub record Arguments : Type 0 where
  pub environment : String
  pub approved : Bool

-- A call of the Gateway: its tool and its arguments, and what stood in the job file by then. The
-- log of the calls is an addition; no method reads it.
pub record Call (J : Type 0) : Type 0 where
  pub tool : String
  pub arguments : Arguments
  pub job_file : Option J

-- `audit`
pub record Audit : Type 0 where
  pub human_decision : String
  pub policy_decision : String
  pub provider_verification : String
  pub changed : Option Bool
  pub exact_tool : String

-- `self.state`
pub record State : Type 0 where
  pub stage : String
  pub workflow : Option String
  pub message : String
  pub explanation : Option String
  pub finding : Option Fields
  pub job : Option Job
  pub audit : Option Audit
  pub backlog : Option Summary
  pub jobs : List Job

pub record PilotService (W J B : Type 0) : Type 0 where
  pub jobs : JobStore W J
  pub findings : FindingBacklog W B
  pub state : State
  pub calls : List (Call J)

-- What `harness_call` answers: the number of its tool calls, their results, and its text.
pub record HarnessResult : Type 0 where
  pub tool_calls : ℕ
  pub tool_results : List Fields
  pub response : String

-- What the service takes from outside: those of its two stores, `gateway_call`, `harness_call`, and `json.loads` of
-- a text that should be an object.
pub record Outside (W J B : Type 0) : Type 0 where
  pub jobs : Platform W J
  pub backlog : Backlog.Platform W B
  pub config : PilotConfig
  pub gateway_call : PilotConfig → String → Arguments → W → Outcome Response × W
  pub harness_call : PilotConfig → String → W → Outcome HarnessResult × W
  pub parse : String → Option Parsed

pub data Decision : Type 0 where
  reject : Decision
  approve : Decision
  deny_test : Decision

abbrev pub is_reject : Decision → Bool
is_reject reject = true
is_reject _ = false

abbrev pub is_deny_test : Decision → Bool
is_deny_test deny_test = true
is_deny_test _ = false

-- `job["state"]`
abbrev pub word : JobState → String
word pending = "PENDING"
word executing = "EXECUTING"
word rejected = "REJECTED"
word denied = "DENIED"
word completed = "COMPLETED"
word failed = "FAILED"

module _ {W J B : Type 0} (P : Outside W J B) where
  abbrev pub M : Type 0 → Type 0
  M A = Exec (PilotService W J B) A

  -- A method of `self.jobs`.
  unfoldable pub on_jobs : {A : Type 0} → Store.M P.jobs A → M A
  on_jobs m s = let (r, jobs) = m s.jobs in (r, record s { jobs = jobs })

  -- A method of `self.findings`.
  unfoldable pub on_findings : {A : Type 0} → Exec (FindingBacklog W B) A → M A
  on_findings m s =
      let (r, findings) = m (record (s.findings) { world = s.jobs.world }) in
      (r, record s { findings = findings; jobs = record (s.jobs) { world = findings.world } })

  abbrev pub handle :
      {A : Type 0} → M A → Outcome A × PilotService W J B → Outcome A × PilotService W J B
  handle h (ok a, t) = (ok a, t)
  handle h (raised e, t) = h t

  -- `try: body` and then `except Exception: handler`
  unfoldable pub try_except : {A : Type 0} → M A → M A → M A
  try_except body handler s = handle handler (body s)

  -- `_call_gateway`
  unfoldable pub call_gateway : String → Arguments → M Response
  call_gateway tool arguments s =
      let (r, world) = P.gateway_call P.config tool arguments s.jobs.world in
      (
        r,
        record s {
          jobs = record (s.jobs) { world = world };
          calls = record { tool = tool; arguments = arguments; job_file = s.jobs.file } ∷ s.calls;
        },
      )

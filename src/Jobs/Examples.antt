-- ===== src/Jobs/Examples.antt =====
-- pilot_v1/service.py: a security group that is remediated, and the theorems at it.
use aws_secops.Prelude.{
  Bool, List, Option, String, [], false, if◌then◌else◌, length, map, none, refl, some, sort_by,
  sort_texts, strip, true, ◌∷◌, ◌≟◌, ◌≡◌, subst,
}
use aws_secops.Effects.{◌>>=◌, Outcome, ok, raised, runtime_error}
use aws_secops.Findings.Types.{Fields, Library, text}
use aws_secops.Findings.Routing.{
  public_ssh_control, action_eligibility, enrich_finding, specialist_route,
}
use aws_secops.Findings.Normalize.{normalize_sg, sg_fields}
use aws_secops.Findings.Validate.{check_finding, optional_text, plain_text, validate_finding}
use aws_secops.Backlog.Types.{Entries, identity_of, key_of, same_key}
use aws_secops.Backlog.Merge.{fields_of, merge, plan_of, provider_loop, sighting, upsert_loop}
use aws_secops.Backlog.Store.{
  load_item, load_items, replace_provider, update_plan, upsert, write_file, commit, load,
}
use aws_secops.Backlog.Views.{tracked_of, open_findings, ranked, view_of, summary, grouped}
use aws_secops.Backlog.History.{upsert_change}
use aws_secops.Jobs.Types.{Job, JobState, completed}
use aws_secops.Jobs.Store.{
  put, save, write_jobs, create, get, update, history, recover, recovered, open_store, check_job,
  load_jobs,
}
use aws_secops.Jobs.Gateway.{
  Response, Parsed, result_text, remediation_outcome, finding_of_response,
}
use aws_secops.Jobs.Service.{
  Outside, PilotConfig, on_jobs, on_findings, try_except, call_gateway, approve, reject, deny_test,
}
use aws_secops.Jobs.Decide.{
  read_finding, approve_remediation, refresh_backlog, settle, execute, give_up, carry_out,
  show_outcome, decide_job, create_job, reject_shown, approve_shown,
}
use aws_secops.Jobs.Check.{call_harness, check, create_checked}
use aws_secops.Jobs.History.{
  check_call, approve_call, reject_call, Operation, System, create_call, decide_call, backlog_call,
  restart, start, run_call, run_operation, run_operations, AreNew, first_state,
}
use aws_secops.Jobs.Carried.{remediation_calls}
use aws_secops.Jobs.Spending.{Paid, Closed}
use aws_secops.Jobs.Stable.{OnFile}
use aws_secops.Jobs.SingleUse.{decide-single_use, calls-Paid, reject-IsQuiet, IsRefused}

abbrev finding_id : String
finding_id = "0123456789012345678901234567890123456789012345678901234567890123"

abbrev job_id : String
job_id = "01234567890123456789012345678901"

abbrev other_id : String
other_id = "abcdefabcdefabcdefabcdefabcdefab"

abbrev library : Library
library = record {
  upper = λ s. s;
  is_iso_time = λ s. true;
  has_timezone = λ s. true;
  shown = λ b. "None";
  hash_of_key = λ source kind id control. finding_id;
}

-- The world is what the Gateway will answer.
abbrev World : Type 0
World = List Response

abbrev config : PilotConfig
config = record {
  profile = "amit";
  region = "ap-southeast-1";
  gateway_url = "https://gateway";
  read_tool_name = "read";
  remediation_tool_name = "remediate";
}

abbrev group : String → Fields
group status =
    ("resource_id", text "sg-1")
    ∷ ("resource_name", text "demo")
    ∷ ("control", text public_ssh_control)
    ∷ ("status", text status)
    ∷ ("recommendation", text "remove the rule")
    ∷ []

abbrev answer : String → Response
answer t = record {
  error = none;
  is_error = false;
  content = record { kind = "text"; text = t } ∷ [];
}

abbrev parse : String → Option Parsed
parse t =
    if t ≟ "REMOVED"
    then some
        (record { fields = ("result", text "SSH_RULE_REMOVED") ∷ []; is_true = λ f. f ≟ "changed" })
    else some (record { fields = group t; is_true = λ f. false })

abbrev ask : World → Outcome Response × World
ask [] = (raised (runtime_error "AgentCore Gateway request failed"), [])
ask (r ∷ rs) = (ok r, rs)

abbrev P : Outside World (List Job) Entries
P = record {
  jobs = record {
    now = λ w. "2026-01-01";
    write = λ w. (true, w);
    encode = λ js. js;
    decode = λ js. some js;
    size = λ js. length js;
  };
  backlog = record {
    library = library;
    now = λ w. "2026-01-01";
    make_folder = λ w. (true, w);
    write = λ w. (true, w);
    encode = λ d. d;
    decode = λ d. some (tracked_of d);
    size = λ d. length d;
  };
  config = config;
  gateway_call = λ c tool arguments w. ask w;
  harness_call = λ c prompt w. (
    ok (record {
      tool_calls = 1;
      tool_results = group "NON_COMPLIANT" ∷ [];
      response = "STATUS: NON_COMPLIANT";
    }),
    w,
  );
  parse = parse;
}

law : (js : List Job) → P.jobs.decode (P.jobs.encode js) ≡ some js
law js = refl

abbrev answers : World
answers =
    answer "NON_COMPLIANT" ∷ answer "NON_COMPLIANT" ∷ answer "REMOVED" ∷ answer "COMPLIANT" ∷ []

abbrev console_answers : World
console_answers = answer "NON_COMPLIANT" ∷ answer "REMOVED" ∷ answer "COMPLIANT" ∷ []

abbrev empty : System World (List Job) Entries
empty = record {
  service = record {
    jobs = record { jobs = []; path = true; file = none; world = answers };
    findings = record { findings = []; path = true; file = none; world = [] };
    state = first_state;
    calls = [];
  };
  running = false;
}

abbrev detected : Fields
detected = sg_fields library (group "NON_COMPLIANT") none "2026-01-01"

abbrev first_day : List Operation
first_day =
    restart
    ∷ backlog_call (upsert_change (detected ∷ []) "AWS_PROVIDER")
    ∷ create_call job_id finding_id
    ∷ decide_call job_id approve
    ∷ []

-- The console: a check, which creates the job, and its approval.
abbrev by_console : List Operation
by_console = restart ∷ check_call job_id ∷ approve_call "dev" ∷ []

abbrev later : List Operation
later =
    decide_call job_id reject
    ∷ restart
    ∷ decide_call job_id deny_test
    ∷ check_call other_id
    ∷ reject_call
    ∷ []

-- Opening this opens the code of the pilot.
code : Unit {0}
unfolding validate_finding check_finding plain_text optional_text strip plan_of merge sighting
    key_of identity_of same_key upsert_loop provider_loop fields_of commit write_file update_plan
    upsert replace_provider load load_items load_item open_findings view_of ranked enrich_finding
    specialist_route action_eligibility sort_texts sort_by ◌>>=◌ summary grouped put save write_jobs
    create get update history recover recovered open_store check_job load_jobs result_text
    remediation_outcome finding_of_response on_jobs on_findings try_except call_gateway read_finding
    approve_remediation refresh_backlog settle execute give_up carry_out show_outcome decide_job
    create_job reject_shown approve_shown start run_call run_operation run_operations AreNew
    normalize_sg sg_fields check call_harness create_checked
code = tt

abbrev after_first_day : System World (List Job) Entries
after_first_day = run_operations P first_day empty

states_of : System World (List Job) Entries → List (JobState × Option Bool × String)
states_of y = map (λ (j : Job). (j.state, j.changed, j.provider_after)) y.service.jobs.jobs

-- The group is remediated by one call.
remediated : states_of after_first_day ≡ (completed, some true, "COMPLIANT") ∷ []
unfolding states_of
remediated = unfold code in refl

called_once : remediation_calls (run_operations P later after_first_day).service.calls ≡ 1
called_once = unfold code in refl

-- The same by the console: the first answer of the Gateway is the read of the approval.
console_calls :
    states_of (
      run_operations P by_console (record empty {
        service = record (empty.service) {
          jobs = record (empty.service.jobs) { world = console_answers };
        };
      }))
    ≡ (completed, some true, "COMPLIANT") ∷ []
unfolding states_of
console_calls = unfold code in refl

calls-Paid_example :
    OnFile P.jobs
      (Paid (remediation_calls (run_operations P first_day empty).service.calls))
      (run_operations P first_day empty).service.jobs.file
calls-Paid_example =
    calls-Paid P law first_day empty refl refl refl refl
      (unfold code in (tt, (tt, (refl, (tt, tt)))))

closed : Closed job_id 0 after_first_day.service.jobs.jobs
closed = unfold code in (_, refl, refl)

on_file : OnFile P.jobs (Closed job_id 0) after_first_day.service.jobs.file
on_file = unfold code in λ js e. subst (Closed job_id 0) (option_eq _ js e) (_, refl, refl)
  where
    option_eq : (js ks : List Job) → some js ≡ some ks → js ≡ ks
    option_eq js ks e = cc e

decide-single_use_example :
    IsRefused P (decide_job P job_id approve) (run_operations P later after_first_day).service
decide-single_use_example =
    decide-single_use P law job_id approve later after_first_day (unfold code in refl) closed
      on_file (unfold code in (tt, (tt, (tt, (refl, (tt, tt)))))) (unfold code in refl)

reject-IsQuiet_example :
    ((decide_job P job_id reject after_first_day.service).1.calls ≡ after_first_day.service.calls)
    × ((decide_job P job_id reject after_first_day.service).1.findings
        ≡ after_first_day.service.findings)
reject-IsQuiet_example = reject-IsQuiet P job_id after_first_day.service

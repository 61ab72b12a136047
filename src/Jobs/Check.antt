-- ===== src/Jobs/Check.antt =====
-- pilot_v1/service.py: `check`.
use aws_secops.Prelude.{
  Bool, List, Option, String, [], false, find, none, not, some, true, ◌&&◌, ◌==◌, ◌||◌, ◌∷◌, ◌≟◌,
  if◌then◌else◌,
}
use aws_secops.Effects.{
  ◌>>=◌, ◌>>◌, Outcome, gets, lift, modify, ok, pure, raise_if, raised, runtime_error,
}
use aws_secops.Findings.Types.{Fields, Finding, get}
use aws_secops.Findings.Normalize.{is_text, normalize_sg}
use aws_secops.Findings.Routing.{enrich_finding}
use aws_secops.Backlog.Merge.{fields_of}
use aws_secops.Backlog.Store.{upsert}
use aws_secops.Backlog.Views.{Summary, View, open_findings, summary}
use aws_secops.Jobs.Store.{create}
use aws_secops.Jobs.Service.{HarnessResult, M, Outside, State, on_findings, on_jobs}
use aws_secops.Jobs.Decide.{clock, refresh_backlog, text_of}

-- `len(result["tool_results"]) != 1`, and else the result
abbrev only_result : List Fields → Outcome Fields
only_result (f ∷ []) = ok f
only_result _ = raised (runtime_error "Harness did not make exactly one provider read")

abbrev pub one_read : HarnessResult → Outcome Fields
one_read r =
    if r.tool_calls == 1
    then only_result r.tool_results
    else raised (runtime_error "Harness did not make exactly one provider read")

abbrev pub has_status : Fields → Bool
has_status f = is_text "COMPLIANT" (get "status" f) || is_text "NON_COMPLIANT" (get "status" f)

abbrev pub is_checked : Finding → View → Bool
is_checked f v =
    v.tracked.finding.resource_id ≟ f.resource_id
    && v.tracked.finding.source ≟ "AWS EC2"
    && v.tracked.finding.control ≟ f.control

-- `next(...)` with no default
abbrev pub the_next : Option View → Outcome View
the_next none = raised (runtime_error "StopIteration")
the_next (some v) = ok v

module _ {W J B : Type 0} (P : Outside W J B) where
  abbrev check_prompt : String
  check_prompt =
      "Check the fixed dev demo Security Group for unrestricted TCP/22. Explain the provider result briefly and end with STATUS: COMPLIANT or STATUS: NON_COMPLIANT."

  unfoldable pub call_harness : M P HarnessResult
  call_harness s =
      let (r, world) = P.harness_call P.config check_prompt s.jobs.world in
      (r, record s { jobs = record (s.jobs) { world = world } })

  -- `self.state = {...}`
  abbrev pub checked_state : Fields → HarnessResult → Summary → State
  checked_state finding result shown = record {
    stage = "FINDING";
    workflow = some "sg";
    message = "Provider check complete. Choose Reject or Approve.";
    explanation = some result.response;
    finding = some finding;
    job = none;
    audit = some (record {
      human_decision = "PENDING";
      policy_decision = "NOT_CALLED";
      provider_verification = text_of (get "status" finding);
      changed = some false;
      exact_tool = P.config.read_tool_name;
    });
    backlog = some shown;
    jobs = [];
  }

  -- The job of a finding that has an action; `id` is the `uuid4().hex` that `JobStore.create` draws.
  unfoldable pub create_checked : Bool → String → Finding → M P (Unit {0})
  create_checked false id f = pure tt
  create_checked true id f = do
    d ← gets (λ s. s.findings.findings)
    views ← lift (open_findings d)
    item ← lift (the_next (find (is_checked f) views))
    job ← on_jobs P (create P.jobs id item)
    modify (λ s. record s { state = record (s.state) { job = some job } })

  -- `check`
  unfoldable pub check : String → M P State
  check id = do
    result ← call_harness
    finding ← lift (one_read result)
    raise_if (not (has_status finding))
        (runtime_error "Harness tool result did not contain provider status")
    now ← gets (clock P)
    normalized ← lift (normalize_sg P.backlog.library finding none now)
    on_findings P (upsert P.backlog (fields_of P.backlog.library normalized ∷ []) "AWS_PROVIDER")
    enriched ← lift (enrich_finding "AWS_PROVIDER" normalized)
    d ← gets (λ s. s.findings.findings)
    shown ← lift (summary d)
    modify (λ s. record s { state = checked_state finding result shown })
    create_checked (enriched.action_eligibility ≟ "REMEDIATION_SUPPORTED") id normalized
    refresh_backlog P
    gets (λ s. s.state)

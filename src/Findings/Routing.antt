-- ===== src/Findings/Routing.antt =====
-- pilot_v1/routing.py: `specialist_route`, `action_eligibility`, `enrich_finding`.
use aws_secops.Findings.Types.{Finding}
use aws_secops.Prelude.{Bool, List, String, [], contains, if◌then◌else◌, ◌&&◌, ◌∷◌, ◌≟◌, ◌⧺◌}
use aws_secops.Effects.Outcomes.{◌>>=◌}
use aws_secops.Effects.{ok, raised, Outcome, value_error}

-- COMPLIANCE_SOURCES, VULNERABILITY_SOURCES

abbrev pub compliance_sources : List String
compliance_sources = "AWS EC2" ∷ "AWS S3" ∷ "AWS Config" ∷ "CloudSCAPE" ∷ []

abbrev pub vulnerability_sources : List String
vulnerability_sources = "VAPT" ∷ []

-- PUBLIC_SSH_CONTROL
abbrev pub public_ssh_control : String
public_ssh_control = "TCP/22 from the public IPv4 internet"

-- `specialist_route`
unfoldable pub specialist_route : Finding → Outcome String
specialist_route f =
    if contains f.source compliance_sources
    then ok "Compliance Agent"
    else if contains f.source vulnerability_sources
    then ok "Vulnerability Agent"
    else raised (value_error ("no specialist route for source " ⧺ f.source))

abbrev is_supported : String → Finding → Bool
is_supported evidence_origin f =
    evidence_origin ≟ "AWS_PROVIDER"
    && f.source ≟ "AWS EC2"
    && f.resource_type ≟ "SECURITY_GROUP"
    && f.environment ≟ "dev"
    && f.control ≟ public_ssh_control
    && f.status ≟ "NON_COMPLIANT"

-- `action_eligibility` of a finding with its `evidence_origin`
unfoldable pub action_eligibility : String → Finding → String
action_eligibility evidence_origin f =
    if is_supported evidence_origin f then "REMEDIATION_SUPPORTED" else "PLAN_ONLY"

-- The fields that `enrich_finding` adds.
pub record Enrichment : Type 0 where
  pub specialist_route : String
  pub action_eligibility : String
  pub grounded_explanation : String

-- `enrich_finding`
unfoldable pub enrich_finding : String → Finding → Outcome Enrichment
enrich_finding evidence_origin f = do
  route ← specialist_route f
  ok (record {
    specialist_route = route;
    action_eligibility = action_eligibility evidence_origin f;
    grounded_explanation =
        route ⧺ " routed " ⧺ f.source ⧺ " evidence: " ⧺ f.resource_name ⧺ " is " ⧺ f.status
        ⧺ " for " ⧺ f.control ⧺ ". " ⧺ f.recommendation;
  })

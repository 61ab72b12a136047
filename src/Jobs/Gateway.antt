-- ===== src/Jobs/Gateway.antt =====
-- pilot_v1/workflow.py, and `result_text` of pilot_v1/gateway.py: what the Gateway answers, and the
-- remediation that it is asked for after an approval.
use aws_secops.Receipts.Types.{tool_name}
use aws_secops.Prelude.{
  Bool, List, Option, String, false, if◌then◌else◌, is_part, join_texts, keep, map, none, not, some,
  strip, true, ℕ, ◌&&◌, ◌==◌, ◌||◌, ◌≟◌,
}
use aws_secops.Effects.Outcomes.{◌>>=◌, ◌>>◌, refuse}
use aws_secops.Effects.{Outcome, ok, raised, runtime_error}
use aws_secops.Findings.Types.{Fields, Value, text, get, find_field}
use aws_secops.Findings.Normalize.{is_text}

-- The integers of a JSON-RPC error.
pub data ℤ : Type 0 where
  pos : ℕ → ℤ
  negsuc : ℕ → ℤ

abbrev pub same_ℤ : ℤ → ℤ → Bool
same_ℤ (pos m) (pos n) = m == n
same_ℤ (negsuc m) (negsuc n) = m == n
same_ℤ _ _ = false

pub record GatewayError : Type 0 where
  pub code : ℤ
  pub message : String

-- A block of a result's content: its type and its text.
pub record Block : Type 0 where
  pub kind : String
  pub text : String

-- An answer of the Gateway. `error` is none where it is missing or empty; `is_error` says whether
-- the result's `isError` is True.
pub record Response : Type 0 where
  pub error : Option GatewayError
  pub is_error : Bool
  pub content : List Block

-- An object of a JSON text: its fields, and which of them are True itself.
pub record Parsed : Type 0 where
  pub fields : Fields
  pub is_true : String → Bool

-- `result_text`
unfoldable pub result_text : Response → String
result_text r = strip (
    join_texts "\n" (map (λ (b : Block). b.text) (keep (λ (b : Block). b.kind ≟ "text") r.content)))

-- What is put down of a human decision that has been carried out.
pub record AuditRecord : Type 0 where
  pub human_decision : String
  pub gateway_decision : String
  pub tool : String
  pub changed : Bool
  pub verification : Value

-- `reject_remediation`
abbrev pub reject_remediation : AuditRecord
reject_remediation = record {
  human_decision = "REJECT";
  gateway_decision = "NOT_CALLED";
  tool = "NOT_CALLED";
  changed = false;
  verification = text "UNCHANGED";
}

-- `denied`
abbrev pub denial : GatewayError → Bool
denial e =
    same_ℤ e.code (negsuc 32001)
    && is_part "Tool Execution Denied" e.message
    && is_part "denied by default" e.message

abbrev pub is_denied : Option GatewayError → Bool
is_denied none = false
is_denied (some e) = denial e

abbrev pub is_there : Option GatewayError → Bool
is_there none = false
is_there (some e) = true

abbrev denied_record : String → AuditRecord
denied_record tool_name = record {
  human_decision = "APPROVE";
  gateway_decision = "DENY";
  tool = tool_name;
  changed = false;
  verification = text "UNCHANGED";
}

-- `payload.get("verification", "UNKNOWN")`
abbrev verification_of : Option Value → Value
verification_of none = text "UNKNOWN"
verification_of (some v) = v

abbrev pub allowed_record : String → Parsed → AuditRecord
allowed_record tool_name payload = record {
  human_decision = "APPROVE";
  gateway_decision = "ALLOW";
  tool = tool_name;
  changed = true;
  verification = verification_of (find_field "verification" payload.fields);
}

-- `json.loads`; a text that is no JSON object is refused
abbrev pub parsed_or : String → Option Parsed → Outcome Parsed
parsed_or message none = raised (runtime_error message)
parsed_or message (some p) = ok p

module _ (parse : String → Option Parsed) where
  -- `approve_remediation` after the call
  unfoldable pub remediation_outcome : String → Response → Outcome AuditRecord
  remediation_outcome tool_name response =
      if is_denied response.error then ok (denied_record tool_name) else do
        refuse (is_there response.error || response.is_error)
            (runtime_error "unexpected Gateway/tool error; not proof of Policy DENY")
        payload ← parsed_or "remediation tool returned invalid JSON" (parse (result_text response))
        refuse
            (not (is_text "SSH_RULE_REMOVED" (get "result" payload.fields))
              || not (payload.is_true "changed"))
            (runtime_error "remediation tool did not prove the exact change")
        ok (allowed_record tool_name payload)

  -- `_read_finding` after the call
  unfoldable pub finding_of_response : Response → Outcome Fields
  finding_of_response response = do
    refuse (response.is_error || is_there response.error)
        (runtime_error "provider read was denied or failed")
    finding ← parsed_or "provider read returned invalid JSON" (parse (result_text response))
    refuse
        (not (is_text "COMPLIANT" (get "status" finding.fields))
          && not (is_text "NON_COMPLIANT" (get "status" finding.fields)))
        (runtime_error "provider read returned no compliance decision")
    ok finding.fields

-- ===== src/Findings/Validate.antt =====
-- pilot_v1/findings.py: `_text` and `validate_finding`.
use aws_secops.Prelude.{
  Bool, List, Option, String, [], contains, if◌then◌else◌, is_safe_text, join_texts, keep, ltb, map,
  none, not, some, sort_texts, strip, ℕ, ◌&&◌, ◌||◌, ◌∷◌, ◌≟◌, ◌⧺◌,
}
use aws_secops.Effects.Outcomes.{◌>>=◌, ◌>>◌, refuse}
use Prim.Native.String.{count as count_chars}
use aws_secops.Effects.{ok, raised, Outcome, value_error}
use aws_secops.Findings.Types.{text, other, get, Fields, Finding, Library, Value}

-- REQUIRED_FIELDS

abbrev pub required_fields : List String
required_fields =
    "source" ∷ "resource_type" ∷ "resource_id" ∷ "resource_name" ∷ "environment" ∷ "control"
    ∷ "severity" ∷ "status" ∷ "evidence" ∷ "recommendation" ∷ "observed_at" ∷ []

-- OPTIONAL_FIELDS
abbrev pub optional_fields : List String
optional_fields = "owner" ∷ "target" ∷ []

-- SEVERITIES, STATUSES
abbrev pub severities : List String
severities = "CRITICAL" ∷ "HIGH" ∷ "MEDIUM" ∷ "LOW" ∷ "INFO" ∷ []

abbrev pub statuses : List String
statuses = "COMPLIANT" ∷ "NON_COMPLIANT" ∷ []

abbrev pub environments : List String
environments = "dev" ∷ "test" ∷ "demo" ∷ []

-- `_text` of a text that has been stripped
abbrev bounded : String → String → ℕ → Outcome String
bounded field s maximum =
    if ltb maximum (count_chars s) || not (is_safe_text s)
    then raised (value_error ("finding field " ⧺ field ⧺ " is not bounded plain text"))
    else ok s

-- `_text`
unfoldable pub plain_text : Value → String → ℕ → Outcome String
plain_text (other b) field maximum =
    raised (value_error ("finding field " ⧺ field ⧺ " must be a non-empty string"))
plain_text (text s) field maximum =
    if strip s ≟ ""
    then raised (value_error ("finding field " ⧺ field ⧺ " must be a non-empty string"))
    else bounded field (strip s) maximum

-- `if value`
abbrev is_true : Value → Bool
is_true (text s) = not (s ≟ "")
is_true (other b) = b

-- An optional field is there where its value is true.
unfoldable pub optional_text : Value → String → Outcome (Option String)
optional_text v field = if is_true v then (plain_text v field 128 >>= λ s. ok (some s)) else ok none

abbrev pub unknown_fields : Fields → List String
unknown_fields value =
    keep (λ name. not (contains name required_fields) && not (contains name optional_fields))
      (map (λ (f : String × Value). f.0) value)

abbrev pub check_known : List String → Outcome (Unit {0})
check_known [] = ok tt
check_known names =
    raised (value_error ("unknown finding fields: " ⧺ join_texts ", " (sort_texts names)))

module _ (L : Library) where
  -- The tests after the fields have been read.
  unfoldable pub check_finding : Finding → Outcome Finding
  check_finding f = do
    refuse (not (contains f.severity severities)) (value_error "finding severity is unsupported")
    refuse (not (contains f.status statuses)) (value_error "finding status is unsupported")
    refuse (not (contains f.environment environments))
        (value_error "finding environment must be dev, test, or demo")
    refuse (not (L.is_iso_time f.observed_at)) (value_error "finding observed_at must be ISO-8601")
    ok f

  -- `validate_finding` of a dict
  unfoldable pub validate_finding : Fields → Outcome Finding
  validate_finding value = do
    check_known (unknown_fields value)
    source ← plain_text (get "source" value) "source" 128
    resource_type ← plain_text (get "resource_type" value) "resource_type" 128
    resource_id ← plain_text (get "resource_id" value) "resource_id" 128
    resource_name ← plain_text (get "resource_name" value) "resource_name" 128
    environment ← plain_text (get "environment" value) "environment" 128
    control ← plain_text (get "control" value) "control" 128
    severity ← plain_text (get "severity" value) "severity" 128
    status ← plain_text (get "status" value) "status" 128
    evidence ← plain_text (get "evidence" value) "evidence" 500
    recommendation ← plain_text (get "recommendation" value) "recommendation" 128
    observed_at ← plain_text (get "observed_at" value) "observed_at" 128
    owner ← optional_text (get "owner" value) "owner"
    target ← optional_text (get "target" value) "target"
    check_finding (record {
      source = source;
      resource_type = resource_type;
      resource_id = resource_id;
      resource_name = resource_name;
      environment = environment;
      control = control;
      severity = L.upper severity;
      status = L.upper status;
      evidence = evidence;
      recommendation = recommendation;
      observed_at = observed_at;
      owner = owner;
      target = target;
    })

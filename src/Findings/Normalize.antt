-- ===== src/Findings/Normalize.antt =====
-- pilot_v1/findings.py: `normalize_sg`.
use aws_secops.Findings.Validate.{validate_finding}
use aws_secops.Prelude.{Bool, Option, String, [], false, if◌then◌else◌, none, some, ◌∷◌, ◌≟◌, ◌⧺◌}
use aws_secops.Effects.{Outcome}
use aws_secops.Findings.Types.{text, other, get, Fields, Finding, Library, Value, find_field}

-- `value.get(field) == s`
abbrev pub is_text : String → Value → Bool
is_text s (text t) = t ≟ s
is_text s (other b) = false

-- `observed_at or _now()`
abbrev pub given_time : Option String → String → String
given_time none now = now
given_time (some t) now = if t ≟ "" then now else t

module _ (L : Library) where
  abbrev shown_value : Option Value → String
  shown_value none = "unknown"
  shown_value (some (text s)) = s
  shown_value (some (other b)) = L.shown b

  -- The dict that `normalize_sg` makes of what the provider reports.
  unfoldable pub sg_fields : Fields → Option String → String → Fields
  sg_fields provider observed_at now =
      ("source", text "AWS EC2")
      ∷ ("resource_type", text "SECURITY_GROUP")
      ∷ ("resource_id", get "resource_id" provider)
      ∷ ("resource_name", get "resource_name" provider)
      ∷ ("environment", text "dev")
      ∷ ("control", get "control" provider)
      ∷ (
        "severity",
        text (if is_text "NON_COMPLIANT" (get "status" provider) then "HIGH" else "INFO"),
      )
      ∷ ("status", get "status" provider)
      ∷ ("evidence", text ("Provider source: " ⧺ shown_value (find_field "source" provider)))
      ∷ ("recommendation", get "recommendation" provider)
      ∷ ("observed_at", text (given_time observed_at now))
      ∷ []

  -- `normalize_sg`
  unfoldable pub normalize_sg : Fields → Option String → String → Outcome Finding
  normalize_sg provider observed_at now = validate_finding L (sg_fields provider observed_at now)

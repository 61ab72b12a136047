-- ===== src/Findings/Examples.antt =====
-- pilot_v1/queries.py and pilot_v1/adapters.py: small lists, and the theorems at them.
use aws_secops.Prelude.{
  All, List, String, [], arith, length, none, refl, some, sort_texts, strip, true, ◌∷◌, ◌≡◌,
}
use aws_secops.Effects.{ok}
use aws_secops.Findings.Types.{Fields, Finding, Library, text}
use aws_secops.Findings.Queries.{filter_all}
use aws_secops.Findings.Walk.{walk, walk-IsComplete}
use aws_secops.Findings.Validate.{check_finding, optional_text, plain_text, validate_finding}
use aws_secops.Findings.Adapters.{Files, adapt_source, vapt, exact_fields, decode_records}
use aws_secops.Findings.Sources.{adapt_source-IsPlanOnly, IsPlanOnly}

abbrev library : Library
library = record {
  upper = λ s. s;
  is_iso_time = λ s. true;
  has_timezone = λ s. true;
  shown = λ b. "None";
  hash_of_key = λ source kind id control. id;
}

abbrev rows : List String
rows = "HIGH" ∷ "LOW" ∷ "HIGH" ∷ "HIGH" ∷ []

walk-IsComplete_example :
    walk (λ name s. s) 2 (("severity", "HIGH") ∷ []) rows 4 0 ≡ ok ("HIGH" ∷ "HIGH" ∷ "HIGH" ∷ [])
walk-IsComplete_example =
    walk-IsComplete (λ name s. s) 2 (("severity", "HIGH") ∷ []) rows ("HIGH" ∷ "HIGH" ∷ "HIGH" ∷ [])
      refl (omega arith) (omega arith) (unfold filter_all in refl) (omega arith)

abbrev scanned : Fields
scanned =
    ("asset_id", text "i-1")
    ∷ ("asset_name", text "web")
    ∷ ("environment", text "dev")
    ∷ ("vulnerability_id", text "CVE-1")
    ∷ ("severity", text "HIGH")
    ∷ ("status", text "OPEN")
    ∷ ("evidence", text "scan")
    ∷ ("recommended_action", text "patch")
    ∷ ("observed_at", text "2026-01-01")
    ∷ []

-- The bytes are the records themselves.
abbrev files : Files (List Fields)
files = record {
  size = λ c. length c;
  utf8 = λ c. some "";
  suffix = λ name. ".csv";
  json_values = λ t. none;
  csv_rows = λ t. scanned ∷ [];
}

abbrev found : Finding
found = record {
  source = "VAPT";
  resource_type = "EC2_INSTANCE";
  resource_id = "i-1";
  resource_name = "web";
  environment = "dev";
  control = "CVE-1";
  severity = "HIGH";
  status = "NON_COMPLIANT";
  evidence = "scan";
  recommendation = "patch";
  observed_at = "2026-01-01";
  owner = none;
  target = none;
}

imported : adapt_source library files [] "scan.csv" "vapt" ≡ ok (found ∷ [])
unfolding adapt_source vapt exact_fields decode_records validate_finding check_finding plain_text
    optional_text strip sort_texts
imported = refl

adapt_source-IsPlanOnly_example : All (IsPlanOnly library) (found ∷ [])
adapt_source-IsPlanOnly_example =
    adapt_source-IsPlanOnly library files [] "scan.csv" "vapt" (found ∷ []) imported

-- ===== src/Scaled/Types.antt =====
-- compliance_agent_v1/scaled_findings.py: the rows, the queries and the generated fixture.
use aws_secops.Prelude.{
  List, Option, String, [], if◌then◌else◌, map, suc, zero, ℕ, ◌++◌, ◌+◌, ◌==◌, ◌∷◌, ◌≟◌, ◌⧺◌,
}
use Prim.Native.Nat.{◌%◌, ◌/◌}

-- CONTROLS, CONFIG_STATUSES, PROVIDER_STATUSES, EXCEPTION_STATUSES, REMEDIATION_STATUSES

abbrev pub controls : List String
controls = "s3_ssl" ∷ "s3_logging" ∷ "s3_backup" ∷ "restricted_ssh" ∷ []

abbrev pub config_statuses : List String
config_statuses = "COMPLIANT" ∷ "NON_COMPLIANT" ∷ []

abbrev pub provider_statuses : List String
provider_statuses = "UNVERIFIED" ∷ []

abbrev pub exception_statuses : List String
exception_statuses = "NONE" ∷ "ONE_TIME_TEST_EXCEPTION" ∷ []

abbrev pub remediation_statuses : List String
remediation_statuses = "NOT_STARTED" ∷ []

-- MAX_PAGE_SIZE
abbrev pub max_page_size : ℕ
max_page_size = 100

-- ROW_FIELDS
pub record Row : Type 0 where
  pub finding_id : String
  pub account_alias : String
  pub region : String
  pub control_key : String
  pub resource_type : String
  pub resource_id : String
  pub config_status : String
  pub provider_status : String
  pub exception_status : String
  pub remediation_status : String
  pub last_evaluated : String

-- SEARCH_FIELDS, SORT_FIELDS, CSV_FIELDS

abbrev pub search_fields : List String
search_fields = "account_alias" ∷ "control_key" ∷ "resource_type" ∷ "resource_id" ∷ []

abbrev pub sort_fields : List String
sort_fields =
    "finding_id" ∷ "account_alias" ∷ "region" ∷ "control_key" ∷ "resource_type" ∷ "resource_id"
    ∷ "config_status" ∷ "provider_status" ∷ "exception_status" ∷ "remediation_status"
    ∷ "last_evaluated" ∷ []

abbrev pub csv_fields : List String
csv_fields =
    "account_alias" ∷ "region" ∷ "control_key" ∷ "resource_type" ∷ "resource_id" ∷ "config_status"
    ∷ "provider_status" ∷ "exception_status" ∷ "remediation_status" ∷ "last_evaluated" ∷ []

abbrev cells : Row → List (String × String)
cells r =
    ("finding_id", r.finding_id)
    ∷ ("account_alias", r.account_alias)
    ∷ ("region", r.region)
    ∷ ("control_key", r.control_key)
    ∷ ("resource_type", r.resource_type)
    ∷ ("resource_id", r.resource_id)
    ∷ ("config_status", r.config_status)
    ∷ ("provider_status", r.provider_status)
    ∷ ("exception_status", r.exception_status)
    ∷ ("remediation_status", r.remediation_status)
    ∷ ("last_evaluated", r.last_evaluated)
    ∷ []

abbrev look_up : String → List (String × String) → String
look_up name [] = ""
look_up name ((key, value) ∷ rest) = if key ≟ name then value else look_up name rest

-- `row[name]`, for one of the fields
unfoldable pub cell : String → Row → String
cell name r = look_up name (cells r)

-- `range(start, start + n)`
abbrev pub numbers_from : ℕ → ℕ → List ℕ
numbers_from start zero = []
numbers_from start (suc n) = start ∷ numbers_from (start + 1) n

abbrev digit : ℕ → String
digit n =
    if n == 0
    then "0"
    else if n == 1
    then "1"
    else if n == 2
    then "2"
    else if n == 3
    then "3"
    else if n == 4
    then "4"
    else if n == 5
    then "5"
    else if n == 6
    then "6"
    else if n == 7
    then "7"
    else if n == 8
    then "8"
    else "9"

-- `f"{n:02d}"` and `f"{n:03d}"`, of a number that has no more digits

abbrev pub two_digits : ℕ → String
two_digits n = digit (n / 10) ⧺ digit (n % 10)

abbrev pub three_digits : ℕ → String
three_digits n = digit (n / 100) ⧺ two_digits (n % 100)

abbrev alias_of : ℕ → String
alias_of n = "lab-" ⧺ three_digits n

-- ALIASES
abbrev pub aliases : List String
aliases = map alias_of (numbers_from 1 50)

-- `control_parts`
abbrev pub control_parts : String → String × String
control_parts control =
    if control ≟ "s3_ssl"
    then ("S3_BUCKET", "ssl")
    else if control ≟ "s3_logging"
    then ("S3_BUCKET", "log")
    else if control ≟ "s3_backup"
    then ("S3_BUCKET", "bak")
    else ("SECURITY_GROUP", "ssh")

abbrev pub generated_row : String → String → ℕ → Row
generated_row alias control n =
    let (resource_type, short) = control_parts control in
    let prefix = if resource_type ≟ "S3_BUCKET" then "bucket" else "sg" in
    record {
      finding_id = "f-" ⧺ alias ⧺ "-" ⧺ control ⧺ "-" ⧺ two_digits n;
      account_alias = alias;
      region = "ap-southeast-1";
      control_key = control;
      resource_type = resource_type;
      resource_id = prefix ⧺ "-" ⧺ alias ⧺ "-" ⧺ short ⧺ "-" ⧺ two_digits n;
      config_status = "NON_COMPLIANT";
      provider_status = "UNVERIFIED";
      exception_status = if n == 5 then "ONE_TIME_TEST_EXCEPTION" else "NONE";
      remediation_status = "NOT_STARTED";
      last_evaluated = "2026-09-22T00:00:00Z";
    }

abbrev join_lists : {A B : Type 0} → (A → List B) → List A → List B
join_lists f [] = []
join_lists f (x ∷ xs) = f x ++ join_lists f xs

-- `generate_findings`
unfoldable pub generate_findings : List Row
generate_findings =
    join_lists
      (λ alias.
        join_lists (λ control. map (generated_row alias control) (numbers_from 1 5)) controls)
      aliases

pub record FindingQuery : Type 0 where
  pub control_key : Option String
  pub account_alias : Option String
  pub config_status : Option String
  pub exception_status : Option String
  pub search : Option String
  pub sort_by : String
  pub sort_direction : String
  -- 0 stands for each integer below 1
  pub page : ℕ
  pub limit : ℕ

-- ===== src/Config/Types.antt =====
-- pilot_v1/sg_compliance.py: the constants, what AWS Config answers, and the findings made of it.
use aws_secops.Prelude.{Bool, List, Option, String, [], none, some, ◌∷◌, ◌≟◌, if◌then◌else◌, ℕ}
use aws_secops.Effects.{Outcome}

-- CONFIG_RULES
abbrev pub config_rules : List (String × String)
config_rules =
    ("s3-bucket-level-public-access-prohibited", "AWS::S3::Bucket")
    ∷ ("restricted-ssh", "AWS::EC2::SecurityGroup")
    ∷ []

-- CONFIG_STATUSES
abbrev pub config_statuses : List String
config_statuses = "COMPLIANT" ∷ "NON_COMPLIANT" ∷ "INSUFFICIENT_DATA" ∷ "NOT_APPLICABLE" ∷ []

-- MAX_CONFIG_RESULTS, MAX_CONFIG_PAGES

abbrev pub max_config_results : ℕ
max_config_results = 250

abbrev pub max_config_pages : ℕ
max_config_pages = 10

abbrev rule_type : String → List (String × String) → Option String
rule_type control [] = none
rule_type control ((name, type) ∷ rules) =
    let rest = rule_type control rules in if name ≟ control then some type else rest

-- `CONFIG_RULES[control]`; none where the control is not in it
unfoldable pub expected_type : String → Option String
expected_type control = rule_type control config_rules

abbrev pub resource_type_of : String → String
resource_type_of type = if type ≟ "AWS::S3::Bucket" then "S3_BUCKET" else "SECURITY_GROUP"

abbrev pub family_of : String → String
family_of resource_type = if resource_type ≟ "S3_BUCKET" then "S3_BPA" else "SG_RESTRICTED_SSH"

-- `ResultRecordedTime`: a datetime, a number (with the datetime that `fromtimestamp` makes of it), a
-- text, or something else.
pub data Moment (T : Type 0) : Type 0 where
  datetime : T → Moment T
  timestamp : T → Moment T
  text : String → Moment T
  other : Moment T

-- One of `EvaluationResults`, with what it has of its qualifier; a `resource_id` that is no text is
-- none.
pub record Evaluation (T : Type 0) : Type 0 where
  pub compliance_type : Option String
  pub rule_name : Option String
  pub resource_type : Option String
  pub resource_id : Option String
  pub recorded : Moment T

-- `NextToken`
pub data Token : Type 0 where
  no_token : Token
  token : String → Token
  other_token : Token

pub record Response (T : Type 0) : Type 0 where
  -- none where it is no list
  pub results : Option (List (Evaluation T))
  pub next : Token

pub record Recorder : Type 0 where
  pub recording : Bool
  pub last_status : Option String

-- What is asked of AWS Config for one page.
pub record Request : Type 0 where
  pub rule : String
  pub limit : ℕ
  pub next_token : Option String

-- What the reader takes from outside: the three calls of the client, which may raise, over a world
-- that they may change; `digest` of a finding's identity; and the functions of `datetime`, of a
-- text with its "Z" replaced.
pub record Client (W T : Type 0) : Type 0 where
  pub recorders : W → Outcome (List Recorder) × W
  pub rule_names : String → W → Outcome (List (Option String)) × W
  pub details : Request → W → Outcome (Response T) × W
  pub digest : String → String → String → String
  pub replace_zone : String → String
  pub from_iso : String → Outcome T
  pub has_zone : T → Bool
  pub shown : T → String

pub record Finding : Type 0 where
  pub finding_id : String
  pub control : String
  pub resource_type : String
  pub resource_id : String
  pub status : String
  pub remediation_family : String
  pub observed_at : String

-- ===== src/Campaign/Types.antt =====
-- pilot_v1/multi_account_campaign.py: the constants, the targets and what a campaign shows.
use aws_secops.Prelude.{Bool, List, Option, String, [], ◌∷◌, ℕ}

-- S3_CONTROL, SG_CONTROL, CONTROLS
abbrev pub controls : List String
controls = "s3-bucket-level-public-access-prohibited" ∷ "restricted-ssh" ∷ []

-- ALIASES
abbrev pub aliases : List String
aliases = "lab-dev" ∷ "lab-poc" ∷ "lab-qa" ∷ "lab-sec" ∷ []

-- _CONFIG_STATES
abbrev pub config_states : List String
config_states =
    "COMPLIANT" ∷ "NON_COMPLIANT" ∷ "INSUFFICIENT_DATA" ∷ "NOT_APPLICABLE" ∷ "NOT_RETURNED"
    ∷ "UNAVAILABLE" ∷ "PENDING" ∷ []

-- CampaignTarget
pub record Target : Type 0 where
  pub alias : String
  pub account_id : String
  pub role_arn : String

-- The body of a batch, whose digest is its id.
pub record Body : Type 0 where
  pub control : String
  pub targets : List (String × String)
  pub selected_aliases : List String
  pub excluded_aliases : List String

-- What the code takes from outside: `json.loads` of the targets (none if it fails; then none if it
-- is no list; a row is none if it has not exactly the three keys), `\d{12}`, and the digest of a
-- body, cut to twenty characters.
pub record Library : Type 0 where
  pub loads : String → Option (Option (List (Option Target)))
  pub is_account : String → Bool
  pub digest : Body → String

-- One of `IpPermissions`; a port that is no number is none.
pub record Permission : Type 0 where
  pub protocol : Option String
  pub from_port : Option ℕ
  pub to_port : Option ℕ
  pub ranges : List (Option String)

-- The four settings; none where one is missing.
pub record PublicAccessBlock : Type 0 where
  pub block_public_acls : Option Bool
  pub ignore_public_acls : Option Bool
  pub block_public_policy : Option Bool
  pub restrict_public_buckets : Option Bool

pub record Result : Type 0 where
  pub control : String
  pub batch_id : String
  pub aliases : List String
  pub decision : String
  pub mutation_count : ℕ
  pub provider_verified : Bool
  pub config : List (String × String)

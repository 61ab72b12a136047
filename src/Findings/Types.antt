-- ===== src/Findings/Types.antt =====
-- pilot_v1/findings.py: findings, and the loose objects that they are made of.
-- A value of a source record: a text, or any other value with its truth value.
use aws_secops.Prelude.{Bool, List, Option, String, [], false, if◌then◌else◌, ◌∷◌, ◌≟◌, none, some}

pub data Value : Type 0 where
  text : String → Value
  other : Bool → Value

-- A dict with text keys.
abbrev pub Fields : Type 0
Fields = List (String × Value)

-- `value.get(field)`; `None` is a value that is not a text and not true
abbrev pub get : String → Fields → Value
get field [] = other false
get field ((name, v) ∷ fields) = if name ≟ field then v else get field fields

-- The fields of REQUIRED_FIELDS, and those of OPTIONAL_FIELDS that are there.
pub record Finding : Type 0 where
  pub source : String
  pub resource_type : String
  pub resource_id : String
  pub resource_name : String
  pub environment : String
  pub control : String
  pub severity : String
  pub status : String
  pub evidence : String
  pub recommendation : String
  pub observed_at : String
  pub owner : Option String
  pub target : Option String

-- Functions of Python that the code takes from its library: `str.upper`; whether
-- `datetime.fromisoformat` takes a text, and whether what it gives has a time zone; the SHA-256 of
-- the JSON of four texts; what an f-string shows for a value that is not a text.
pub record Library : Type 0 where
  pub upper : String → String
  pub is_iso_time : String → Bool
  pub has_timezone : String → Bool
  pub shown : Bool → String
  pub hash_of_key : String → String → String → String → String

-- `field in value` and then `value[field]`
abbrev pub find_field : String → Fields → Option Value
find_field field [] = none
find_field field ((name, v) ∷ fields) = if name ≟ field then some v else find_field field fields

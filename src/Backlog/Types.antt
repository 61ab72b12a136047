-- ===== src/Backlog/Types.antt =====
-- pilot_v1/backlog.py: keys, plans, tracked findings, and what the store takes from outside.
use aws_secops.Findings.Types.{Finding, Library}
use aws_secops.Prelude.{Bool, List, Option, String, ℕ, ◌&&◌, ◌≟◌}

-- MAX_FINDINGS
abbrev pub max_findings : ℕ
max_findings = 100

-- `_key`
pub record Key : Type 0 where
  pub source : String
  pub resource_type : String
  pub resource_id : String
  pub control : String

unfoldable pub key_of : Finding → Key
key_of f = record {
  source = f.source;
  resource_type = f.resource_type;
  resource_id = f.resource_id;
  control = f.control;
}

-- `==` of two keys
unfoldable pub same_key : Key → Key → Bool
same_key a b =
    a.source ≟ b.source
    && a.resource_type ≟ b.resource_type
    && a.resource_id ≟ b.resource_id
    && a.control ≟ b.control

-- The fields of PLAN_FIELDS.
pub record Plan : Type 0 where
  pub owner : String
  pub mitigation_plan : String
  pub target : String
  pub planning_status : String

-- The defaults of `_merge`.
abbrev pub no_plan : Plan
no_plan = record { owner = ""; mitigation_plan = ""; target = ""; planning_status = "UNPLANNED" }

-- A stored finding: the validated one, with the operator's plan in place of its own `owner` and
-- `target`, and the fields of TRACK_FIELDS.
pub record Tracked : Type 0 where
  pub finding : Finding
  pub plan : Plan
  pub finding_id : String
  pub first_seen : String
  pub last_seen : String
  pub occurrence_count : ℕ
  pub seen_in_latest_sync : Bool
  pub evidence_origin : String
  pub synced_at : String

-- `self._findings`: a dict in the order of insertion.
abbrev pub Entries : Type 0
Entries = List (Key × Tracked)

-- `_identity`
unfoldable pub identity_of : Library → Key → String
identity_of L k = L.hash_of_key k.source k.resource_type k.resource_id k.control

-- What the store takes from outside, over a state `W` of the world and a type `J` of the bytes of a
-- file: the library, the clock, the file and the JSON encoding. `decode` is `json.loads` with the
-- tests that `_load` makes on the shape of the object.
pub record Platform (W J : Type 0) : Type 0 where
  pub library : Library
  pub now : W → String
  -- whether the folder and the file can be made; whether the file is written and replaced
  pub make_folder : W → Bool × W
  pub write : W → Bool × W
  pub encode : Entries → J
  pub decode : J → Option (List Tracked)
  pub size : J → ℕ

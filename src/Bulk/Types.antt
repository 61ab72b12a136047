-- ===== src/Bulk/Types.antt =====
-- pilot_v1/bulk.py: the journal's data, the four-key public-access-block value, and what the
-- code takes from outside (provider, file system, clock, digest) as one record.
use aws_secops.Prelude.{
  ℕ, String, Bool, true, false, ◌&&◌, Option, none, some, List, [], ◌∷◌, all, contains, ◌≟◌,
  if◌then◌else◌,
}
use aws_secops.Effects.{Outcome, ok, raised, value_error}

-- ACTION
abbrev pub bulk_action : String
bulk_action = "set_bucket_bpa"

-- A validated BPA value: the four KEYS, in their order.
pub record Bpa : Type 0 where
  pub block_public_acls : Bool
  pub ignore_public_acls : Bool
  pub block_public_policy : Bool
  pub restrict_public_buckets : Bool

-- TARGET
abbrev pub target : Bpa
target = record {
  block_public_acls = true;
  ignore_public_acls = true;
  block_public_policy = true;
  restrict_public_buckets = true;
}

abbrev same_bool : Bool → Bool → Bool
same_bool true b = b
same_bool false b = if b then false else true

-- `==` of two BPA dicts
abbrev pub same_bpa : Bpa → Bpa → Bool
same_bpa a b =
    same_bool a.block_public_acls b.block_public_acls
    && same_bool a.ignore_public_acls b.ignore_public_acls
    && same_bool a.block_public_policy b.block_public_policy
    && same_bool a.restrict_public_buckets b.restrict_public_buckets

-- What a provider read hands back before it is checked: any value, or a dict.
pub data Field : Type 0 where
  boolean : Bool → Field
  not_boolean : Field

pub data Evidence : Type 0 where
  not_dict : Evidence
  dict : List (String × Field) → Evidence

-- KEYS
abbrev keys : List String
keys = "BlockPublicAcls" ∷ "IgnorePublicAcls" ∷ "BlockPublicPolicy" ∷ "RestrictPublicBuckets" ∷ []

abbrev field_at : String → List (String × Field) → Option Field
field_at k [] = none
field_at k ((j, v) ∷ fields) = if j ≟ k then some v else field_at k fields

abbrev bpa_of : Option Field → Option Field → Option Field → Option Field → Outcome Bpa
bpa_of (some (boolean a)) (some (boolean b)) (some (boolean c)) (some (boolean d)) = ok (record {
  block_public_acls = a;
  ignore_public_acls = b;
  block_public_policy = c;
  restrict_public_buckets = d;
})
bpa_of _ _ _ _ = raised (value_error "invalid exact BPA evidence")

-- Exactly the four keys, each a Boolean.
unfoldable pub bpa : Evidence → Outcome Bpa
bpa not_dict = raised (value_error "invalid exact BPA evidence")
bpa (dict fields) =
    if all (λ (f : String × Field). contains f.0 keys) fields
    then bpa_of (field_at "BlockPublicAcls" fields) (field_at "IgnorePublicAcls" fields)
        (field_at "BlockPublicPolicy" fields) (field_at "RestrictPublicBuckets" fields)
    else raised (value_error "invalid exact BPA evidence")

-- STATES
pub data State : Type 0 where
  pending approved running completed skipped denied failed unknown : State

pub data Decision : Type 0 where
  undecided approve reject : Decision

-- A manifest entry: the resource and the evidence frozen at the preview.
pub record Resource : Type 0 where
  pub name : String
  pub before : Bpa

pub record Manifest : Type 0 where
  pub version : ℕ
  pub context : String
  pub action : String
  pub goal : Bpa
  pub resources : List Resource

pub record Item : Type 0 where
  pub id : String
  pub resource : String
  pub state : State
  pub after : Option Bpa
  pub changed : Option Bool
  pub message : String
  pub audit : Option String
  pub verified_at : Option String

pub record Batch : Type 0 where
  pub id : String
  pub manifest : Manifest
  pub decision : Decision
  pub created_at : String
  pub items : List Item

-- How a provider call ends: it returns, raises `PolicyDenied`, or raises anything else.
pub data Reply (A : Type 0) : Type 0 where
  returned : A → Reply A
  policy_denied : Reply A
  call_failed : Reply A

-- How a change of a file ends: it is done, it raises before the file has changed (before
-- `os.replace`), or it raises after it (in the directory's `fsync`).
pub data Write : Type 0 where
  written raised_before raised_after : Write

-- What the code takes from outside, over a state `W` of the world and a
-- type `J` of the bytes of a file: the provider object, the file
-- system, the clock, `json` and `hashlib` (in `encode`,
-- `decode` and the two digests).
pub record Platform (W J : Type 0) : Type 0 where
  pub context : String
  pub resources : List String
  pub concurrency : ℕ
  pub read : String → W → Reply Evidence × W
  pub apply : String → Bpa → W → Reply (Option String) × W
  -- `none` where the provider has no `authorize`; `true` is a normal return
  pub authorize : Option (String → W → Bool × W)
  -- one atomic change of a file
  pub write : W → Write × W
  -- `true` where the worker thread starts
  pub start_thread : W → Bool × W
  pub now : W → String
  pub digest : Manifest → String
  pub resource_digest : Resource → String
  -- `json.dumps(...).encode()`, and `json.loads` with the shape that `validate` expects
  pub encode : Batch → J
  pub decode : J → Option Batch
  pub size : J → ℕ
  pub same_bytes : J → J → Bool

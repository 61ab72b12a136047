-- ===== src/Bulk/Offline.antt =====
-- pilot_v1/bulk.py: `OfflineProvider`, the synthetic fleet, as a platform. What it writes to its own
-- file is not modelled, nor a failure of that write.
use aws_secops.Bulk.Types.{
  Batch, Bpa, Evidence, Platform, Reply, boolean, call_failed, dict, returned, same_bpa, target,
  written,
}
use aws_secops.Prelude.{
  Bool, List, Option, String, [], contains, false, if◌then◌else◌, none, not, some, true, ℕ, ◌+◌,
  ◌||◌, ◌∷◌, ◌≟◌,
}

-- `values` and `calls` of the provider
pub record Fleet : Type 0 where
  pub values : List (String × Bpa)
  pub calls : ℕ

-- The dict of a BPA value
abbrev pub as_dict : Bpa → Evidence
as_dict b = dict (
    ("BlockPublicAcls", boolean b.block_public_acls)
    ∷ ("IgnorePublicAcls", boolean b.ignore_public_acls)
    ∷ ("BlockPublicPolicy", boolean b.block_public_policy)
    ∷ ("RestrictPublicBuckets", boolean b.restrict_public_buckets)
    ∷ [])

abbrev value_at : String → List (String × Bpa) → Option Bpa
value_at name [] = none
value_at name ((n, b) ∷ values) = if n ≟ name then some b else value_at name values

abbrev put : String → Bpa → List (String × Bpa) → List (String × Bpa)
put name b [] = (name, b) ∷ []
put name b ((n, c) ∷ values) = if n ≟ name then (name, b) ∷ values else (n, c) ∷ put name b values

abbrev known : Option Bpa → Reply Evidence
known none = call_failed
known (some b) = returned (as_dict b)

-- `{**TARGET, 'BlockPublicAcls': False}`, the initial value of every resource
abbrev pub exposed : Bpa
exposed = record target { block_public_acls = false }

module _ (resources : List String) where
  -- `read`
  abbrev offline_read : String → Fleet → Reply Evidence × Fleet
  offline_read name fleet =
      (if contains name resources then known (value_at name fleet.values) else call_failed, fleet)

  abbrev drifted : Bpa → Option Bpa → Bool
  drifted before none = true
  drifted before (some b) = not (same_bpa b before)

  -- `apply`
  abbrev offline_apply : String → Bpa → Fleet → Reply (Option String) × Fleet
  offline_apply name before fleet =
      if not (contains name resources) || drifted before (value_at name fleet.values)
      then (call_failed, fleet)
      else (
        returned none,
        record { values = put name target fleet.values; calls = fleet.calls + 1 },
      )

  -- The fleet with a file system that does not fail, and the batch itself for the journal's bytes.
  abbrev pub offline : Platform Fleet Batch
  offline = record {
    context = "OFFLINE";
    resources = resources;
    concurrency = 1;
    read = offline_read;
    apply = offline_apply;
    authorize = none;
    write = λ w. (written, w);
    start_thread = λ w. (true, w);
    now = λ w. "now";
    digest = λ m. "batch";
    resource_digest = λ r. r.name;
    encode = λ d. d;
    decode = λ d. some d;
    size = λ d. 0;
    same_bytes = λ a b. false;
  }

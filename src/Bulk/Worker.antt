-- ===== src/Bulk/Worker.antt =====
-- pilot_v1/bulk.py: `step` in its three parts (the claim under the lock, the provider calls with no
-- lock held, the commit under the lock), and `start`.
use aws_secops.Prelude.{
  String, Bool, true, false, not, ◌||◌, Option, none, some, List, ◌∷◌, any, find, map, ◌≟◌,
  if◌then◌else◌,
}
use aws_secops.Effects.{
  ok, raised, value_error, runtime_error, pure, raise, raise_if, ◌>>=◌, ◌>>◌, raise_when,
}
use aws_secops.Bulk.Types.{
  Bpa, target, same_bpa, State, approved, running, completed, skipped, denied, failed, unknown,
  undecided, approve, reject, Item, Batch, returned, policy_denied, call_failed, Platform, Decision,
  Resource,
}
use aws_secops.Bulk.Store.{
  BulkStore, M, assign, loaded, has_state, with_items, any_approved, save, fail_unclaimed, require,
  read,
}
use aws_secops.Bulk.Reports.{Summary, summary, named}
use aws_secops.Bulk.Lifecycle.{decide}

-- The dict that `step` merges into the item; `after` is `none` where the dict lacks the key.
pub record Update : Type 0 where
  pub state : State
  pub after : Option Bpa
  pub changed : Option Bool
  pub message : String
  pub audit : Option String
  pub verified_at : Option String

abbrev given : {A : Type 0} → Option A → Option A → Option A
given none old = old
given (some a) old = some a

-- `item.update(update)`
abbrev pub apply_update : Update → Item → Item
apply_update u i = record i {
  state = u.state;
  after = given u.after i.after;
  changed = u.changed;
  message = u.message;
  audit = given u.audit i.audit;
  verified_at = given u.verified_at i.verified_at;
}

-- The item object is the one of that resource: the names of a validated batch are distinct.
abbrev pub at_name : String → (Item → Item) → Item → Item
at_name name f i = if i.resource ≟ name then f i else i

abbrev pub update_item : String → (Item → Item) → List Item → List Item
update_item name f items = map (at_name name f) items

abbrev pub claimed : Item → Item
claimed i = record i {
  state = running;
  changed = none;
  message = "Claimed durably; outcome not yet known";
}

abbrev pub is_approve : Decision → Bool
is_approve approve = true
is_approve _ = false

-- What a claim carries out of the lock: the batch, the item's resource and its frozen evidence.
pub record Claim : Type 0 where
  pub batch : String
  pub name : String
  pub before : Bpa

-- `except PolicyDenied`
abbrev pub policy_update : Update
policy_update = record {
  state = denied;
  after = none;
  changed = some false;
  message = "Gateway Policy DENY; target not dispatched";
  audit = some "{'gateway_decision': 'DENY', 'target_calls': 0}";
  verified_at = none;
}

-- `except Exception`
abbrev pub failure_update : Bool → Update
failure_update dispatched =
    if dispatched
    then record {
      state = unknown;
      after = none;
      changed = none;
      message = "Dispatch/readback uncertain; reconcile, do not replay";
      audit = none;
      verified_at = none;
    }
    else record {
      state = failed;
      after = none;
      changed = some false;
      message = "Pre-read failed; no dispatch";
      audit = none;
      verified_at = none;
    }

abbrev pub readback_update : String → Bpa → Bpa → Option String → Update
readback_update now before after audit =
    let met = same_bpa after target in
    record {
      state = if met then completed else failed;
      after = some after;
      changed = some (not (same_bpa after before));
      message = if met then "Provider verified compliant" else "Provider postcondition not met";
      audit = audit;
      verified_at = if met then some now else none;
    }

abbrev pub skip_update : String → Bpa → Update
skip_update now b = record {
  state = skipped;
  after = some b;
  changed = some false;
  message = "Provider already compliant; no dispatch";
  audit = none;
  verified_at = some now;
}

abbrev pub drift_update : Bpa → Update
drift_update b = record {
  state = denied;
  after = some b;
  changed = some false;
  message = "Evidence drift; stale approval blocked";
  audit = none;
  verified_at = none;
}

module _ {W J : Type 0} (P : Platform W J) where
  -- The manifest entry of the item that is claimed, and the durable claim.
  unfoldable pub claim_item : Batch → Item → Option Resource → M P (Option Claim)
  claim_item d item none = raise (runtime_error "StopIteration")
  claim_item d item (some resource) = do
    let d' = with_items d (update_item item.resource claimed d.items)
    assign P d'
    save P d'
    pure (some (record { batch = d.id; name = item.resource; before = resource.before }))

  unfoldable pub claim_first : Batch → Option Item → M P (Option Claim)
  claim_first d none = pure none
  claim_first d (some item) = claim_item d item (find (named item.resource) d.manifest.resources)

  unfoldable pub claim_checked : Batch → M P (Option Claim)
  claim_checked d = do
    raise_if (not (is_approve d.decision)) (value_error "human approval required")
    raise_if (any (has_state unknown) d.items)
        (value_error "reconcile unknown outcomes before continuing")
    claim_first d (find (has_state approved) d.items)

  -- The part of `step` under the first lock. `none`: no item is left to claim.
  unfoldable pub claim : String → M P (Option Claim)
  claim batch_id = do d ← require P batch_id; claim_checked d

  -- After `provider.apply` has returned: the second read.
  unfoldable pub readback : Claim → Bpa → Option String → BulkStore W J → Update × BulkStore W J
  readback c current audit s =
      let (r, s') = read P c.name s in
      elim r [
        | returned after ↦ (readback_update (P.now s'.world) current after audit, s')
        | policy_denied ↦ (policy_update, s')
        | call_failed ↦ (failure_update true, s')
      ]

  unfoldable pub dispatch : Claim → Bpa → BulkStore W J → Update × BulkStore W J
  dispatch c current s =
      let (r, world) = P.apply c.name current s.world in
      let s' = record s {
        world = world;
        dispatches = record { batch = c.batch; resource = c.name; before = current } ∷ s.dispatches;
      } in
      elim r [
        | returned audit ↦ readback c current audit s'
        | policy_denied ↦ (policy_update, s')
        | call_failed ↦ (failure_update true, s')
      ]

  -- The part of `step` with no lock held; it does not raise.
  unfoldable pub perform : Claim → BulkStore W J → Update × BulkStore W J
  perform c s =
      let (r, s') = read P c.name s in
      elim r [
        | returned current ↦
            if same_bpa current target
            then (skip_update (P.now s'.world) current, s')
            else if same_bpa current c.before
            then dispatch c current s'
            else (drift_update current, s')
        | policy_denied ↦ (policy_update, s')
        | call_failed ↦ (failure_update false, s')
      ]

  -- New fields for the item of a resource, and a `save`.
  unfoldable pub rewrite_item : String → (Item → Item) → M P (Unit {0})
  rewrite_item name f = do
    d ← loaded P
    assign P (with_items d (update_item name f d.items))
    save P (with_items d (update_item name f d.items))

  -- The part of `step` under the second lock.
  unfoldable pub commit : Claim → Update → M P (Unit {0})
  commit c u = rewrite_item c.name (apply_update u)

  unfoldable pub finish : Claim → M P (Unit {0})
  finish c s = let (u, s') = perform c s in commit c u s'

  -- What `step` does with the item that it claimed.
  abbrev pub after_claim : Option Claim → M P (Option Summary)
  after_claim none = summary P
  after_claim (some c) = finish c >> summary P

  -- `step`
  unfoldable pub step : String → M P (Option Summary)
  step batch_id = do claimed_item ← claim batch_id; after_claim claimed_item

  unfoldable pub authorized : Option (String → W → Bool × W) → String → M P (Unit {0})
  authorized none batch_id s = (ok tt, s)
  authorized (some call) batch_id s =
      let (fine, world) = call batch_id s.world in
      (if fine then ok tt else raised (runtime_error "not authorized"), record s { world = world })

  -- The decision that `start` takes, or finds already taken.
  unfoldable pub start_by : String → String → Batch → Decision → M P (Unit {0})
  start_by batch_id approval_hash d undecided = do
    authorized P.authorize batch_id
    decide P batch_id approval_hash approve
    pure tt
  start_by batch_id approval_hash d approve = do
    raise_if (not (any_approved P d)) (value_error "terminal/rejected batch cannot replay")
    authorized P.authorize batch_id
  start_by batch_id approval_hash d reject =
      raise (value_error "terminal/rejected batch cannot replay")

  unfoldable pub abandon : M P (Unit {0})
  abandon = do
    d ← loaded P
    assign P (fail_unclaimed P d).1
    save P (fail_unclaimed P d).1
    raise (runtime_error "worker could not start; no dispatch; fresh approval required")

  abbrev pub worker_started : Bool → M P (Unit {0})
  worker_started true s = (ok tt, s)
  worker_started false s = abandon s

  -- Where the thread cannot start, what was approved is expired.
  unfoldable pub start_worker : M P (Unit {0})
  start_worker s =
      let (started, world) = P.start_thread s.world in
      worker_started started (record s { world = world; worker_alive = started })

  abbrev uncertain : Item → Bool
  uncertain i = has_state unknown i || has_state running i

  -- `start`
  unfoldable pub start : String → String → M P (Option Summary)
  start batch_id approval_hash = do
    d ← require P batch_id
    raise_if (not (approval_hash ≟ d.id)) (value_error "approval scope mismatch")
    raise_when (λ s. s.worker_alive) (value_error "execution already active")
    raise_if (any uncertain d.items) (value_error "read-only reconciliation required")
    start_by batch_id approval_hash d d.decision
    start_worker
    summary P

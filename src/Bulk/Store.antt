-- ===== src/Bulk/Store.antt =====
-- pilot_v1/bulk.py: `BulkStore` as state passing. `current` is `self.data` and `journal` the bytes
-- at `self.path`. `dispatches` lists the calls of `provider.apply`, the last one first; the code
-- has no such field.
use aws_secops.Prelude.{
  String, Bool, true, false, Option, none, some, List, [], ◌∷◌, map, any, ltb, ◌≟◌, if◌then◌else◌,
}
use aws_secops.Effects.{
  Outcome, ok, raised, value_error, runtime_error, os_error, permission_error, Exec, pure, lift,
  modify, raise_if, ◌>>◌,
}
use aws_secops.Bulk.Types.{
  Bpa, bpa, Evidence, State, pending, approved, running, completed, skipped, denied, failed,
  unknown, Item, Batch, Reply, returned, policy_denied, call_failed, Write, written, raised_before,
  raised_after, Platform,
}
use aws_secops.Bulk.Validate.{validate}

-- One call of `provider.apply`: the batch, the resource and the `before` that it was given.
pub record Dispatch : Type 0 where
  pub batch : String
  pub resource : String
  pub before : Bpa

pub record BulkStore (W J : Type 0) : Type 0 where
  pub current : Option Batch
  pub journal : Option J
  -- the files `<path>.<id>` and `<path>.rollover.<id>`
  pub archives : List (String × J)
  pub rollovers : List (String × J)
  -- `self.worker and self.worker.is_alive()`
  pub worker_alive : Bool
  pub world : W
  pub dispatches : List Dispatch

abbrev pub same_state : State → State → Bool
same_state pending pending = true
same_state approved approved = true
same_state running running = true
same_state completed completed = true
same_state skipped skipped = true
same_state denied denied = true
same_state failed failed = true
same_state unknown unknown = true
same_state _ _ = false

abbrev pub has_state : State → Item → Bool
has_state s i = same_state i.state s

-- PENDING, APPROVED, RUNNING, UNKNOWN
abbrev pub is_active : Item → Bool
is_active i = elim i.state [
  | pending ↦ true
  | approved ↦ true
  | running ↦ true
  | unknown ↦ true
  | _ ↦ false
]

-- The fields that `_fail_unclaimed` writes.
abbrev pub expire : Item → Item
expire i =
    if has_state approved i
    then record i {
      state = failed;
      changed = some false;
      after = none;
      message = "Not dispatched: batch interrupted; fresh preview and approval required";
    }
    else i

abbrev pub with_items : Batch → List Item → Batch
with_items d items = record d { items = items }

abbrev pub file_at : {J : Type 0} → String → List (String × J) → Option J
file_at name [] = none
file_at name ((n, bytes) ∷ files) = if n ≟ name then some bytes else file_at name files

module _ {W J : Type 0} (P : Platform W J) where
  abbrev pub M : Type 0 → Type 0
  M A = Exec (BulkStore W J) A

  -- An assignment to `self.data`, or to what it holds.
  unfoldable pub assign : Batch → M (Unit {0})
  assign d = modify (λ s. record s { current = some d })

  -- `self.data[...]` where there is none
  unfoldable pub loaded : M Batch
  loaded s = elim s.current [ none ↦ (raised (runtime_error "no batch"), s) | some d ↦ (ok d, s) ]

  -- The bytes after an attempt to replace them.
  abbrev pub replaced : Write → Option J → Option J → Option J
  replaced written new old = new
  replaced raised_after new old = new
  replaced raised_before new old = old

  abbrev pub write_result : Write → Outcome (Unit {0})
  write_result written = ok tt
  write_result _ = raised os_error

  unfoldable pub write_journal : Option J → M (Unit {0})
  write_journal bytes s =
      let (w, world) = P.write s.world in
      (write_result w, record s { journal = replaced w bytes s.journal; world = world })

  -- `save`, of the batch that `self.data` holds
  unfoldable pub save : Batch → M (Unit {0})
  save d = do
    lift (validate P d)
    raise_if (ltb 2000000 (P.size (P.encode d))) (value_error "batch size limit")
    write_journal (some (P.encode d))

  abbrev pub any_approved : Batch → Bool
  any_approved d = any (has_state approved) d.items

  -- `_fail_unclaimed`; the flag says whether an item changed
  unfoldable pub fail_unclaimed : Batch → Bool × Batch
  fail_unclaimed d = (any_approved d, with_items d (map expire d.items))

  -- `require`
  unfoldable pub require : String → M Batch
  require batch_id s = elim s.current [
    | none ↦ (raised (value_error "unknown batch or stale preview"), s)
    | some d ↦
        if batch_id ≟ d.id
        then (lift (validate P d) >> pure d) s
        else (raised (value_error "unknown batch or stale preview"), s)
  ]

  abbrev checked : Reply Evidence → Reply Bpa
  checked policy_denied = policy_denied
  checked call_failed = call_failed
  checked (returned e) = elim (bpa e) [ ok b ↦ returned b | raised _ ↦ call_failed ]

  -- `bpa(self.provider.read(name))`, with how it ended
  unfoldable pub read : String → BulkStore W J → Reply Bpa × BulkStore W J
  read name s = let (r, world) = P.read name s.world in (checked r, record s { world = world })

  -- the same where an exception goes on to the caller
  unfoldable pub read_or_raise : String → M Bpa
  read_or_raise name s =
      let (r, s') = read name s in
      elim r [
        | returned b ↦ (ok b, s')
        | policy_denied ↦ (raised (permission_error "policy denied"), s')
        | call_failed ↦ (raised (runtime_error "provider read failed"), s')
      ]

-- ===== src/Bulk/Lifecycle.antt =====
-- pilot_v1/bulk.py: `__init__`, `rollover_terminal_history`, `preview` and `decide`.
use aws_secops.Prelude.{
  ℕ, ◌+◌, String, Bool, true, false, not, ◌||◌, Option, none, some, List, [], ◌∷◌, map, any, length,
  ltb, ◌≟◌, distinct, sort_texts, if◌then◌else◌,
}
use aws_secops.Effects.{
  Outcome, ok, raised, value_error, runtime_error, os_error, pure, lift, modify, raise_if, gets,
  ◌>>=◌, ◌>>◌,
}
use aws_secops.Bulk.Types.{
  bulk_action, target, pending, approved, running, denied, unknown, Decision, undecided, approve,
  Resource, Manifest, Item, Batch, Write, Platform,
}
use aws_secops.Bulk.Validate.{validate, one_to_thousand}
use aws_secops.Bulk.Store.{
  BulkStore, M, assign, has_state, is_active, with_items, file_at, write_journal, save,
  fail_unclaimed, require, read_or_raise,
}
use aws_secops.Bulk.Reports.{Summary, summary}

-- What `__init__` does to an item that was RUNNING when the process ended.
abbrev pub interrupt : Item → Item
interrupt i =
    if has_state running i
    then record i {
      state = unknown;
      message = "Interrupted; provider reconciliation required";
      changed = none;
    }
    else i

abbrev pub fresh_item : String → String → Item
fresh_item id name = record {
  id = id;
  resource = name;
  state = pending;
  after = none;
  changed = some false;
  message = "Awaiting human decision";
  audit = none;
  verified_at = none;
}

-- What `decide` writes to each item.
abbrev pub decided : Decision → Item → Item
decided approve i = record i { state = approved; message = "Approved exact preview" }
decided _ i = record i { state = denied; message = "Rejected: zero dispatch" }

abbrev pub decide_batch : Decision → Batch → Batch
decide_batch dec d = record d { decision = dec; items = map (decided dec) d.items }

abbrev pub is_undecided : Decision → Bool
is_undecided undecided = true
is_undecided _ = false

module _ {W J : Type 0} (P : Platform W J) where
  -- The recovery in `__init__`, before its `save`: whether anything changed, and the batch.
  unfoldable pub recover : Batch → Bool × Batch
  recover d =
      let interrupted = with_items d (map interrupt d.items) in
      let (expired, d') = fail_unclaimed P interrupted in
      (expired || any (has_state running) d.items, d')

  abbrev pub decoded : Option Batch → Outcome Batch
  decoded none = raised (value_error "not a batch")
  decoded (some d) = ok d

  -- `self.data = ...`, the validation and the recovery, which is saved if it changed anything
  unfoldable pub adopt : Batch → M P (Unit {0})
  adopt d = do
    assign P d
    lift (validate P d)
    assign P (recover d).1
    if (recover d).0 then save P (recover d).1 else pure tt

  unfoldable pub load : J → M P (Unit {0})
  load bytes = do
    raise_if (ltb 2000000 (P.size bytes)) (value_error "oversize store")
    d ← lift (decoded (P.decode bytes))
    adopt d

  -- Where the constructor raises, there is no store object.
  abbrev pub or_corrupt : Outcome (Unit {0}) × BulkStore W J → Outcome (Unit {0}) × BulkStore W J
  or_corrupt (ok u, s) = (ok u, s)
  or_corrupt (raised e, s) = (
    raised (runtime_error "batch store corrupt or unreadable; not overwritten"),
    record s { current = none },
  )

  abbrev pub new_process : BulkStore W J → BulkStore W J
  new_process s = record s { current = none; worker_alive = false }

  unfoldable pub open_from : Option J → M P (Unit {0})
  open_from none s = (ok tt, s)
  open_from (some bytes) s = or_corrupt (load bytes s)

  -- `__init__`: a new process finds the journal; `lease` says whether the lock file was free.
  unfoldable pub open_store : Bool → M P (Unit {0})
  open_store false s = (raised (runtime_error "batch store already has a writer"), s)
  open_store true s = open_from s.journal (new_process s)

  abbrev journal_bytes : M P J
  journal_bytes s = elim s.journal [ none ↦ (raised os_error, s) | some b ↦ (ok b, s) ]

  -- `os.replace(self.path, archive)`
  abbrev move_journal : String → J → M P (Unit {0})
  move_journal id bytes s =
      let (w, world) = P.write s.world in
      let moved = record s {
        journal = none;
        rollovers = (id, bytes) ∷ s.rollovers;
        world = world;
      } in
      let kept = record s { world = world } in
      elim w [
        | Write.written ↦ (ok tt, moved)
        | Write.raised_before ↦ (raised os_error, kept)
        | Write.raised_after ↦ (raised os_error, moved)
      ]

  abbrev archive_journal : Batch → J → M P (Unit {0})
  archive_journal d bytes s = elim (file_at d.id s.rollovers) [
    | none ↦ move_journal d.id bytes s
    | some old ↦
        if P.same_bytes old bytes
        then write_journal P none s
        else (raised (runtime_error "rollover archive differs; active journal preserved"), s)
  ]

  -- `rollover_terminal_history`
  unfoldable pub rollover : M P Bool
  rollover s = elim s.current [
    | none ↦ (ok false, s)
    | some d ↦
        (do
          lift (validate P d)
          raise_if (any is_active d.items)
              (value_error "active, pending or uncertain batch cannot roll over")
          if ltb d.manifest.version 10 then pure false else do
            bytes ← journal_bytes
            archive_journal d bytes
            modify (λ t. record t { current = none })
            pure true)
          s
  ]

  -- The copy of the journal that `preview` keeps; an existing file is left alone.
  abbrev copy_journal : Batch → M P (Unit {0})
  copy_journal d s = elim (file_at d.id s.archives) [
    | some old ↦ (ok tt, s)
    | none ↦
        (do
          bytes ← journal_bytes
          λ t.
              let (w, world) = P.write t.world in
              elim w [
                | Write.written ↦
                    (ok tt, record t { archives = (d.id, bytes) ∷ t.archives; world = world })
                | Write.raised_before ↦ (raised os_error, record t { world = world })
                | Write.raised_after ↦ (
                  raised os_error,
                  record t { archives = (d.id, bytes) ∷ t.archives; world = world },
                )
              ])
          s
  ]

  -- The version of the next preview.
  abbrev next_version : Option Batch → M P ℕ
  next_version none = pure 1
  next_version (some d) = do
    lift (validate P d)
    raise_if (any is_active d.items) (value_error "resolve current batch before new preview")
    raise_if (ltb 10 (d.manifest.version + 1))
        (value_error "ten retained previews; operator archive review required")
    copy_journal d
    pure (d.manifest.version + 1)

  -- `[{'resource': r, 'before': bpa(self.provider.read(r))} for r in resources]`
  unfoldable pub read_evidence : List String → M P (List Resource)
  read_evidence [] = pure []
  read_evidence (name ∷ names) = do
    before ← read_or_raise P name
    rest ← read_evidence names
    pure (record { name = name; before = before } ∷ rest)

  unfoldable pub fresh_manifest : ℕ → List Resource → Manifest
  fresh_manifest version resources = record {
    version = version;
    context = P.context;
    action = bulk_action;
    goal = target;
    resources = resources;
  }

  unfoldable pub fresh_batch : String → Manifest → Batch
  fresh_batch now m = record {
    id = P.digest m;
    manifest = m;
    decision = undecided;
    created_at = now;
    items = map (λ (r : Resource). fresh_item (P.resource_digest r) r.name) m.resources;
  }

  -- `preview`
  unfoldable pub preview : Bool → M P (Option Summary)
  preview renew s =
      let fresh : M P (Option Summary) = do
        version ← next_version s.current
        let resources = sort_texts P.resources
        raise_if (not (one_to_thousand (length resources)) || not (distinct resources))
            (value_error "manifest resource bounds")
        evidence ← read_evidence resources
        now ← gets (λ t. P.now t.world)
        let d = fresh_batch now (fresh_manifest version evidence)
        assign P d
        save P d
        summary P
      in elim s.current [ none ↦ fresh s | some d ↦ if renew then fresh s else summary P s ]

  -- `decide`; the native decision is APPROVE or REJECT
  unfoldable pub decide : String → String → Decision → M P (Option Summary)
  decide batch_id approval_hash decision = do
    d ← require P batch_id
    raise_if (not (approval_hash ≟ P.digest d.manifest) || is_undecided decision)
        (value_error "approval scope mismatch")
    raise_if (not (is_undecided d.decision)) (value_error "approval already consumed")
    assign P (decide_batch decision d)
    save P (decide_batch decision d)
    summary P

-- ===== src/Backlog/Store.antt =====
-- pilot_v1/backlog.py: `FindingBacklog`. `path` says whether the backlog has a file; `file` is what
-- stands there.
use aws_secops.Findings.Types.{Fields, text, Finding}
use aws_secops.Findings.Validate.{validate_finding}
use aws_secops.Backlog.Types.{
  Entries, Key, Plan, Tracked, identity_of, key_of, max_findings, Platform,
}
use aws_secops.Prelude.{
  Bool, List, Option, String, [], false, find, if◌then◌else◌, leb, length, ltb, map, none, not,
  some, true, ◌&&◌, ◌++◌, ◌||◌, ◌∷◌, ◌≟◌,
}
use aws_secops.Backlog.Entries.{has_key, insert}
use aws_secops.Backlog.Merge.{fields_of, plan_of, provider_loop, unsee_all, upsert_loop}
use aws_secops.Effects.Outcomes
use aws_secops.Effects.{
  ◌>>=◌, ◌>>◌, Exec, Outcome, gets, lift, modify, ok, pure, raise, raise_if, raised, runtime_error,
  value_error,
}

pub record FindingBacklog (W J : Type 0) : Type 0 where
  pub findings : Entries
  pub path : Bool
  pub file : Option J
  pub world : W

module _ {W J : Type 0} (P : Platform W J) where
  abbrev pub M : Type 0 → Type 0
  M A = Exec (FindingBacklog W J) A

  -- A change of the file system that is made or raises `OSError`, which `_commit` translates.
  abbrev attempt : (W → Bool × W) → (FindingBacklog W J → FindingBacklog W J) → M (Unit {0})
  attempt change done s =
      let (fine, world) = change s.world in
      if fine then (ok tt, done (record s { world = world })) else (
        raised (runtime_error "Backlog save failed; previous state retained."),
        record s { world = world },
      )

  -- The part of `_commit` that writes the file.
  unfoldable pub write_file : J → M (Unit {0})
  write_file bytes = do
    attempt P.make_folder (λ t. t)
    raise_if (ltb 1000000 (P.size bytes)) (value_error "backlog exceeds local storage limit")
    attempt P.write (λ t. record t { file = some bytes })

  -- `_commit`
  unfoldable pub commit : Entries → M (Unit {0})
  commit replacement = do
    raise_if (ltb max_findings (length replacement))
        (value_error "backlog cannot exceed 100 findings")
    has_file ← gets (λ s. s.path)
    if has_file then write_file (P.encode replacement) else pure tt
    modify (λ s. record s { findings = replacement })

  abbrev pub has_id : String → Key × Tracked → Bool
  has_id finding_id e = e.1.finding_id ≟ finding_id

  abbrev pub with_plan : Plan → Tracked → Tracked
  with_plan plan t = record t { plan = plan }

  -- `update_plan`
  abbrev pub update_entry : Option (Key × Tracked) → Plan → M (Unit {0})
  update_entry none plan = raise (value_error "unknown server-owned finding ID")
  update_entry (some (k, t)) plan = do
    d ← gets (λ s. s.findings)
    commit (insert k (with_plan plan t) d)

  unfoldable pub update_plan : String → Fields → M (Unit {0})
  update_plan finding_id values = do
    plan ← lift (plan_of values)
    d ← gets (λ s. s.findings)
    update_entry (find (has_id finding_id) d) plan

  abbrev pub none_seen : List Key → Bool
  none_seen [] = true
  none_seen (k ∷ ks) = false

  -- `upsert`
  unfoldable pub upsert : List Fields → String → M (Unit {0})
  upsert raws origin = do
    raise_if (not (origin ≟ "IMPORTED") && not (origin ≟ "AWS_PROVIDER"))
        (value_error "evidence origin is unsupported")
    d ← gets (λ s. s.findings)
    now ← gets (λ s. P.now s.world)
    (seen, d') ← lift (upsert_loop P.library raws origin now [] d)
    if none_seen seen then pure tt else commit d'

  -- `replace_provider`
  unfoldable pub replace_provider : String → List Fields → String → M (Unit {0})
  replace_provider source raws synced_at = do
    d ← gets (λ s. s.findings)
    now ← gets (λ s. P.now s.world)
    (seen, d') ←
        lift (provider_loop P.library source raws now synced_at [] (unsee_all P.library source d))
    commit d'

  -- `all(field is a time with a zone)` of the three times; an empty `synced_at` passes
  abbrev times_hold : Tracked → Bool
  times_hold t =
      P.library.has_timezone t.first_seen
      && P.library.has_timezone t.last_seen
      && (t.synced_at ≟ "" || P.library.has_timezone t.synced_at)

  abbrev pub plan_fields_of : Plan → Fields
  plan_fields_of p =
      ("owner", text p.owner)
      ∷ ("mitigation_plan", text p.mitigation_plan)
      ∷ ("target", text p.target)
      ∷ ("planning_status", text p.planning_status)
      ∷ []

  -- The tests on one stored finding after its fields; `base` is what they validate to.
  abbrev pub checked_item : Finding → Tracked → Entries → Outcome Entries
  checked_item base t d =
      if not (t.finding_id ≟ identity_of P.library (key_of base))
        || has_key (key_of base) (map (λ (e : Key × Tracked). e.0) d)
      then raised (value_error "invalid or duplicate identity")
      else if not (leb 1 t.occurrence_count)
          || (not (t.evidence_origin ≟ "IMPORTED") && not (t.evidence_origin ≟ "AWS_PROVIDER"))
      then raised (value_error "invalid tracking")
      else if not (times_hold t)
      then raised (value_error "tracking time needs timezone")
      else ok (d ++ ((key_of base, t) ∷ []))

  -- One stored finding is tested and taken up as it is.
  unfoldable pub load_item : Tracked → Entries → Outcome Entries
  load_item t d =
      Outcomes.◌>>=◌ (validate_finding P.library (fields_of P.library t.finding))
        λ base. Outcomes.◌>>=◌ (plan_of (plan_fields_of t.plan)) λ _. checked_item base t d

  unfoldable pub load_items : List Tracked → Entries → Outcome Entries
  load_items [] d = ok d
  load_items (t ∷ ts) d = Outcomes.◌>>=◌ (load_item t d) (load_items ts)

  abbrev pub load_payload : Option (List Tracked) → Outcome Entries
  load_payload none = raised (value_error "unsupported store")
  load_payload (some ts) =
      if ltb max_findings (length ts)
      then raised (value_error "unsupported store")
      else load_items ts []

  abbrev pub load_bytes : J → Outcome Entries
  load_bytes bytes =
      if ltb 1000000 (P.size bytes)
      then raised (value_error "store too large")
      else load_payload (P.decode bytes)

  abbrev pub loaded : Outcome Entries → Outcome Entries
  loaded (ok d) = ok d
  loaded (raised e) = raised (
      runtime_error
        "Backlog store is corrupt or unsupported; startup stopped without overwriting it.")

  -- `_load` of what stands at the path; a missing file is an empty backlog
  unfoldable pub load : Option J → Outcome Entries
  load none = ok []
  load (some bytes) = loaded (load_bytes bytes)

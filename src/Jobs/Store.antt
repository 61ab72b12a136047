-- ===== src/Jobs/Store.antt =====
-- pilot_v1/jobs.py: `JobStore`. `path` says whether the store has a file; `file` is what stands
-- there. A job stands under its `job_id`.
use aws_secops.Prelude.{
  Bool, List, Option, String, [], any, false, find, if◌then◌else◌, leb, length, ltb, map, none, not,
  some, ◌&&◌, ◌++◌, ◌==◌, ◌||◌, ◌∷◌, ◌≟◌,
}
use Prim.Native.String.{count as count_chars}
use aws_secops.Backlog.Views.{View}
use aws_secops.Effects.Outcomes
use aws_secops.Effects.{
  ◌>>=◌, ◌>>◌, Exec, Outcome, gets, lift, modify, ok, pure, raise_if, raised, runtime_error,
  value_error,
}
use aws_secops.Jobs.Types.{Platform, Job, failed, pending, is_pending, is_executing, max_jobs}

pub record JobStore (W J : Type 0) : Type 0 where
  pub jobs : List Job
  pub path : Bool
  pub file : Option J
  pub world : W

abbrev pub has_id : String → Job → Bool
has_id id j = j.job_id ≟ id

-- `{**jobs, job["job_id"]: job}`
unfoldable pub put : Job → List Job → List Job
put j [] = j ∷ []
put j (k ∷ ks) = let rest = put j ks in if has_id j.job_id k then j ∷ ks else k ∷ rest

abbrev pub is_active_for : String → Job → Bool
is_active_for finding_id j =
    j.finding_id ≟ finding_id && (is_pending j.state || is_executing j.state)

-- The job that `create` makes of an open finding.
abbrev pub new_job : String → View → String → Job
new_job id v now = record {
  job_id = id;
  finding_id = v.tracked.finding_id;
  resource_id = v.tracked.finding.resource_id;
  resource_name = v.tracked.finding.resource_name;
  control = v.tracked.finding.control;
  evidence = v.tracked.finding.evidence;
  created_at = now;
  completed_at = none;
  action = "remove_unrestricted_ssh";
  environment = "dev";
  expected_postcondition = "COMPLIANT: exact public TCP/22 rule absent";
  state = pending;
  human_decision = "PENDING";
  policy_decision = "NOT_CALLED";
  provider_before = v.tracked.finding.status;
  provider_after = "NOT_READ";
  changed = some false;
  message = "Review the exact DEV action. A mitigation plan is not approval.";
}

-- A stored job that was executing when the process stopped.
unfoldable pub recovered : String → Job → Job
recovered now j =
    if is_executing j.state
    then record j {
      state = failed;
      completed_at = some now;
      changed = none;
      message = "Interrupted execution; outcome unknown. Recheck provider; no automatic retry.";
    }
    else j

abbrev is_short : String → Bool
is_short s = leb (count_chars s) 1000

abbrev is_false : Option Bool → Bool
is_false none = false
is_false (some b) = not b

abbrev short_fields : Job → Bool
short_fields j =
    is_short j.job_id
    && is_short j.finding_id
    && is_short j.resource_id
    && is_short j.resource_name
    && is_short j.control
    && is_short j.evidence
    && is_short j.created_at
    && is_short j.action
    && is_short j.environment
    && is_short j.expected_postcondition
    && is_short j.human_decision
    && is_short j.policy_decision
    && is_short j.provider_before
    && is_short j.provider_after
    && is_short j.message

-- The tests on one stored job, after those on its shape; `js` are the jobs before it.
unfoldable pub check_job : Job → List Job → Outcome (Unit {0})
check_job j js =
    if not (j.action ≟ "remove_unrestricted_ssh") || not (j.environment ≟ "dev")
    then raised (value_error "invalid stored job")
    else if not (short_fields j)
    then raised (value_error "invalid job fields")
    else if is_pending j.state
        && (not (j.human_decision ≟ "PENDING")
            || not (j.policy_decision ≟ "NOT_CALLED")
            || not (is_false j.changed))
    then raised (value_error "invalid pending decision")
    else if not (count_chars j.job_id == 32)
        || not (count_chars j.finding_id == 64)
        || any (has_id j.job_id) js
    then raised (value_error "invalid job identity")
    else ok tt

unfoldable pub load_jobs : List Job → List Job → Outcome (List Job)
load_jobs [] js = ok js
load_jobs (j ∷ rest) js = Outcomes.◌>>=◌ (check_job j js) λ _. load_jobs rest (js ++ (j ∷ []))

module _ {W J : Type 0} (P : Platform W J) where
  abbrev pub M : Type 0 → Type 0
  M A = Exec (JobStore W J) A

  -- The part of `_save` that writes the file.
  unfoldable pub write_jobs : J → M (Unit {0})
  write_jobs bytes s =
      let (fine, world) = P.write s.world in
      if fine then (ok tt, record s { file = some bytes; world = world }) else (
        raised (runtime_error "Job save failed; no further execution permitted."),
        record s { world = world },
      )

  abbrev too_large : List Job → Bool
  too_large js = ltb max_jobs (length js) || ltb 256000 (P.size (P.encode js))

  -- `_save`
  unfoldable pub save : List Job → M (Unit {0})
  save js = do
    raise_if (too_large js) (value_error "Job history limit reached; existing jobs retained.")
    has_file ← gets (λ s. s.path)
    if has_file then write_jobs (P.encode js) else pure tt
    modify (λ s. record s { jobs = js })

  -- `create`; `id` is `uuid4().hex`
  abbrev pub create_from : Option Job → String → View → M Job
  create_from (some j) id v = pure j
  create_from none id v = do
    now ← gets (λ s. P.now s.world)
    js ← gets (λ s. s.jobs)
    save (put (new_job id v now) js)
    pure (new_job id v now)

  unfoldable pub create : String → View → M Job
  create id v = do
    js ← gets (λ s. s.jobs)
    create_from (find (is_active_for v.tracked.finding_id) js) id v

  abbrev pub known : Option Job → Outcome Job
  known none = raised (value_error "unknown server-owned job ID")
  known (some j) = ok j

  -- `get`
  unfoldable pub get : String → M Job
  get id = do js ← gets (λ s. s.jobs); lift (known (find (has_id id) js))

  -- `update`; `values` are the new fields
  unfoldable pub update : String → (Job → Job) → M Job
  update id values = do
    j ← get id
    js ← gets (λ s. s.jobs)
    save (put (values j) js)
    pure (values j)

  -- `history`
  unfoldable pub history : List Job → List Job
  history [] = []
  history (j ∷ js) = history js ++ (j ∷ [])

  abbrev pub load_payload : Option (List Job) → Outcome (List Job)
  load_payload none = raised (value_error "invalid job store")
  load_payload (some js) =
      if ltb max_jobs (length js) then raised (value_error "invalid job store") else load_jobs js []

  abbrev pub load_bytes : J → Outcome (List Job)
  load_bytes bytes =
      if ltb 256000 (P.size bytes)
      then raised (value_error "invalid job store")
      else load_payload (P.decode bytes)

  abbrev pub or_corrupt : Outcome (List Job) → Outcome (List Job)
  or_corrupt (ok js) = ok js
  or_corrupt (raised e) =
      raised (runtime_error "Job store corrupt; startup stopped without overwriting it.")

  -- `__init__` after the jobs are read: the recovery, which is saved if there was something to
  -- recover
  unfoldable pub recover : List Job → M (Unit {0})
  recover js = do
    modify (λ s. record s { jobs = js })
    now ← gets (λ s. P.now s.world)
    if any (λ (j : Job). is_executing j.state) js then save (map (recovered now) js) else pure tt

  -- `__init__` of what stands at the path; a missing file is an empty store
  abbrev pub open_from : Option J → M (Unit {0})
  open_from none = pure tt
  open_from (some bytes) = do js ← lift (or_corrupt (load_bytes bytes)); recover js

  -- `__init__`
  unfoldable pub open_store : M (Unit {0})
  open_store = do
    modify (λ s. record s { jobs = [] })
    has_file ← gets (λ s. s.path)
    bytes ← gets (λ s. s.file)
    if has_file then open_from bytes else pure tt

-- ===== src/Jobs/Stable.antt =====
-- pilot_v1/jobs.py: properties of the jobs and the number of remediation calls that each step of a
-- job keeps.
use aws_secops.Jobs.Laws.{find-has_id, find-put}
use aws_secops.Effects.{Outcome, ok, Error, raised}
use aws_secops.Jobs.Saving.{Saved, Updated, update-Updated}
use aws_secops.Prelude.{
  List, Option, String, [], any, false, find, inl, inr, map, none, some, subst, suc, sym, true, ℕ,
  ◌≡◌, ◌∙◌, ◌⊎◌,
}
use aws_secops.Jobs.Types.{Platform, Job, is_pending}
use aws_secops.Jobs.Store.{JobStore, has_id, put, recovered, update}

-- `Q n js`: with at most `n` remediation calls, made or about to be made, the jobs may be `js`.
pub record IsStable (Q : ℕ → List Job → Type 0) : Type 0 where
  pub fewer : (n : ℕ) (js : List Job) → Q (suc n) js → Q n js
  -- a pending job is approved, and one call may follow
  pub spend :
      (n : ℕ) (js : List Job) (j j' : Job)
      → find (has_id j'.job_id) js ≡ some j
      → is_pending j.state ≡ true
      → is_pending j'.state ≡ false
      → j'.human_decision ≡ "APPROVE"
      → Q n js
      → Q (suc n) (put j' js)
  -- any other change of a job, after which it is not pending and no less approved
  pub change :
      (n : ℕ) (js : List Job) (j j' : Job)
      → find (has_id j'.job_id) js ≡ some j
      → is_pending j'.state ≡ false
      → (is_pending j.state ≡ false → j'.human_decision ≡ j.human_decision)
      → Q n js
      → Q n (put j' js)
  pub add :
      (n : ℕ) (js : List Job) (j : Job) → any (has_id j.job_id) js ≡ false → Q n js → Q n (put j js)
  pub recover : (n : ℕ) (now : String) (js : List Job) → Q n js → Q n (map (recovered now) js)

module _ {W J : Type 0} (P : Platform W J) where
  -- What stands in the file; a missing file is an empty store.
  abbrev pub OnFile : (List Job → Type 0) → Option J → Type 0
  OnFile K none = K []
  OnFile K (some bytes) = (js : List Job) → P.decode bytes ≡ some js → K js

  -- The store has a file, and the property holds of the jobs in memory and of those in the file.
  pub record IsKept (K : List Job → Type 0) (s : JobStore W J) : Type 0 where
    pub has_file : s.path ≡ true
    pub in_memory : K s.jobs
    pub on_file : OnFile K s.file

  pub OnFile-map :
      {K L : List Job → Type 0} (o : Option J)
      → ((js : List Job) → K js → L js)
      → OnFile K o
      → OnFile L o
  OnFile-map none f h = f [] h
  OnFile-map (some bytes) f h = λ js e. f js (h js e)

  pub IsKept-map :
      {K L : List Job → Type 0} {s : JobStore W J}
      → ((js : List Job) → K js → L js)
      → IsKept K s
      → IsKept L s
  IsKept-map {s} f h = record {
    has_file = h.has_file;
    in_memory = f s.jobs h.in_memory;
    on_file = OnFile-map s.file f h.on_file;
  }

  module _ (law : (js : List Job) → P.decode (P.encode js) ≡ some js) where
    pub Saved-IsKept :
        {A : Type 0} {K : List Job → Type 0} {js : List Job} {a : A} {s : JobStore W J}
        {x : Outcome A × JobStore W J}
        → IsKept K s
        → K js
        → Saved P js a s x
        → IsKept K x.1
    Saved-IsKept {K} {js} k h (inl (done, jobs, file, path)) = record {
      has_file = path;
      in_memory = subst K (sym jobs) h;
      on_file =
          subst (OnFile K) (sym file)
            (λ ls e. let same : js ≡ ls = cc (e, law js) in subst K same h);
    }
    Saved-IsKept {K} k h (inr (e, stopped, jobs, file, path)) = record {
      has_file = path;
      in_memory = subst K (sym jobs) k.in_memory;
      on_file = subst (OnFile K) (sym file) k.on_file;
    }

    -- Where the call returned, the old jobs need not have the property.
    pub Saved-IsKept_anew :
        {A : Type 0} {K : List Job → Type 0} {js : List Job} {a b : A} (s : JobStore W J)
        {x : Outcome A × JobStore W J}
        → x.0 ≡ ok b
        → K js
        → Saved P js a s x
        → IsKept K x.1
    Saved-IsKept_anew {K} {js} s e h (inl (done, jobs, file, path)) = record {
      has_file = path;
      in_memory = subst K (sym jobs) h;
      on_file =
          subst (OnFile K) (sym file)
            (λ ls f. let same : js ≡ ls = cc (f, law js) in subst K same h);
    }
    Saved-IsKept_anew s e h (inr (x, stopped, _, _, _)) = absurd (cc (e, stopped))

    -- Where it raised, the old jobs are still there.
    pub Saved-IsKept_raised :
        {A : Type 0} {K : List Job → Type 0} {js : List Job} {a : A} {s : JobStore W J} (e : Error)
        (x : Outcome A × JobStore W J)
        → x.0 ≡ raised e
        → IsKept K s
        → Saved P js a s x
        → IsKept K x.1
    Saved-IsKept_raised e x r k (inl (done, _, _, _)) = absurd (cc (r, done))
    Saved-IsKept_raised {K} e x r k (inr (y, stopped, jobs, file, path)) = record {
      has_file = path;
      in_memory = subst K (sym jobs) k.in_memory;
      on_file = subst (OnFile K) (sym file) k.on_file;
    }

    -- `update`, for a job that is there.
    pub update-IsKept :
        {K : List Job → Type 0} (id : String) (values : Job → Job) (s : JobStore W J)
        → ((j : Job) → find (has_id id) s.jobs ≡ some j → K (put (values j) s.jobs))
        → IsKept K s
        → IsKept K (update P id values s).1
    update-IsKept {K} id values s h k = go (update-Updated P id values s k.has_file)
      where
        go : Updated P id values s (update P id values s) → IsKept K (update P id values s).1
        go (inl (j, there, saved)) = Saved-IsKept k (h j there) saved
        go (inr (e, same)) = subst (λ x. IsKept K x.1) (sym same) k

  -- The job that stands under the id after an `update`.
  pub update-find :
      (id : String) (values : Job → Job) (s : JobStore W J)
      → s.path ≡ true
      → ((j : Job) → (values j).job_id ≡ j.job_id)
      → (j : Job) → find (has_id id) (update P id values s).1.jobs ≡ some j
      → ((j0 : Job) × (find (has_id id) s.jobs ≡ some j0) × (j ≡ values j0))
        ⊎ (find (has_id id) s.jobs ≡ some j)
  update-find id values s path same_id j e =
      go (update P id values s) (update-Updated P id values s path) e
    where
      under :
          (j0 : Job)
          → find (has_id id) s.jobs ≡ some j0
          → find (has_id id) (put (values j0) s.jobs) ≡ some (values j0)
      under j0 there =
          subst (λ n. find (has_id n) (put (values j0) s.jobs) ≡ some (values j0))
            (same_id j0 ∙ find-has_id id j0 s.jobs there) (find-put (values j0) s.jobs)

      go :
          (x : Outcome Job × JobStore W J)
          → Updated P id values s x
          → find (has_id id) x.1.jobs ≡ some j
          → ((j0 : Job) × (find (has_id id) s.jobs ≡ some j0) × (j ≡ values j0))
            ⊎ (find (has_id id) s.jobs ≡ some j)
      go x (inl (j0, there, inl (done, jobs, _, _))) f =
          inl (j0, there, cc (jobs, f, under j0 there))
      go x (inl (j0, there, inr (r, stopped, jobs, _, _))) f = inr (cc (jobs, f))
      go x (inr (r, same)) f = inr (cc (same, f))

-- ===== src/Jobs/Saving.antt =====
-- pilot_v1/jobs.py: what `_save` and `update` leave, whether they return or raise.
use aws_secops.Prelude.{
  Bool, Bool-cases, List, arith, false, if◌then◌else◌, inl, inr, refl, some, true, ◌≡◌, ◌⊎◌, Option,
  String, find, none,
}
use aws_secops.Effects
use aws_secops.Effects.{
  ◌>>=◌, ◌>>◌, Error, Outcome, gets, lift, modify, ok, pure, raise_if, raised, continue,
  runtime_error,
}
use aws_secops.Jobs.Types.{Platform, Job}
use aws_secops.Jobs.Store.{JobStore, has_id, put, save, write_jobs, get, update, M, known}

module _ {W J : Type 0} (P : Platform W J) where
  -- It has returned: the jobs are in memory and in the file. Or it has raised: nothing has changed.
  abbrev pub Saved : {A : Type 0} → List Job → A → JobStore W J → Outcome A × JobStore W J → Type 0
  Saved js a s x =
      ((x.0 ≡ ok a) × (x.1.jobs ≡ js) × (x.1.file ≡ some (P.encode js)) × (x.1.path ≡ true))
      ⊎ ((e : Error) × (x.0 ≡ raised e)
          × (x.1.jobs ≡ s.jobs)
          × (x.1.file ≡ s.file)
          × (x.1.path ≡ true))

  write-Saved :
      (js : List Job) (s : JobStore W J)
      → s.path ≡ true
      → Saved js tt s ((write_jobs P (P.encode js) >> modify (λ t. record t { jobs = js })) s)
  unfolding write_jobs ◌>>=◌
  write-Saved js s p = elim (Bool-cases (P.write s.world).0) [
    | inl done ↦ inl (ground arith, ground arith, ground arith, ground arith)
    | inr refused ↦ inr (
      runtime_error "Job save failed; no further execution permitted.",
      ground arith,
      ground arith,
      ground arith,
      ground arith,
    )
  ]

  path-Saved :
      (b : Bool) (js : List Job) (s : JobStore W J)
      → s.path ≡ b
      → b ≡ true
      → Saved js tt s (
          ((if b then write_jobs P (P.encode js) else pure tt)
              >> modify (λ t. record t { jobs = js }))
            s)
  path-Saved true js s p q = write-Saved js s p
  path-Saved false js s p q = absurd (cc q)

  guard-Saved :
      (b : Bool) (e : Error) (n : M P (Unit {0})) (js : List Job) (s : JobStore W J)
      → s.path ≡ true
      → Saved js tt s (n s)
      → Saved js tt s ((raise_if b e >> n) s)
  unfolding ◌>>=◌
  guard-Saved true e n js s p h = inr (e, refl, refl, refl, p)
  guard-Saved false e n js s p h = h

  gets-Saved :
      (n : Bool → M P (Unit {0})) (js : List Job) (s : JobStore W J)
      → Saved js tt s (n s.path s)
      → Saved js tt s ((gets (λ (t : JobStore W J). t.path) >>= n) s)
  unfolding ◌>>=◌
  gets-Saved n js s h = h

  pub save-Saved : (js : List Job) (s : JobStore W J) → s.path ≡ true → Saved js tt s (save P js s)
  unfolding save
  save-Saved js s p = guard-Saved _ _ _ js s p (gets-Saved _ js s (path-Saved s.path js s refl p))

  pub then-Saved :
      {A : Type 0} (js : List Job) (a : A) (s : JobStore W J)
      → s.path ≡ true
      → Saved js a s ((save P js >> pure a) s)
  unfolding ◌>>=◌
  then-Saved js a s p = go (save P js s) (save-Saved js s p)
    where
      go :
          (x : Outcome (Unit {0}) × JobStore W J)
          → Saved js tt s x
          → Saved js a s (Effects.continue x.0 (λ _. pure a) x.1)
      go (ok u, t) (inl (_, h1, h2, h3)) = inl (refl, h1, h2, h3)
      go (ok u, t) (inr (e, h, _, _, _)) = absurd (cc h)
      go (raised x, t) (inl (h, _, _, _)) = absurd (cc h)
      go (raised x, t) (inr (e, _, k1, k2, k3)) = inr (x, refl, k1, k2, k3)

  -- What `update` does where it knows the job, and where it does not.
  abbrev pub Updated : String → (Job → Job) → JobStore W J → Outcome Job × JobStore W J → Type 0
  Updated id values s x =
      ((j : Job) × (find (has_id id) s.jobs ≡ some j)
        × Saved (put (values j) s.jobs) (values j) s x)
      ⊎ ((e : Error) × (x ≡ (raised e, s)))

  after_known :
      (id : String) (values : Job → Job) (s : JobStore W J) (o : Option Job)
      → s.path ≡ true
      → find (has_id id) s.jobs ≡ o
      → Updated id values s (
          (lift (known P o) >>= (λ j.
              gets (λ (t : JobStore W J). t.jobs)
              >>= (λ js. save P (put (values j) js) >> pure (values j))))
            s)
  unfolding ◌>>=◌
  after_known id values s none p f = inr (_, refl)
  after_known id values s (some j) p f =
      inl (j, f, then-Saved (put (values j) s.jobs) (values j) s p)

  pub update-Updated :
      (id : String) (values : Job → Job) (s : JobStore W J)
      → s.path ≡ true
      → Updated id values s (update P id values s)
  unfolding update get ◌>>=◌
  update-Updated id values s p = after_known id values s (find (has_id id) s.jobs) p refl

-- ===== src/Jobs/Opened.antt =====
-- pilot_v1/jobs.py: what `JobStore` makes of the file when it starts.
use aws_secops.Prelude.{
  Bool, Bool-cases, List, Option, [], any, ap, arith, false, if◌then◌else◌, inl, inr, length, ltb,
  map, none, refl, some, subst, sym, true, ℕ, ◌++◌, ◌∙◌, ◌∷◌, ◌≡◌, ◌⊎◌, append_nothing,
}
use aws_secops.Effects.{◌>>=◌, Outcome, Error, lift, ok, pure, raised}
use aws_secops.Effects.Outcomes.{>>=-eq-ok}
use aws_secops.Jobs.Types.{Platform, Job, is_executing, max_jobs}
use aws_secops.Jobs.Store.{
  JobStore, check_job, load_jobs, load_payload, load_bytes, or_corrupt, recover, recovered,
  open_from, open_store, save,
}
use aws_secops.Jobs.Saving.{save-Saved}
use aws_secops.Jobs.Stable.{IsStable, IsKept, OnFile, Saved-IsKept}

append_one : (js ks : List Job) (j : Job) → (js ++ (j ∷ [])) ++ ks ≡ js ++ (j ∷ ks)
append_one [] ks j = refl
append_one (l ∷ js) ks j = ap (λ ls. l ∷ ls) (append_one js ks j)

-- The tests on the stored jobs change nothing.
load_jobs-same : (ks js ls : List Job) → load_jobs ks js ≡ ok ls → js ++ ks ≡ ls
unfolding load_jobs
load_jobs-same [] js ls e = append_nothing js ∙ cc e
load_jobs-same (k ∷ ks) js ls e =
    let (u, checked, rest) = >>=-eq-ok (check_job k js) (λ _. load_jobs ks (js ++ (k ∷ []))) ls e in
    sym (append_one js ks k) ∙ load_jobs-same ks (js ++ (k ∷ [])) ls rest

module _ {W J : Type 0} (P : Platform W J) where
  payload-same : (o : Option (List Job)) (ls : List Job) → load_payload P o ≡ ok ls → o ≡ some ls
  payload-same none ls e = absurd (cc e)
  payload-same (some js) ls e = elim (Bool-cases (ltb max_jobs (length js))) [
    | inl large ↦ absurd (ground arith)
    | inr fits ↦ ap some (load_jobs-same js [] ls (ground arith))
  ]

  pub load_bytes-same :
      (bytes : J) (ls : List Job) → load_bytes P bytes ≡ ok ls → P.decode bytes ≡ some ls
  load_bytes-same bytes ls e = elim (Bool-cases (ltb 256000 (P.size bytes))) [
    | inl large ↦ absurd (ground arith)
    | inr fits ↦ payload-same (P.decode bytes) ls (ground arith)
  ]

  module _ (law : (js : List Job) → P.decode (P.encode js) ≡ some js) (Q : ℕ → List Job → Type 0)
      (stable : IsStable Q) (n : ℕ) where
    -- It has returned, and the property holds; or it has raised, and it holds of the file.
    abbrev pub Opened : {A : Type 0} → Outcome A × JobStore W J → Type 0
    Opened x =
        IsKept P (Q n) x.1
        ⊎ ((e : Error) × (x.0 ≡ raised e) × (x.1.path ≡ true) × OnFile P (Q n) x.1.file)

    recover-IsKept :
        (b : Bool) (js : List Job) (s : JobStore W J)
        → IsKept P (Q n) s
        → s.jobs ≡ js
        → IsKept P (Q n) ((if b then save P (map (recovered (P.now s.world)) js) else pure tt) s).1
    recover-IsKept true js s h e =
        Saved-IsKept P law h (stable.recover n _ js (subst (Q n) e h.in_memory))
          (save-Saved P _ s h.has_file)
    recover-IsKept false js s h e = unfold ◌>>=◌ in h

    bytes-Opened :
        (r : Outcome (List Job)) (bytes : J) (s : JobStore W J)
        → load_bytes P bytes ≡ r
        → s.path ≡ true
        → s.file ≡ some bytes
        → OnFile P (Q n) s.file
        → Opened ((lift (or_corrupt P r) >>= recover P) s)
    unfolding ◌>>=◌ recover
    bytes-Opened (ok js) bytes s e path file held =
        let sound : Q n js = subst (OnFile P (Q n)) file held js (load_bytes-same bytes js e) in
        inl (
          recover-IsKept (any (λ (j : Job). is_executing j.state) js) js (record s { jobs = js })
            (record { has_file = path; in_memory = sound; on_file = held }) refl)
    bytes-Opened (raised x) bytes s e path file held = inr (_, refl, path, held)

    file-Opened :
        (o : Option J) (s : JobStore W J)
        → s.path ≡ true
        → s.file ≡ o
        → s.jobs ≡ []
        → OnFile P (Q n) s.file
        → Opened (open_from P o s)
    unfolding ◌>>=◌
    file-Opened none s path file nothing held = inl (record {
      has_file = path;
      in_memory = subst (Q n) (sym nothing) (subst (OnFile P (Q n)) file held);
      on_file = held;
    })
    file-Opened (some bytes) s path file nothing held =
        bytes-Opened (load_bytes P bytes) bytes s refl path file held

    pub open_store-Opened :
        (s : JobStore W J) → s.path ≡ true → OnFile P (Q n) s.file → Opened (open_store P s)
    unfolding open_store ◌>>=◌
    open_store-Opened s path held = with_path s.path path
      where
        with_path :
            (b : Bool)
            → b ≡ true
            → Opened ((if b then open_from P s.file else pure tt) (record s { jobs = [] }))
        with_path true e = file-Opened s.file (record s { jobs = [] }) path refl refl held
        with_path false e = absurd (cc e)

-- ===== src/Jobs/Laws.antt =====
-- pilot_v1/jobs.py: the dict of jobs.
use aws_secops.Prelude.{
  Bool, Bool-cases, List, String, [], all, any, arith, count, false, find, if◌then◌else◌, inl, inr,
  some, subst, true, ≟_refl, ≟→eq, ◌+◌, ◌∷◌, ◌≟◌, ◌≡◌, find-holds, map, refl, Option, ap, sym, none,
}
use aws_secops.Jobs.Types.{Job}
use aws_secops.Jobs.Store.{has_id, put, recovered}

pub count-put :
    (p : Job → Bool) (id : String) (j j' : Job) (js : List Job)
    → find (has_id id) js ≡ some j
    → j'.job_id ≡ id
    → count p (put j' js) + (if p j then 1 else 0) ≡ count p js + (if p j' then 1 else 0)
unfolding put
count-put p id j j' [] f e = absurd (cc f)
count-put p id j j' (k ∷ ks) f e = rw e (ground (arith, count-put p id j j' ks))

pub count-put_new :
    (p : Job → Bool) (j : Job) (js : List Job)
    → any (has_id j.job_id) js ≡ false
    → count p (put j js) ≡ count p js + (if p j then 1 else 0)
unfolding put
count-put_new p j [] f = omega arith
count-put_new p j (k ∷ ks) f = ground (arith, count-put_new p j ks)

pub all-put :
    (p : Job → Bool) (j : Job) (js : List Job)
    → all p js ≡ true
    → p j ≡ true
    → all p (put j js) ≡ true
unfolding put
all-put p j [] h e = ground arith
all-put p j (k ∷ ks) h e = ground (arith, all-put p j ks)

-- The job that is put in is found.
pub find-put : (j : Job) (js : List Job) → find (has_id j.job_id) (put j js) ≡ some j
unfolding put
find-put j [] = ground (arith, ≟_refl j.job_id)
find-put j (k ∷ ks) = ground (arith, ≟_refl j.job_id, find-put j ks)

-- Another job is found as before.
pub find-put_elsewhere :
    (id : String) (j : Job) (js : List Job)
    → (j.job_id ≟ id) ≡ false
    → find (has_id id) (put j js) ≡ find (has_id id) js
unfolding put
find-put_elsewhere id j [] h = ground arith
find-put_elsewhere id j (k ∷ ks) h = elim (Bool-cases (has_id j.job_id k)) [
  | inl same ↦
      let unlike : (k.job_id ≟ id) ≡ false =
        subst (λ n. (n ≟ id) ≡ false) (sym (≟→eq k.job_id j.job_id same)) h in
      rw (same, h, unlike) refl
  | inr unlike ↦ rw unlike (ground (arith, find-put_elsewhere id j ks))
]

-- A new job has another id than one that is there.
pub new_elsewhere :
    (id : String) (j k : Job) (js : List Job)
    → find (has_id id) js ≡ some k
    → any (has_id j.job_id) js ≡ false
    → (j.job_id ≟ id) ≡ false
new_elsewhere id j k [] f h = absurd (cc f)
new_elsewhere id j k (l ∷ ls) f h = elim (Bool-cases (has_id id l)) [
  | inl here ↦ elim (Bool-cases (j.job_id ≟ id)) [
    | inr unlike ↦ unlike
    | inl same ↦ absurd (ground (arith, ≟→eq j.job_id id))
  ]
  | inr elsewhere ↦ new_elsewhere id j k ls (ground arith) (ground arith)
]

abbrev over : (Job → Job) → Option Job → Option Job
over f none = none
over f (some j) = some (f j)

pub recovered_id : (now : String) (j : Job) → (recovered now j).job_id ≡ j.job_id
unfolding recovered
recovered_id now j = ground arith

pub find-recovered :
    (id now : String) (j : Job) (js : List Job)
    → find (has_id id) js ≡ some j
    → find (has_id id) (map (recovered now) js) ≡ some (recovered now j)
find-recovered id now j [] f = absurd (cc f)
find-recovered id now j (k ∷ ks) f = elim (Bool-cases (has_id id k)) [
  | inl here ↦ rw (same_id true here) (ap (over (recovered now)) (first here f))
  | inr elsewhere ↦ rw (same_id false elsewhere) (find-recovered id now j ks (rest elsewhere f))
]
  where
    same_id : (b : Bool) → has_id id k ≡ b → has_id id (recovered now k) ≡ b
    same_id b h = subst (λ n. (n ≟ id) ≡ b) (sym (recovered_id now k)) h

    first : has_id id k ≡ true → find (has_id id) (k ∷ ks) ≡ some j → some k ≡ some j
    first h g = ground arith

    rest : has_id id k ≡ false → find (has_id id) (k ∷ ks) ≡ some j → find (has_id id) ks ≡ some j
    rest h g = ground arith

pub find-has_id :
    (id : String) (j : Job) (js : List Job) → find (has_id id) js ≡ some j → j.job_id ≡ id
find-has_id id j js f = ≟→eq j.job_id id (find-holds (has_id id) js j f)

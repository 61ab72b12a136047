-- ===== src/Jobs/Spending.antt =====
-- pilot_v1/service.py: remediation calls and approved jobs; a decision stays.
use aws_secops.Prelude.{
  Bool, Bool-cases, List, String, [], ap, arith, count, eq→≟, false, find, if◌then◌else◌, inl, inr,
  map, not, refl, some, subst, suc, true, ℕ, ≟→eq, ◌&&◌, ◌+◌, ◌∙◌, ◌∷◌, ◌≟◌, ◌≡◌, ◌≤◌,
}
use aws_secops.Jobs.Types.{
  JobState, pending, executing, rejected, denied, completed, Job, is_pending, is_executing, failed,
}
use aws_secops.Jobs.Store.{has_id, put, recovered}
use aws_secops.Jobs.Stable.{IsStable}
use aws_secops.Jobs.Laws.{
  count-put, count-put_new, find-put, find-put_elsewhere, new_elsewhere, find-recovered,
}

-- The job has been approved.
abbrev pub is_spent : Job → Bool
is_spent j = not (is_pending j.state) && j.human_decision ≟ "APPROVE"

-- No more calls than approved jobs.
abbrev pub Paid : ℕ → List Job → Type 0
Paid n js = n ≤ count is_spent js

executing_closed : (st : JobState) → is_executing st ≡ true → is_pending st ≡ false
executing_closed executing e = refl
executing_closed pending e = absurd (cc e)
executing_closed rejected e = refl
executing_closed denied e = refl
executing_closed completed e = refl
executing_closed failed e = refl

spent-recovered : (now : String) (j : Job) → is_spent (recovered now j) ≡ is_spent j
unfolding recovered
spent-recovered now j = elim (Bool-cases (is_executing j.state)) [
  | inl e ↦ rw (e, executing_closed j.state e) refl
  | inr e ↦ rw e refl
]

count-recovered :
    (now : String) (js : List Job) → count is_spent (map (recovered now) js) ≡ count is_spent js
count-recovered now [] = refl
count-recovered now (j ∷ js) =
    rw (spent-recovered now j)
      (ap (λ n. (if is_spent j then 1 else 0) + n) (count-recovered now js))

spend_one :
    (n : ℕ) (js : List Job) (j j' : Job)
    → find (has_id j'.job_id) js ≡ some j
    → is_pending j.state ≡ true
    → is_pending j'.state ≡ false
    → j'.human_decision ≡ "APPROVE"
    → Paid n js
    → Paid (suc n) (put j' js)
spend_one n js j j' f p q a h =
    let before : is_spent j ≡ false = ground arith in
    let later : is_spent j' ≡ true = ground (arith, eq→≟ j'.human_decision "APPROVE") in
    ground (arith, count-put is_spent j'.job_id j j' js f refl)

change_one :
    (n : ℕ) (js : List Job) (j j' : Job)
    → find (has_id j'.job_id) js ≡ some j
    → is_pending j'.state ≡ false
    → (is_pending j.state ≡ false → j'.human_decision ≡ j.human_decision)
    → Paid n js
    → Paid n (put j' js)
change_one n js j j' f p same h = elim (Bool-cases (is_pending j.state)) [
  | inl open_job ↦ ground (arith, count-put is_spent j'.job_id j j' js f refl)
  | inr closed ↦
      let alike : j'.human_decision ≡ j.human_decision = same closed in
      let equal : is_spent j' ≡ is_spent j = rw (p, closed, alike) refl in
      omega (
        arith,
        count-put is_spent j'.job_id j j' js f refl,
        ap {B = ℕ} (λ (b : Bool). if b then 1 else 0) equal,
      )
]

pub Paid-IsStable : IsStable Paid
Paid-IsStable = record {
  fewer = λ n js h. omega (arith, h);
  spend = spend_one;
  change = change_one;
  add = λ n js j f h. omega (arith, count-put_new is_spent j js f, h);
  recover = λ n now js h. omega (arith, count-recovered now js, h);
}

-- The job of that id is there and has been decided.
abbrev pub Closed : String → ℕ → List Job → Type 0
Closed id n js = (j : Job) × (find (has_id id) js ≡ some j) × (is_pending j.state ≡ false)

recovered_decided :
    (now : String) (j : Job)
    → is_pending j.state ≡ false
    → is_pending (recovered now j).state ≡ false
unfolding recovered
recovered_decided now j h = elim (Bool-cases (is_executing j.state)) [
  | inl e ↦ rw e refl
  | inr e ↦ rw e h
]

put_decided :
    (id : String) (n : ℕ) (js : List Job) (j' : Job)
    → is_pending j'.state ≡ false
    → Closed id n js
    → Closed id n (put j' js)
put_decided id n js j' p (k, there, decided) = elim (Bool-cases (j'.job_id ≟ id)) [
  | inl mine ↦ (
    j',
    subst (λ m. find (has_id m) (put j' js) ≡ some j') (≟→eq j'.job_id id mine) (find-put j' js),
    p,
  )
  | inr elsewhere ↦ (k, find-put_elsewhere id j' js elsewhere ∙ there, decided)
]

pub Closed-IsStable : (id : String) → IsStable (Closed id)
Closed-IsStable id = record {
  fewer = λ n js h. h;
  spend = λ n js j j' f p q a h. put_decided id n js j' q h;
  change = λ n js j j' f p same h. put_decided id n js j' p h;
  add = λ n js j f h.
      (h.0, find-put_elsewhere id j js (new_elsewhere id j h.0 js (h.1) f) ∙ h.1, h.2);
  recover = λ n now js h.
      (recovered now h.0, find-recovered id now h.0 js (h.1), recovered_decided now h.0 (h.2));
}

-- ===== src/Pilot/Dict.antt =====
-- compliance_agent_v1/csv_bulk_pilot.py: the dict of batches.
use aws_secops.Pilot.Preview.{key}
use aws_secops.Prelude.{
  Bool-cases, List, String, [], arith, false, inl, inr, refl, some, subst, sym, ≟_refl, ≟→eq, ◌∷◌,
  ◌≟◌, ◌≡◌,
}
use aws_secops.Pilot.Types.{Batch}
use aws_secops.Pilot.Batches.{find_batch, put_batch}

pub find-put :
    (id : String) (b : Batch) (bs : List (String × Batch))
    → find_batch id (put_batch id b bs) ≡ some b
unfolding find_batch put_batch
find-put id b [] = ground (arith, ≟_refl id)
find-put id b ((key, c) ∷ bs) = ground (arith, ≟_refl id, find-put id b bs)

pub find-put_elsewhere :
    (id other_id : String) (b : Batch) (bs : List (String × Batch))
    → (other_id ≟ id) ≡ false
    → find_batch id (put_batch other_id b bs) ≡ find_batch id bs
unfolding find_batch put_batch
find-put_elsewhere id other_id b [] h = ground arith
find-put_elsewhere id other_id b ((key, c) ∷ bs) h = elim (Bool-cases (key ≟ other_id)) [
  | inl same ↦
      let unlike : (key ≟ id) ≡ false =
        subst (λ n. (n ≟ id) ≡ false) (sym (≟→eq key other_id same)) h in
      rw (same, unlike) refl
  | inr differs ↦ rw differs (ground (arith, find-put_elsewhere id other_id b bs))
]

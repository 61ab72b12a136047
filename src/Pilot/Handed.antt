-- ===== src/Pilot/Handed.antt =====
-- compliance_agent_v1/csv_bulk_pilot.py: the loop of `execute_approved` and its log.
use aws_secops.Prelude.{
  Bool, Bool-cases, List, String, [], ap, arith, false, if◌then◌else◌, inl, inr, keep, map, refl,
  sym, true, ≟_refl, ◌++◌, ◌∷◌, ◌≟◌, ◌≡◌, append_nothing,
}
use aws_secops.Pilot.Types.{Batch, BatchDecision, PreviewRow, Execution, completed, partial}
use aws_secops.Pilot.Preview.{is_row_eligible, key}
use aws_secops.Pilot.Batches.{execute_rows}

append_later : {A : Type 0} (xs ys zs : List A) → (xs ++ ys) ++ zs ≡ xs ++ (ys ++ zs)
append_later [] ys zs = refl
append_later (x ∷ xs) ys zs = ap (λ l. x ∷ l) (append_later xs ys zs)

-- The rows of a batch that were handed to an executor, in their order.
abbrev pub rows_of : String → List (String × PreviewRow) → List PreviewRow
rows_of id log =
    map (λ (e : String × PreviewRow). e.1) (keep (λ (e : String × PreviewRow). e.0 ≟ id) log)

-- The rows that the results of a batch speak of.
abbrev pub rows_recorded : Batch → List PreviewRow
rows_recorded b = map (λ (e : Execution). e.row) b.execution

-- The loop hands over the eligible rows, in their order, and has a result for each.

pub execute_rows-logged :
    (id : String) (failing : List String) (rs : List PreviewRow) (log : List (String × PreviewRow))
    → (execute_rows id failing rs log).1
      ≡ log ++ map (λ (r : PreviewRow). (id, r)) (keep is_row_eligible rs)
unfolding execute_rows
execute_rows-logged id failing [] log = sym (append_nothing log)
execute_rows-logged id failing (r ∷ rs) log = elim (Bool-cases (is_row_eligible r)) [
  | inl yes_it ↦
      rw (yes_it, execute_rows-logged id failing rs (log ++ ((id, r) ∷ [])))
        (append_later log ((id, r) ∷ [])
          (map (λ (r : PreviewRow). (id, r)) (keep is_row_eligible rs)))
  | inr not_it ↦ rw (not_it, execute_rows-logged id failing rs log) refl
]

pub execute_rows-recorded :
    (id : String) (failing : List String) (rs : List PreviewRow) (log : List (String × PreviewRow))
    → map (λ (e : Execution). e.row) (execute_rows id failing rs log).0 ≡ keep is_row_eligible rs
unfolding execute_rows
execute_rows-recorded id failing [] log = refl
execute_rows-recorded id failing (r ∷ rs) log = elim (Bool-cases (is_row_eligible r)) [
  | inl yes_it ↦ rw (yes_it, execute_rows-recorded id failing rs (log ++ ((id, r) ∷ []))) refl
  | inr not_it ↦ rw (not_it, execute_rows-recorded id failing rs log) refl
]

abbrev pub is_done : BatchDecision → Bool
is_done completed = true
is_done partial = true
is_done _ = false

-- What must have been handed over by then.
abbrev pub due : Batch → List PreviewRow
due b = if is_done b.decision then keep is_row_eligible b.rows else []

pub rows_of-append :
    (id : String) (log more : List (String × PreviewRow))
    → rows_of id (log ++ more) ≡ rows_of id log ++ rows_of id more
rows_of-append id [] more = refl
rows_of-append id ((key, r) ∷ log) more = ground (arith, rows_of-append id log more)

pub rows_of-mine :
    (id : String) (rs : List PreviewRow) → rows_of id (map (λ (r : PreviewRow). (id, r)) rs) ≡ rs
rows_of-mine id [] = refl
rows_of-mine id (r ∷ rs) = ground (arith, ≟_refl id, rows_of-mine id rs)

pub rows_of-others :
    (id key : String) (rs : List PreviewRow)
    → (key ≟ id) ≡ false
    → rows_of id (map (λ (r : PreviewRow). (key, r)) rs) ≡ []
rows_of-others id key [] h = refl
rows_of-others id key (r ∷ rs) h = ground (arith, rows_of-others id key rs h)

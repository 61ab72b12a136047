-- ===== src/Receipts/Chain.antt =====
-- pilot_v1/native_decision_receipt.py: a table whose rows are chained by their hashes. `prior` is
-- the row's `prior_hash` column and `digest` the hash of a row's event at its sequence number.
use Prim.Native.Nat.{max}
use aws_secops.Receipts.Types.{Link}
use aws_secops.Prelude.{Bool, List, String, [], suc, true, ℕ, ◌&&◌, ◌==◌, ◌∷◌, ◌≟◌}

module _ {A : Type 0} (prior : A → String) (digest : ℕ → A → String) where
  -- `sequence != number or prior_hash != previous or event_hash != ...`, negated
  abbrev pub linked : ℕ → String → Link A → Bool
  linked number previous row =
      row.sequence == number
      && row.event_hash ≟ digest row.sequence row.event
      && prior row.event ≟ previous

  -- One of the loops of `verify`, from a row number and the hash of the row before.
  abbrev pub verify_rows : ℕ → String → List (Link A) → Bool
  verify_rows number previous [] = true
  verify_rows number previous (row ∷ rows) =
      linked number previous row && verify_rows (suc number) row.event_hash rows

-- `SELECT event_hash ... ORDER BY sequence DESC LIMIT 1`, or the hash before the first row
abbrev pub last_hash : {A : Type 0} → String → List (Link A) → String
last_hash previous [] = previous
last_hash previous (row ∷ rows) = last_hash row.event_hash rows

-- `SELECT COALESCE(MAX(sequence),0)`
abbrev pub max_sequence : {A : Type 0} → List (Link A) → ℕ
max_sequence [] = 0
max_sequence (row ∷ rows) = max row.sequence (max_sequence rows)

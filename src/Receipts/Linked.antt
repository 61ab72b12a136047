-- ===== src/Receipts/Linked.antt =====
-- pilot_v1/native_decision_receipt.py: a chained table with one more row.
use Prim.Native.Nat.{max}
use aws_secops.Receipts.Types.{Link}
use aws_secops.Receipts.Chain.{last_hash, max_sequence, verify_rows}
use aws_secops.Prelude.{List, String, [], arith, eq→≟, length, suc, true, ℕ, ◌++◌, ◌+◌, ◌∷◌, ◌≡◌}

module _ {A : Type 0} (prior : A → String) (digest : ℕ → A → String) where
  pub verify_rows-append :
      (number : ℕ) (previous : String) (rows : List (Link A)) (row : Link A)
      → verify_rows prior digest number previous rows ≡ true
      → row.sequence ≡ number + length rows
      → row.event_hash ≡ digest row.sequence row.event
      → prior row.event ≡ last_hash previous rows
      → verify_rows prior digest number previous (rows ++ (row ∷ [])) ≡ true
  verify_rows-append number previous [] row h a b c =
      let b' = eq→≟ row.event_hash (digest row.sequence row.event) b in
      let c' = eq→≟ (prior row.event) previous c in ground arith
  verify_rows-append number previous (r ∷ rs) row h a b c =
      let more : row.sequence ≡ suc number + length rs = omega (arith, a) in
      ground (arith, verify_rows-append (suc number) r.event_hash rs row)

pub max_sequence-append :
    {A : Type 0} (rows : List (Link A)) (row : Link A)
    → max_sequence (rows ++ (row ∷ [])) ≡ max (max_sequence rows) row.sequence
max_sequence-append [] row = omega arith
max_sequence-append (r ∷ rs) row = omega (arith, max_sequence-append rs row)

-- ===== src/Bulk/Preserves.antt =====
-- pilot_v1/bulk.py: a property of the batch, in memory and in the journal, through `assign`,
-- `save`, `require`.
use aws_secops.Prelude.{
  subst, ◌≡◌, String, true, ◌≟◌, some, inl, inr, ◌⊎◌, Bool-cases, Option-cases, arith, List,
}
use aws_secops.Effects.{Outcome-cases, Error, ok, raised, value_error, runtime_error, ◌>>=◌, ◌>>◌}
use aws_secops.Effects.Keeps.{Keeps, Keeps-then, Keeps-lift, Keeps-raise_if}
use aws_secops.Bulk.Types.{Batch, Platform, Write, written, raised_before, raised_after}
use aws_secops.Bulk.Validate.{validate}
use aws_secops.Bulk.Store.{
  replaced, BulkStore, M, assign, loaded, save, require, write_journal, Dispatch,
}

-- `Q` holds of the batch in memory and of the batch that the journal would load as, and
-- `L` is the list of dispatches.
pub record Holds {W J : Type 0} (P : Platform W J) (Q : Batch → Type 0) (L : List Dispatch)
    (s : BulkStore W J) : Type 0 where
  pub in_memory : (d : Batch) → s.current ≡ some d → Q d
  pub in_journal : (b : J) (d : Batch) → s.journal ≡ some b → P.decode b ≡ some d → Q d
  pub log : s.dispatches ≡ L

-- `require` raises, or hands back the batch in memory, which it has validated; it changes nothing.
pub require-cases :
    {W J : Type 0} (P : Platform W J) (id : String) (s : BulkStore W J)
    → ((e : Error) × (require P id s ≡ (raised e, s)))
      ⊎ ((d : Batch) × (s.current ≡ some d)
          × ((id ≟ d.id) ≡ true)
          × (validate P d ≡ ok tt)
          × (require P id s ≡ (ok d, s)))
unfolding require ◌>>=◌
require-cases P id s = elim (Option-cases s.current) [
  | inl nothing ↦ inl (value_error "unknown batch or stale preview", rw nothing)
  | inr (d, at) ↦ elim (Bool-cases (id ≟ d.id)) [
    | inr differs ↦ inl (value_error "unknown batch or stale preview", ground arith)
    | inl same ↦ elim (Outcome-cases (validate P d)) [
      | inl (u, fine) ↦ inr (d, at, same, fine, ground arith)
      | inr (e, bad) ↦ inl (e, ground arith)
    ]
  ]
]

pub loaded-cases :
    {W J : Type 0} (P : Platform W J) (s : BulkStore W J)
    → ((e : Error) × (loaded P s ≡ (raised e, s)))
      ⊎ ((d : Batch) × (s.current ≡ some d) × (loaded P s ≡ (ok d, s)))
unfolding loaded
loaded-cases P s = elim (Option-cases s.current) [
  | inl nothing ↦ inl (runtime_error "no batch", ground arith)
  | inr (d, at) ↦ inr (d, at, ground arith)
]

module _ {W J : Type 0} (P : Platform W J) (law : (d : Batch) → P.decode (P.encode d) ≡ some d)
    (Q : Batch → Type 0) {L : List Dispatch} where
  pub assign-Holds : (d : Batch) → Q d → Keeps (Holds P Q L) (assign P d)
  unfolding assign ◌>>=◌
  assign-Holds d q = record {
    at = λ s h. record {
      in_memory = λ x e. let same : d ≡ x = cc in subst Q same q;
      in_journal = h.in_journal;
      log = h.log;
    };
  }

  written-Holds : (d : Batch) → Q d → Keeps (Holds P Q L) (write_journal P (some (P.encode d)))
  unfolding write_journal
  written-Holds d q = record { at = λ s h. go s h (P.write s.world).0 }
    where
      at_rest : (b : J) (x : Batch) → some (P.encode d) ≡ some b → P.decode b ≡ some x → Q x
      at_rest b x e k = let same : d ≡ x = cc (law d) in subst Q same q

      go :
          (s : BulkStore W J)
          → Holds P Q L s
          → (w : Write)
          → Holds P Q L (record s {
            journal = replaced P w (some (P.encode d)) s.journal;
            world = (P.write s.world).1;
          })
      go s h written = record { in_memory = h.in_memory; in_journal = at_rest; log = h.log }
      go s h raised_before = record {
        in_memory = h.in_memory;
        in_journal = h.in_journal;
        log = h.log;
      }
      go s h raised_after = record { in_memory = h.in_memory; in_journal = at_rest; log = h.log }

  pub save-Holds : (d : Batch) → Q d → Keeps (Holds P Q L) (save P d)
  unfolding save
  save-Holds d q = Keeps-then (Keeps-lift _) (Keeps-then (Keeps-raise_if _ _) (written-Holds d q))

  -- `self.data = d; self.save()`
  pub store-Holds : (d : Batch) → Q d → Keeps (Holds P Q L) (assign P d >> save P d)
  store-Holds d q = Keeps-then (assign-Holds d q) (save-Holds d q)

  -- After `require` the batch at hand is the one in memory.
  pub require-Holds :
      {B : Type 0} (id : String) (f : Batch → M P B)
      → ((d : Batch) → Q d → Keeps (Holds P Q L) (f d))
      → Keeps (Holds P Q L) (require P id >>= f)
  unfolding ◌>>=◌
  require-Holds id f k = record {
    at = λ s h. elim (require-cases P id s) [
      | inl (e, r) ↦ rw r h
      | inr (d, at, _, _, r) ↦ rw r ((k d (h.in_memory d at)).at s h)
    ];
  }

  pub loaded-Holds :
      {B : Type 0} (f : Batch → M P B)
      → ((d : Batch) → Q d → Keeps (Holds P Q L) (f d))
      → Keeps (Holds P Q L) (loaded P >>= f)
  unfolding ◌>>=◌
  loaded-Holds f k = record {
    at = λ s h. elim (loaded-cases P s) [
      | inl (e, r) ↦ rw r h
      | inr (d, at, r) ↦ rw r ((k d (h.in_memory d at)).at s h)
    ];
  }

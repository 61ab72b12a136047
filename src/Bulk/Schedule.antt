-- ===== src/Bulk/Schedule.antt =====
-- pilot_v1/bulk.py: a property of the batch through `claim` and `open_store`.
use aws_secops.Effects.{Outcome, ok, raised}
use aws_secops.Bulk.Lifecycle.{
  interrupt, open_store, recover, adopt, decoded, load, new_process, open_from, or_corrupt,
}
use aws_secops.Bulk.Reports.{named}
use aws_secops.Bulk.Store.{has_state, with_items, BulkStore, expire, fail_unclaimed, Dispatch}
use aws_secops.Effects.Keeps.{
  Keeps, Keeps-pure, Keeps-raise, Keeps-raise_if, Keeps-then, Keeps-bind_lift, Keeps-if, Keeps-lift,
}
use aws_secops.Bulk.Worker.{
  claim, claim_first, claim_item, claimed, update_item, at_name, claim_checked,
}
use aws_secops.Bulk.Preserves.{Holds, assign-Holds, save-Holds, require-Holds}
use aws_secops.Bulk.Stable.{
  Settles, at_name-Settles, claimed-Settles, expire-Settles, interrupt-Settles,
}
use aws_secops.Prelude.{Option, String, find, map, none, some, ◌≡◌, true, refl, List}
use aws_secops.Bulk.Types.{Batch, Item, Platform, Resource, approved}

recovered :
    {W J : Type 0} (P : Platform W J) (Q : Batch → Type 0)
    → ((f : Item → Item) → Settles f → (d : Batch) → Q d → Q (with_items d (map f d.items)))
    → (d : Batch) → Q d
    → Q (recover P d).1
unfolding recover fail_unclaimed
recovered P Q stable d q =
    let interrupted = with_items d (map interrupt d.items) in
    stable expire expire-Settles interrupted (stable interrupt interrupt-Settles d q)

module _ {W J : Type 0} (P : Platform W J) (law : (d : Batch) → P.decode (P.encode d) ≡ some d)
    (Q : Batch → Type 0)
    (stable : (f : Item → Item) → Settles f → (d : Batch) → Q d → Q (with_items d (map f d.items)))
    {L : List Dispatch} where
  claim_item-Holds :
      (d : Batch) (i : Item) (o : Option Resource) → Q d → Keeps (Holds P Q L) (claim_item P d i o)
  unfolding claim_item
  claim_item-Holds d i none q = Keeps-raise _
  claim_item-Holds d i (some r) q =
      let q' =
        stable (at_name i.resource claimed) (at_name-Settles i.resource claimed claimed-Settles) d
          q in
      Keeps-then (assign-Holds P law Q (with_items d (update_item i.resource claimed d.items)) q') (
        Keeps-then (save-Holds P law Q (with_items d (update_item i.resource claimed d.items)) q')
          (Keeps-pure _))

  claim_first-Holds : (d : Batch) (o : Option Item) → Q d → Keeps (Holds P Q L) (claim_first P d o)
  unfolding claim_first
  claim_first-Holds d none q = Keeps-pure _
  claim_first-Holds d (some i) q =
      claim_item-Holds d i (find (named i.resource) d.manifest.resources) q

  pub claim-Holds : (id : String) → Keeps (Holds P Q L) (claim P id)
  unfolding claim claim_checked
  claim-Holds id = require-Holds P law Q id _ λ d q.
      Keeps-then (Keeps-raise_if _ _) (
        Keeps-then (Keeps-raise_if _ _) (claim_first-Holds d (find (has_state approved) d.items) q))

  adopt-Holds : (d : Batch) → Q d → Keeps (Holds P Q L) (adopt P d)
  unfolding adopt
  adopt-Holds d q = Keeps-then (assign-Holds P law Q d q) (
      Keeps-then (Keeps-lift _) (
        Keeps-then (assign-Holds P law Q (recover P d).1 (recovered P Q stable d q)) (
          Keeps-if _ _ _ (λ _. save-Holds P law Q (recover P d).1 (recovered P Q stable d q))
            (λ _. Keeps-pure _))))

  load-Holds :
      (bytes : J)
      → ((d : Batch) → P.decode bytes ≡ some d → Q d)
      → Keeps (Holds P Q L) (load P bytes)
  unfolding load
  load-Holds bytes q = Keeps-then (Keeps-raise_if _ _) (
      Keeps-bind_lift (decoded P (P.decode bytes))
        (λ d e. adopt-Holds d (q d (decoded_some (P.decode bytes) d e))))
    where
      decoded_some : (o : Option Batch) (d : Batch) → decoded P o ≡ ok d → o ≡ some d
      decoded_some none d e = cc
      decoded_some (some x) d e = cc

  or_corrupt-Holds :
      (x : Outcome (Unit {0}) × BulkStore W J) → Holds P Q L x.1 → Holds P Q L (or_corrupt P x).1
  or_corrupt-Holds (ok u, s) h = h
  or_corrupt-Holds (raised e, s) h = record {
    in_memory = λ d n. cc;
    in_journal = h.in_journal;
    log = h.log;
  }

  open_from-Holds :
      (o : Option J) (s : BulkStore W J)
      → s.journal ≡ o
      → Holds P Q L s
      → Holds P Q L (open_from P o s).1
  unfolding open_from
  open_from-Holds none s e h = h
  open_from-Holds (some bytes) s e h =
      or_corrupt-Holds (load P bytes s)
        ((load-Holds bytes (λ d k. h.in_journal bytes d e k)).at s h)

  -- A new process: what it holds comes from the journal.
  pub open_store-Holds : Keeps (Holds P Q L) (open_store P true)
  unfolding open_store
  open_store-Holds = record {
    at = λ s h.
        open_from-Holds s.journal (new_process P s) refl
          (record { in_memory = λ d n. cc; in_journal = h.in_journal; log = h.log });
  }

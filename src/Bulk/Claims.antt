-- ===== src/Bulk/Claims.antt =====
-- pilot_v1/bulk.py: what the claim that `step` gets rests on.
use aws_secops.Bulk.Preserves.{require-cases}
use aws_secops.Bulk.Reports.{named}
use aws_secops.Prelude.{
  Option, String, any, arith, false, find, none, some, true, ◌≡◌, ap, inl, inr, not, refl, sym, ◌∙◌,
}
use aws_secops.Bulk.Validate.{validate}
use aws_secops.Effects.{ok, ◌>>=◌, bind-returns, guard-returns, pure, ◌>>◌, Outcome}
use aws_secops.Bulk.Types.{Batch, Item, Platform, Resource, approved, unknown}
use aws_secops.Bulk.Worker.{
  Claim, claim, claim_item, claimed, is_approve, update_item, claim_checked, claim_first,
}
use aws_secops.Bulk.Store.{BulkStore, has_state, save, with_items, write_journal, assign, require}

-- What the claim `c` rests on, in the state `s` before it and the state `t` after it.
pub record Backed {W J : Type 0} (P : Platform W J) (c : Claim) (s t : BulkStore W J) : Type 0 where
  pub batch : Batch
  pub item : Item
  pub entry : Resource
  pub loaded_batch : s.current ≡ some batch
  pub valid : validate P batch ≡ ok tt
  pub decided_approve : is_approve batch.decision ≡ true
  pub none_unknown : any (has_state unknown) batch.items ≡ false
  pub first_approved : find (has_state approved) batch.items ≡ some item
  pub frozen : find (named item.resource) batch.manifest.resources ≡ some entry
  pub is_claim : c ≡ record { batch = batch.id; name = item.resource; before = entry.before }
  pub in_memory :
      t.current ≡ some (with_items batch (update_item item.resource claimed batch.items))
  pub durable :
      t.journal ≡ some (P.encode (with_items batch (update_item item.resource claimed batch.items)))
  pub no_dispatch : t.dispatches ≡ s.dispatches

module _ {W J : Type 0} (P : Platform W J) where
  pub save-returns :
      (d : Batch) (s t : BulkStore W J)
      → save P d s ≡ (ok tt, t)
      → (t.journal ≡ some (P.encode d)) × (t.current ≡ s.current) × (t.dispatches ≡ s.dispatches)
  unfolding save write_journal ◌>>=◌
  save-returns d s t e = ground arith

  pub require-returns :
      (id : String) (d : Batch) (s t : BulkStore W J)
      → require P id s ≡ (ok d, t)
      → (t ≡ s) × (s.current ≡ some d) × (validate P d ≡ ok tt)
  require-returns id d s t e = elim (require-cases P id s) [
    | inl (x, r) ↦ absurd (cc r)
    | inr (x, at, _, valid, r) ↦
        let same : x ≡ d = cc r in (cc r, at ∙ ap some same, ap (validate P) (sym same) ∙ valid)
  ]

  claim_item-returns :
      (d : Batch) (i : Item) (o : Option Resource) (c : Claim) (s t : BulkStore W J)
      → claim_item P d i o s ≡ (ok (some c), t)
      → (r : Resource) × (o ≡ some r)
        × (c ≡ record { batch = d.id; name = i.resource; before = r.before })
        × (t.current ≡ some (with_items d (update_item i.resource claimed d.items)))
        × (t.journal ≡ some (P.encode (with_items d (update_item i.resource claimed d.items))))
        × (t.dispatches ≡ s.dispatches)
  unfolding claim_item
  claim_item-returns d i none c s t e = absurd (unfold ◌>>=◌ in cc)
  claim_item-returns d i (some r) c s t e =
      let d' = with_items d (update_item i.resource claimed d.items) in
      let x : Claim = record { batch = d.id; name = i.resource; before = r.before } in
      let (_, s1, e1, rest1) =
        bind-returns (assign P d') (λ _. save P d' >> pure (some x)) s (some c) t e in
      let (_, s2, e2, rest2) = bind-returns (save P d') (λ _. pure (some x)) s1 (some c) t rest1 in
      let (journal, current, log) = save-returns d' s1 s2 e2 in
      let stored : s1.current ≡ some d' =
        unfold assign ◌>>=◌ in
        ap (λ (x : Outcome (Unit {0}) × BulkStore W J). x.1.current) (sym e1) in
      let logged : s1.dispatches ≡ s.dispatches =
        unfold assign ◌>>=◌ in
        ap (λ (x : Outcome (Unit {0}) × BulkStore W J). x.1.dispatches) (sym e1) in
      let same : s2 ≡ t = unfold ◌>>=◌ in cc in
      let claim_of : c ≡ x = unfold ◌>>=◌ in cc in
      (
        r,
        refl,
        claim_of,
        ap (λ (v : BulkStore W J). v.current) (sym same) ∙ current ∙ stored,
        ap (λ (v : BulkStore W J). v.journal) (sym same) ∙ journal,
        ap (λ (v : BulkStore W J). v.dispatches) (sym same) ∙ log ∙ logged,
      )

  claim_first-returns :
      (d : Batch) (o : Option Item) (c : Claim) (s t : BulkStore W J)
      → claim_first P d o s ≡ (ok (some c), t)
      → (i : Item) × (o ≡ some i)
        × (r : Resource) × (find (named i.resource) d.manifest.resources ≡ some r)
        × (c ≡ record { batch = d.id; name = i.resource; before = r.before })
        × (t.current ≡ some (with_items d (update_item i.resource claimed d.items)))
        × (t.journal ≡ some (P.encode (with_items d (update_item i.resource claimed d.items))))
        × (t.dispatches ≡ s.dispatches)
  unfolding claim_first
  claim_first-returns d none c s t e = absurd (unfold ◌>>=◌ in cc)
  claim_first-returns d (some i) c s t e =
      let x = claim_item-returns d i (find (named i.resource) d.manifest.resources) c s t e in
      (i, refl, x.0, x.1, x.2, x.3, x.4, x.5)

  -- A claim is handed out only for the first APPROVED item of a valid, approved batch with no
  -- UNKNOWN item, with the evidence that the manifest froze for it; by then the journal already
  -- holds the item as RUNNING, and nothing has been dispatched.
  pub claim-Backed :
      (id : String) (c : Claim) (s t : BulkStore W J)
      → claim P id s ≡ (ok (some c), t)
      → Backed P c s t
  unfolding claim claim_checked
  claim-Backed id c s t e =
      let (d, u, e1, rest1) = bind-returns (require P id) (claim_checked P) s (some c) t e in
      let (same, at, valid) = require-returns id d s u e1 in
      let (g1, rest2) = guard-returns (not (is_approve d.decision)) _ _ u (some c) t rest1 in
      let (g2, rest3) = guard-returns (any (has_state unknown) d.items) _ _ u (some c) t rest2 in
      let first = claim_first-returns d (find (has_state approved) d.items) c u t rest3 in
      let (i, found, r, frozen, is_claim, in_memory, durable, log) = first in
      record {
        batch = d;
        item = i;
        entry = r;
        loaded_batch = at;
        valid = valid;
        decided_approve = ground arith;
        none_unknown = g2;
        first_approved = found;
        frozen = frozen;
        is_claim = is_claim;
        in_memory = in_memory;
        durable = durable;
        no_dispatch = log ∙ ap (λ (v : BulkStore W J). v.dispatches) same;
      }

-- ===== src/Bulk/Decisions.antt =====
-- pilot_v1/bulk.py: `decide` on a preview, and a second time.
use aws_secops.Bulk.Reports.{summary}
use aws_secops.Bulk.Store.{BulkStore, assign, require, save, write_journal}
use aws_secops.Effects.{ok, Error, Outcome, raised, Outcome-cases, value_error, ◌>>=◌}
use aws_secops.Bulk.Validate.{validate, validate_items, item_error, item_round}
use aws_secops.Bulk.Lifecycle.{decide_batch, decided, is_undecided, decide}
use aws_secops.Prelude.{
  List, String, [], false, map, ◌∷◌, ◌≡◌, arith, Option, none, refl, some, sym, ap, inl, inr,
  length-map, ◌∙◌, ≟_refl, Each, Each-map,
}
use aws_secops.Bulk.Types.{
  Batch, Decision, Item, Platform, Resource, State, approved, denied, undecided, approve, reject,
}

-- The state that a decision gives to each item.
abbrev pub NewState : Decision → State → Type 0
NewState approve st = st ≡ approved
NewState reject st = st ≡ denied
NewState undecided st = ⊥

pub record IsTakenOn (dec : Decision) (i j : Item) : Type 0 where
  pub state : NewState dec j.state
  pub id : j.id ≡ i.id
  pub resource : j.resource ≡ i.resource
  pub after : j.after ≡ i.after
  pub changed : j.changed ≡ i.changed

pub record IsTaken (dec : Decision) (d e : Batch) : Type 0 where
  pub decision : e.decision ≡ dec
  pub id : e.id ≡ d.id
  pub manifest : e.manifest ≡ d.manifest
  pub items : Each (IsTakenOn dec) d.items e.items

decided-IsTakenOn :
    (dec : Decision) → is_undecided dec ≡ false → (i : Item) → IsTakenOn dec i (decided dec i)
decided-IsTakenOn undecided k i = absurd (cc k)
decided-IsTakenOn approve k i = record {
  state = refl;
  id = refl;
  resource = refl;
  after = refl;
  changed = refl;
}
decided-IsTakenOn reject k i = record {
  state = refl;
  id = refl;
  resource = refl;
  after = refl;
  changed = refl;
}

decide_batch-IsTaken :
    (dec : Decision) (d : Batch) → is_undecided dec ≡ false → IsTaken dec d (decide_batch dec d)
decide_batch-IsTaken dec d k = record {
  decision = refl;
  id = refl;
  manifest = refl;
  items = Each-map (IsTakenOn dec) (decided dec) (decided-IsTakenOn dec k) d.items;
}

module _ {W J : Type 0} (P : Platform W J) where
  item_error-decided :
      (dec : Decision)
      → is_undecided dec ≡ false
      → (names : List String) (r : Resource) (i : Item) → item_error P undecided names r i ≡ none
      → item_error P dec names r (decided dec i) ≡ none
  item_error-decided undecided k names r i h = absurd (cc k)
  item_error-decided approve k names r i h = ground arith
  item_error-decided reject k names r i h = ground arith

  item_round-returns :
      (e : Option Error) (name : String) (rest : Outcome (List String)) (found : List String)
      → item_round P e name rest ≡ ok found
      → (more : List String) × (e ≡ none) × (rest ≡ ok more) × (found ≡ name ∷ more)
  item_round-returns (some e) name rest found h = absurd (cc h)
  item_round-returns none name (raised e) found h = absurd (cc h)
  item_round-returns none name (ok more) found h = (more, refl, refl, cc h)

  validate_items-decided :
      (dec : Decision)
      → is_undecided dec ≡ false
      → (names : List String) (rs : List Resource) (is : List Item) (found : List String)
      → validate_items P undecided names rs is ≡ ok found
      → validate_items P dec names rs (map (decided dec) is) ≡ ok found
  validate_items-decided dec k names [] is found h = h
  validate_items-decided dec k names (r ∷ rs) [] found h = h
  validate_items-decided dec k names (r ∷ rs) (i ∷ is) found h =
      let (more, fine, rest, at) =
        item_round-returns (item_error P undecided names r i) r.name
          (validate_items P undecided (r.name ∷ names) rs is) found h in
      let same : validate_items P dec (r.name ∷ names) rs (map (decided dec) is) ≡ ok more =
        validate_items-decided dec k (r.name ∷ names) rs is more rest in
      ap
        (λ e.
          item_round P e r.name (validate_items P dec (r.name ∷ names) rs (map (decided dec) is)))
        (item_error-decided dec k names r i fine)
      ∙ ap (item_round P none r.name) same
      ∙ ap ok (sym at)

  -- A decided preview is valid if the preview was.
  validate-decided :
      (dec : Decision) (d : Batch)
      → is_undecided dec ≡ false
      → d.decision ≡ undecided
      → validate P d ≡ ok tt
      → validate P (decide_batch dec d) ≡ ok tt
  unfolding validate
  validate-decided dec d k u h =
      elim (Outcome-cases (validate_items P undecided [] d.manifest.resources d.items)) [
        | inl (found, e) ↦
            let after = validate_items-decided dec k [] d.manifest.resources d.items found e in
            ground (arith, length-map (decided dec) d.items)
        | inr (x, e) ↦ absurd (ground arith)
      ]

  pub require-loaded :
      (s : BulkStore W J) (d : Batch)
      → s.current ≡ some d
      → validate P d ≡ ok tt
      → require P d.id s ≡ (ok d, s)
  unfolding require ◌>>=◌
  require-loaded s d at fine = let same = ≟_refl d.id in ground arith

  pub save-current : (d : Batch) (s : BulkStore W J) → (save P d s).1.current ≡ s.current
  unfolding save write_journal ◌>>=◌
  save-current d s = ground arith

  -- What `decide` does once `require` has answered.
  decide-current :
      (s : BulkStore W J) (d : Batch) (dec : Decision)
      → require P d.id s ≡ (ok d, s)
      → d.decision ≡ undecided
      → is_undecided dec ≡ false
      → (decide P d.id (P.digest d.manifest) dec s).1.current ≡ some (decide_batch dec d)
  unfolding decide assign summary ◌>>=◌
  decide-current s d dec r u k =
      let same = ≟_refl (P.digest d.manifest) in
      let held =
        save-current (decide_batch dec d) (record s { current = some (decide_batch dec d) }) in
      ground arith

  decide-again :
      (s : BulkStore W J) (d : Batch) (dec : Decision)
      → require P d.id s ≡ (ok d, s)
      → is_undecided d.decision ≡ false
      → is_undecided dec ≡ false
      → decide P d.id (P.digest d.manifest) dec s
        ≡ (raised (value_error "approval already consumed"), s)
  unfolding decide ◌>>=◌
  decide-again s d dec r u k = let same = ≟_refl (P.digest d.manifest) in ground arith

  -- A decision on the exact preview in memory is taken on every item, whether or not the journal
  -- can be written: each item becomes APPROVED or DENIED, as the decision says, and keeps its id, its
  -- resource and what is known of it; the batch has the decision, and its id and manifest stay. A
  -- further decision at once is refused and changes nothing.
  pub decide_once :
      (s : BulkStore W J) (d : Batch) (dec again : Decision)
      → s.current ≡ some d
      → validate P d ≡ ok tt
      → d.decision ≡ undecided
      → is_undecided dec ≡ false
      → is_undecided again ≡ false
      → let t = (decide P d.id (P.digest d.manifest) dec s).1 in
        ((e : Batch) × (t.current ≡ some e) × IsTaken dec d e)
        × (decide P d.id (P.digest d.manifest) again t
            ≡ (raised (value_error "approval already consumed"), t))
  decide_once s d dec again at fine u k k' =
      let t = (decide P d.id (P.digest d.manifest) dec s).1 in
      let held = decide-current s d dec (require-loaded s d at fine) u k in
      let loaded' = require-loaded t (decide_batch dec d) held (validate-decided dec d k u fine) in
      (
        (decide_batch dec d, held, decide_batch-IsTaken dec d k),
        decide-again t (decide_batch dec d) again loaded' (ground arith) k',
      )

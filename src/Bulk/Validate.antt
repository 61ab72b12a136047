-- ===== src/Bulk/Validate.antt =====
-- pilot_v1/bulk.py: `BulkStore.validate`. The checks on JSON types (`isinstance`, `bpa`,
-- membership in STATES and in the decisions) hold by the types of the model.
use Prim.Native.String.{count as count_chars}
use aws_secops.Prelude.{
  ℕ, String, Bool, true, false, not, ◌&&◌, ◌||◌, Option, none, some, List, [], ◌∷◌, length,
  contains, ◌≟◌, same_texts, sort_texts, leb, ltb, ◌==◌, if◌then◌else◌,
}
use aws_secops.Effects.{Error, Outcome, ok, raised, value_error}
use aws_secops.Bulk.Types.{
  bulk_action, target, same_bpa, State, pending, denied, Decision, undecided, approve, reject,
  Resource, Item, Batch, Platform,
}

abbrev is_pending : State → Bool
is_pending pending = true
is_pending _ = false

abbrev is_denied : State → Bool
is_denied denied = true
is_denied _ = false

-- The decision and an item's state agree.
abbrev pub agrees : Decision → State → Bool
agrees undecided s = is_pending s
agrees approve s = true
agrees reject s = is_denied s

abbrev decision_error : Decision → String
decision_error reject = "rejected state"
decision_error _ = "unapproved state"

abbrev pub one_to_thousand : ℕ → Bool
one_to_thousand n = leb 1 n && leb n 1000

module _ {W J : Type 0} (P : Platform W J) where
  -- One round of the loop over `zip(resources, items)`; `names` are those seen so far.
  abbrev pub item_error : Decision → List String → Resource → Item → Option Error
  item_error dec names r i =
      if ltb 63 (count_chars r.name) || contains r.name names
      then some (value_error "resource integrity")
      else if not (i.id ≟ P.resource_digest r) || not (i.resource ≟ r.name)
      then some (value_error "item integrity")
      else if agrees dec i.state
      then none
      else some (value_error (decision_error dec))

  abbrev pub item_round : Option Error → String → Outcome (List String) → Outcome (List String)
  item_round (some e) name rest = raised e
  item_round none name (raised e) = raised e
  item_round none name (ok names) = ok (name ∷ names)

  -- The loop, from the names seen so far; it returns the names that it adds.
  abbrev pub validate_items :
      Decision → List String → List Resource → List Item → Outcome (List String)
  validate_items dec names (r ∷ rs) (i ∷ is) =
      item_round (item_error dec names r i) r.name (validate_items dec (r.name ∷ names) rs is)
  validate_items dec names _ _ = ok []

  abbrev check_names : Outcome (List String) → Outcome (Unit {0})
  check_names (raised e) = raised e
  check_names (ok names) =
      if same_texts (sort_texts names) (sort_texts P.resources)
      then ok tt
      else raised (value_error "configured resource manifest changed")

  unfoldable pub validate : Batch → Outcome (Unit {0})
  validate d =
      if not (d.manifest.action ≟ bulk_action)
        || not (same_bpa d.manifest.goal target)
        || not (d.manifest.context ≟ P.context)
      then raised (value_error "provider/action mismatch")
      else if not (d.id ≟ P.digest d.manifest)
          || not (one_to_thousand (length d.manifest.resources))
          || not (length d.items == length d.manifest.resources)
      then raised (value_error "manifest integrity")
      else check_names (validate_items d.decision [] d.manifest.resources d.items)

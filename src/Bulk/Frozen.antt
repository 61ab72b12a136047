-- ===== src/Bulk/Frozen.antt =====
-- pilot_v1/bulk.py: in a valid batch each item has a resource of the manifest.
use aws_secops.Prelude.{
  Bool, List, Option, String, [], all, any, arith, find, length, none, refl, some, true, ◌∷◌, ◌≟◌,
  ◌≡◌, inl, inr, Bool-cases, ≟_refl, ≟→eq, ◌≤◌,
}
use aws_secops.Effects.{Error, Outcome, ok, raised, Outcome-cases}
use aws_secops.Bulk.Types.{Batch, Bpa, Decision, Item, Platform, Resource}
use aws_secops.Bulk.Reports.{before_of, named}
use aws_secops.Bulk.Validate.{item_error, item_round, validate, validate_items}

-- What the manifest froze for the item, its resource's evidence.
pub record IsFrozen (m : List Resource) (i : Item) (before : Option Bpa) : Type 0 where
  pub entry : Resource
  pub is_entry : find (named i.resource) m ≡ some entry
  pub evidence : before ≡ some entry.before

pub before_of-IsFrozen :
    (m : List Resource) (i : Item)
    → any (named i.resource) m ≡ true
    → IsFrozen m i (before_of i.resource m)
before_of-IsFrozen [] i h = absurd (cc h)
before_of-IsFrozen (r ∷ rs) i h = elim (Bool-cases (named i.resource r)) [
  | inl same ↦ record { entry = r; is_entry = rw same refl; evidence = rw same refl }
  | inr differs ↦
      let rest = before_of-IsFrozen rs i (ground arith) in
      record {
        entry = rest.entry;
        is_entry = rw differs rest.is_entry;
        evidence = rw differs rest.evidence;
      }
]

abbrev pub has_entry : List Resource → Item → Bool
has_entry m i = any (named i.resource) m

module _ {W J : Type 0} (P : Platform W J) where
  item_round-passes :
      (e : Option Error) (name : String) (rest : Outcome (List String)) (found : List String)
      → item_round P e name rest ≡ ok found
      → (more : List String) × (e ≡ none) × (rest ≡ ok more)
  item_round-passes (some e) name rest found h = absurd (cc h)
  item_round-passes none name (raised e) found h = absurd (cc h)
  item_round-passes none name (ok more) found h = (more, refl, refl)

  item_error-none :
      (dec : Decision) (names : List String) (r : Resource) (i : Item)
      → item_error P dec names r i ≡ none
      → (i.resource ≟ r.name) ≡ true
  item_error-none dec names r i h = ground arith

  validate_items-entries :
      (m : List Resource) (dec : Decision) (names : List String) (rs : List Resource)
      (is : List Item) (found : List String)
      → ((name : String) → any (named name) rs ≡ true → any (named name) m ≡ true)
      → length is ≡ length rs
      → validate_items P dec names rs is ≡ ok found
      → all (has_entry m) is ≡ true
  validate_items-entries m dec names rs [] found inside same h = refl
  validate_items-entries m dec names [] (i ∷ is) found inside same h = absurd (omega (arith, same))
  validate_items-entries m dec names (r ∷ rs) (i ∷ is) found inside same h =
      let (more, fine, rest) =
        item_round-passes (item_error P dec names r i) r.name
          (validate_items P dec (r.name ∷ names) rs is) found h in
      let is_r : i.resource ≡ r.name =
        ≟→eq i.resource r.name (item_error-none dec names r i fine) in
      let here : any (named i.resource) m ≡ true =
        inside i.resource (rw (is_r, ≟_refl r.name) refl) in
      let later : all (has_entry m) is ≡ true =
        validate_items-entries m dec (r.name ∷ names) rs is more
          (λ name k. inside name (ground (arith, k))) (omega (arith, same)) rest in
      rw (here, later) refl

  pub validate-entries :
      (d : Batch) → validate P d ≡ ok tt → all (has_entry d.manifest.resources) d.items ≡ true
  unfolding validate
  validate-entries d h =
      elim (Outcome-cases (validate_items P d.decision [] d.manifest.resources d.items)) [
        | inl (found, e) ↦
            validate_items-entries d.manifest.resources d.decision [] d.manifest.resources d.items
              found (λ name k. k) (ground arith) e
        | inr (x, e) ↦ absurd (ground arith)
      ]

  pub validate-bounded : (d : Batch) → validate P d ≡ ok tt → length d.items ≤ 1000
  unfolding validate
  validate-bounded d h = ground arith

-- ===== src/Bulk/Walk.antt =====
-- pilot_v1/bulk.py: a client that asks for page after page of a batch.
use aws_secops.Prelude.{
  List, Option, String, [], all, arith, drop, drop-add, false, inl, inr, keep, length, length-drop,
  ltb, map, none, refl, some, suc, take, take-drop, take_all, true, zero, ℕ, ◌++◌, ◌+◌, ◌∷◌, ◌≡◌,
  ◌≤◌, ◌<◌, Bool-cases, ap, ◌∙◌, sym, if◌then◌else◌, append_nothing, length-keep_most, map-append,
}
use aws_secops.Effects.{ok, raise, runtime_error, pure, ◌>>=◌}
use aws_secops.Bulk.Types.{Batch, Item, Platform, Resource, State}
use aws_secops.Bulk.Validate.{validate}
use aws_secops.Bulk.Store.{BulkStore, M, require, has_state, same_state}
use aws_secops.Bulk.Reports.{Row, before_of, matches, page, page_of}
use aws_secops.Bulk.Frozen.{
  IsFrozen, before_of-IsFrozen, has_entry, validate-bounded, validate-entries,
}
use aws_secops.Bulk.Decisions.{require-loaded}

-- The state that is asked for, if one is.
abbrev pub IsAsked : Option State → State → Type 0
IsAsked none st = Unit
IsAsked (some asked) st = st ≡ asked

-- The rows show, in order, exactly the items whose state is asked for, each with the evidence that
-- the manifest froze for it.
pub data Shows (asked : Option State) (m : List Resource) : List Item → List Row → Type 0 where
  all_shown : Shows asked m [] []
  shown :
      (i : Item) (r : Row) (is : List Item) (rs : List Row)
      → IsAsked asked i.state
      → r.item ≡ i
      → IsFrozen m i r.before
      → Shows asked m is rs
      → Shows asked m (i ∷ is) (r ∷ rs)
  left_out :
      (i : Item) (is : List Item) (rs : List Row)
      → ¬ IsAsked asked i.state
      → Shows asked m is rs
      → Shows asked m (i ∷ is) rs

has_state-IsAsked : (asked : State) (i : Item) → has_state asked i ≡ true → i.state ≡ asked
has_state-IsAsked asked i h = same i.state asked h
  where
    same : (s t : State) → same_state s t ≡ true → s ≡ t
    same s t h = ground arith

same_state_refl : (s : State) → same_state s s ≡ true
same_state_refl s = ground arith

matches-IsAsked : (asked : Option State) (i : Item) → matches asked i ≡ true → IsAsked asked i.state
matches-IsAsked none i h = tt
matches-IsAsked (some asked) i h = has_state-IsAsked asked i h

matches-isnt : (asked : Option State) (i : Item) → matches asked i ≡ false → ¬ IsAsked asked i.state
matches-isnt none i h k = absurd (cc h)
matches-isnt (some asked) i h k = let fine = same_state_refl asked in absurd (cc (h, k, fine))

abbrev row_in : List Resource → Item → Row
row_in m i = record { item = i; before = before_of i.resource m }

keep-Shows :
    (asked : Option State) (m : List Resource) (is : List Item)
    → all (has_entry m) is ≡ true
    → Shows asked m is (map (row_in m) (keep (matches asked) is))
keep-Shows asked m [] h = all_shown
keep-Shows asked m (i ∷ is) h =
    let rest = keep-Shows asked m is (ground arith) in
    elim (Bool-cases (matches asked i)) [
      | inl asks ↦ rw asks (
          shown i (row_in m i) is _ (matches-IsAsked asked i asks) refl
            (before_of-IsFrozen m i (ground arith)) rest)
      | inr other ↦ rw other (left_out i is _ (matches-isnt asked i other) rest)
    ]

module _ {W J : Type 0} (P : Platform W J) (limit : ℕ) (asked : Option State) (id : String) where
  -- The rows of the pages from an offset on, as far as `total`; the fuel bounds their number.
  unfoldable pub visit : ℕ → ℕ → M P (List Row)
  visit zero offset = raise (runtime_error "no fuel")
  visit (suc fuel) offset = do
    p ← page P id offset limit asked
    rest ← if ltb (offset + limit) p.total then visit fuel (offset + limit) else pure []
    pure (p.rows ++ rest)

module _ {W J : Type 0} (P : Platform W J) (limit : ℕ) (asked : Option State) (d : Batch)
    (s : BulkStore W J) where
  page-loaded :
      (offset : ℕ)
      → require P d.id s ≡ (ok d, s)
      → 1 ≤ limit
      → limit ≤ 50
      → offset ≤ 1000
      → page P d.id offset limit asked s ≡ (ok (page_of d offset limit asked), s)
  unfolding page ◌>>=◌
  page-loaded offset r low high range = ground arith

  abbrev chosen : List Item
  chosen = keep (matches asked) d.items

  abbrev row : Item → Row
  row = row_in d.manifest.resources

  visit-last :
      (fuel offset : ℕ)
      → page P d.id offset limit asked s ≡ (ok (page_of d offset limit asked), s)
      → length chosen ≤ offset + limit
      → visit P limit asked d.id (suc fuel) offset s ≡ (ok (map row (drop offset chosen)), s)
  unfolding visit ◌>>=◌ page_of
  visit-last fuel offset p last =
      let ends : ltb (offset + limit) (length chosen) ≡ false = ground arith in
      let all_taken =
        take_all limit (drop offset chosen) (omega (arith, length-drop offset chosen, last)) in
      rw (p, ends, all_taken)
        (ap (λ rows. (ok rows, s)) (append_nothing (map row (drop offset chosen))))

  visit-more :
      (fuel offset : ℕ)
      → page P d.id offset limit asked s ≡ (ok (page_of d offset limit asked), s)
      → ltb (offset + limit) (length chosen) ≡ true
      → visit P limit asked d.id fuel (offset + limit) s
        ≡ (ok (map row (drop (offset + limit) chosen)), s)
      → visit P limit asked d.id (suc fuel) offset s ≡ (ok (map row (drop offset chosen)), s)
  unfolding visit ◌>>=◌ page_of
  visit-more fuel offset p more rest =
      let joined : map row (take limit (drop offset chosen))
            ++ map row (drop (offset + limit) chosen)
          ≡ map row (drop offset chosen) =
        ap (λ xs. map row (take limit (drop offset chosen)) ++ map row xs)
          (drop-add offset limit chosen)
        ∙ sym (map-append row (take limit (drop offset chosen)) (drop limit (drop offset chosen)))
        ∙ ap (map row) (take-drop limit (drop offset chosen)) in
      rw (p, more, rest) (ap (λ rows. (ok rows, s)) joined)

  visit-drop :
      (fuel offset : ℕ)
      → require P d.id s ≡ (ok d, s)
      → 1 ≤ limit
      → limit ≤ 50
      → length chosen ≤ 1000
      → offset ≤ length chosen
      → length chosen < offset + fuel
      → visit P limit asked d.id fuel offset s ≡ (ok (map row (drop offset chosen)), s)
  visit-drop zero offset r low high few here enough = absurd (omega (arith, here, enough))
  visit-drop (suc fuel) offset r low high few here enough =
      let p = page-loaded offset r low high (omega (arith, few, here)) in
      elim (Bool-cases (ltb (offset + limit) (length chosen))) [
        | inl more ↦ visit-more fuel offset p more (
            visit-drop fuel (offset + limit) r low high few (ground arith)
              (omega (arith, low, enough)))
        | inr last ↦ visit-last fuel offset p (ground arith)
      ]

  chosen_few : length d.items ≤ 1000 → length chosen ≤ 1000
  chosen_few h = omega (arith, h, length-keep_most (matches asked) d.items)

  -- A client that asks a valid batch for a page, with a limit from 1 to 50, and then for the next
  -- one as long as there are items left, comes to an end after at most one page more than there are
  -- items, and the store is as it was. It is shown, in order and once each, exactly the items whose
  -- state is asked for, or all of them, each with the evidence that the manifest froze for it.
  pub visit-IsComplete :
      s.current ≡ some d
      → validate P d ≡ ok tt
      → 1 ≤ limit
      → limit ≤ 50
      → (rows : List Row) × (visit P limit asked d.id (suc (length d.items)) 0 s ≡ (ok rows, s))
        × Shows asked d.manifest.resources d.items rows
  visit-IsComplete at fine low high =
      let r = require-loaded P s d at fine in
      let few = chosen_few (validate-bounded P d fine) in
      (
        map row chosen,
        visit-drop (suc (length d.items)) 0 r low high few (omega arith)
            (omega (arith, length-keep_most (matches asked) d.items)),
        keep-Shows asked d.manifest.resources d.items (validate-entries P d fine),
      )

-- ===== src/Findings/Walk.antt =====
-- pilot_v1/queries.py: a client that follows `next_offset` from page to page.
use aws_secops.Prelude.{
  Option, none, some, Bool, List, String, [], suc, true, zero, ℕ, ◌&&◌, ◌++◌, ◌||◌, ◌∷◌, ◌≟◌, ◌≡◌,
  ◌≤◌, Bool-cases, any, arith, contains, drop, drop-add, false, inl, inr, leb, length, length-drop,
  ltb, not, refl, take-drop, take_all, ◌+◌, ◌<◌,
}
use aws_secops.Effects.Outcomes.{◌>>=◌}
use aws_secops.Effects.{Outcome, ok, raised, runtime_error}
use aws_secops.Findings.Queries.{
  Argument, Arguments, integer, word, page, page_of, filter_all, filters, allowed,
}

-- A query of one page, with a choice of filters.
abbrev pub Filter : Type 0
Filter = String × String

abbrev filter_arguments : List Filter → Arguments
filter_arguments [] = []
filter_arguments ((name, v) ∷ rest) = (name, word v) ∷ filter_arguments rest

abbrev pub query_of : ℕ → ℕ → List Filter → Arguments
query_of limit offset chosen =
    ("limit", integer limit) ∷ ("offset", integer offset) ∷ filter_arguments chosen

-- The names are those of FILTERS.
abbrev pub are_filters : List Filter → Bool
are_filters [] = true
are_filters ((name, v) ∷ rest) =
    (name ≟ "source" || name ≟ "severity" || name ≟ "planning_status") && are_filters rest

module _ {A : Type 0} (field : String → A → String) (limit : ℕ) (chosen : List Filter)
    (items : List A) where
  abbrev pub follow : (ℕ → Outcome (List A)) → List A → Option ℕ → Outcome (List A)
  follow onward shown none = ok shown
  follow onward shown (some offset) = onward offset >>= λ rest. ok (shown ++ rest)

  -- The items of the pages from an offset on; the fuel bounds the number of pages.
  abbrev pub walk : ℕ → ℕ → Outcome (List A)
  walk zero offset = raised (runtime_error "no fuel")
  walk (suc fuel) offset = page field items (query_of limit offset chosen) true >>= λ p.
      follow (walk fuel) p.items p.next_offset

  -- What the filters leave of the items.
  abbrev pub chosen_items : Outcome (List A)
  chosen_items = filter_all field filters (filter_arguments chosen) items

  known_names :
      (fs : List Filter)
      → are_filters fs ≡ true
      → any (λ (a : String × Argument). not (contains a.0 (allowed true))) (filter_arguments fs)
        ≡ false
  known_names [] h = refl
  known_names ((name, v) ∷ rest) h = ground (arith, known_names rest)

  same_filters :
      (offset : ℕ) → filter_all field filters (query_of limit offset chosen) items ≡ chosen_items
  same_filters offset = unfold filter_all in refl

  -- A page, with filters that are taken and numbers in range.
  page-of_query :
      (offset : ℕ) (found : List A)
      → are_filters chosen ≡ true
      → 1 ≤ limit
      → limit ≤ 20
      → offset ≤ 100
      → chosen_items ≡ ok found
      → page field items (query_of limit offset chosen) true ≡ ok (page_of field limit offset found)
  unfolding page
  page-of_query offset found known low high range e =
      let low_holds : leb 1 limit ≡ true = ground arith in
      let high_holds : leb limit 20 ≡ true = ground arith in
      let zero_holds : leb 0 offset ≡ true = ground arith in
      let range_holds : leb offset 100 ≡ true = ground arith in
      rw
        (
          known_names chosen known,
          low_holds,
          high_holds,
          zero_holds,
          range_holds,
          same_filters offset,
          e,
        )
        refl

  walk-drop :
      (fuel offset : ℕ) (found : List A)
      → are_filters chosen ≡ true
      → 1 ≤ limit
      → limit ≤ 20
      → chosen_items ≡ ok found
      → length found ≤ 100
      → offset ≤ length found
      → length found < offset + fuel
      → walk fuel offset ≡ ok (drop offset found)
  walk-drop zero offset found known low high e few here enough =
      absurd (omega (arith, here, enough))
  walk-drop (suc fuel) offset found known low high e few here enough =
      rw (page-of_query offset found known low high (omega (arith, few, here)) e)
        (elim (Bool-cases (ltb (offset + limit) (length found))) [
          | inl more ↦
              let inside : offset + limit ≤ length found = ground arith in
              let rest : walk fuel (offset + limit) ≡ ok (drop (offset + limit) found) =
                walk-drop fuel (offset + limit) found known low high e few inside
                  (omega (arith, low, enough)) in
              rw (more, rest, drop-add offset limit found, take-drop limit (drop offset found)) refl
          | inr last ↦
              let outside : length found ≤ offset + limit = ground arith in
              rw
                (
                  last,
                  take_all limit (drop offset found)
                      (omega (arith, length-drop offset found, outside)),
                )
                refl
        ])

  -- A list of at most 100 items, filters that `page` takes, and a limit in its range: following
  -- `next_offset` from the first page ends, and shows each item that the filters choose once, in
  -- their order; the number of the chosen items bounds the number of pages.
  pub walk-IsComplete :
      (found : List A)
      → are_filters chosen ≡ true
      → 1 ≤ limit
      → limit ≤ 20
      → chosen_items ≡ ok found
      → length found ≤ 100
      → walk (suc (length found)) 0 ≡ ok found
  walk-IsComplete found known low high e few =
      walk-drop (suc (length found)) 0 found known low high e few (omega arith) (omega arith)

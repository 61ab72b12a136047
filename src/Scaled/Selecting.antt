-- ===== src/Scaled/Selecting.antt =====
-- compliance_agent_v1/scaled_findings.py: what `_filtered` chooses, and in which order.
use aws_secops.Prelude.{
  Bool, List, String, [], arith, false, flip, flip-then, keep, refl, texts_swap, true, ◌&&◌, ◌∷◌,
  ◌≟◌, ◌≡◌, compare_texts, at_most, at_most-flip, if◌then◌else◌, ordered, sort_by, Perm,
  ordered-sort_by, sort_by-perm, subst,
}
use aws_secops.Effects.Outcomes.{>>=-eq-ok, ok-eq}
use aws_secops.Effects.{ok}
use aws_secops.Scaled.Types.{Row, FindingQuery, cell}
use aws_secops.Scaled.Store.{filtered, validate_query, select, before, compare_rows, passes, finds}

-- Five filters, one after another, are one filter.
keep_five :
    (a b c d e : Row → Bool) (rs : List Row)
    → keep e (keep d (keep c (keep b (keep a rs)))) ≡ keep (λ r. a r && b r && c r && d r && e r) rs
keep_five a b c d e [] = refl
keep_five a b c d e (r ∷ rs) = ground (arith, keep_five a b c d e rs)

rows_swap : (field : String) (a b : Row) → compare_rows field b a ≡ flip (compare_rows field a b)
rows_swap field a b =
    rw
      (
        flip-then (compare_texts (cell field a) (cell field b))
            (compare_texts a.finding_id b.finding_id),
        texts_swap (cell field a) (cell field b),
        texts_swap a.finding_id b.finding_id,
      )
      refl

one_way :
    (field : String) (down : Bool) (a b : Row)
    → at_most (if down then compare_rows field b a else compare_rows field a b) ≡ false
    → at_most (if down then compare_rows field a b else compare_rows field b a) ≡ true
one_way field true a b h = rw (rows_swap field b a) (at_most-flip (compare_rows field b a) h)
one_way field false a b h = rw (rows_swap field a b) (at_most-flip (compare_rows field a b) h)

before_total :
    (field direction : String) (a b : Row)
    → before field direction a b ≡ false
    → before field direction b a ≡ true
before_total field direction a b h = one_way field (direction ≟ "desc") a b h

module _ (casefold : String → String) where
  -- A row that a query asks for: it passes each filter, and the search if there is one.
  abbrev pub wanted : FindingQuery → Row → Bool
  wanted q r =
      passes q.control_key r.control_key
      && passes q.account_alias r.account_alias
      && passes q.config_status r.config_status
      && passes q.exception_status r.exception_status
      && finds casefold q.search r

  select-keep : (q : FindingQuery) (rows : List Row) → select casefold q rows ≡ keep (wanted q) rows
  select-keep q rows = keep_five _ _ _ _ (finds casefold q.search) rows

  -- A query that is taken gives exactly the rows that it asks for, each as often as the store has
  -- it, in the order of the field that it names and of the finding's id, up or down.
  pub filtered-IsSelection :
      (rows found : List Row) (q : FindingQuery)
      → filtered casefold rows q ≡ ok found
      → Perm found (keep (wanted q) rows)
        × (ordered (before q.sort_by q.sort_direction) found ≡ true)
  unfolding filtered
  filtered-IsSelection rows found q e =
      let (u, valid, rest) = >>=-eq-ok (validate_query q) _ found e in
      let same = ok-eq _ found rest in
      (
        subst (λ rs. Perm rs (keep (wanted q) rows)) same
            (subst (Perm (sort_by (before q.sort_by q.sort_direction) (select casefold q rows)))
              (select-keep q rows)
              (sort_by-perm (before q.sort_by q.sort_direction) (select casefold q rows))),
        subst (λ rs. ordered (before q.sort_by q.sort_direction) rs ≡ true) same
            (ordered-sort_by (before q.sort_by q.sort_direction)
              (before_total q.sort_by q.sort_direction) (select casefold q rows)),
      )

-- ===== src/Scaled/Pages.antt =====
-- compliance_agent_v1/scaled_findings.py: the pages of a query, one after another.
use aws_secops.Prelude.{
  List, String, [], false, ltb, suc, zero, ℕ, ◌++◌, ◌≡◌, ◌≤◌, Bool, arith, refl, sort_by, take,
  true, ◌+◌, ◌-◌, ◌||◌, ◌<◌, ap, drop, length, subst, sym, take-add, take_all, ◌∙◌, ◌∷◌,
}
use Prim.Native.Nat.{◌*◌, ◌/◌}
use native.Mathlib.Nat.{lt-div-mul-add}
use aws_secops.Effects.Outcomes.{◌>>=◌, refuse, >>=-eq-ok, ok-eq}
use aws_secops.Effects.{Outcome, ok, raised, value_error}
use aws_secops.Scaled.Types.{Row, FindingQuery, max_page_size}
use aws_secops.Scaled.Store.{
  query, filtered, validate_query, Page, page_of, select, before, validate_filters,
}

-- What a valid query says of its parts.
record Fits (q : FindingQuery) : Type 0 where
  filters : validate_filters q ≡ ok tt
  page_low : 1 ≤ q.page
  limit_low : 1 ≤ q.limit
  limit_high : q.limit ≤ 100

Fits-from :
    (q : FindingQuery) (r : Outcome (Unit {0})) (low high : Bool)
    → validate_filters q ≡ r
    → ltb q.page 1 ≡ low
    → (ltb q.limit 1 || ltb max_page_size q.limit) ≡ high
    → (r >>= λ _.
        (refuse low (value_error "page must be a positive integer") >>= λ _.
        refuse high (value_error "limit must be between 1 and 100")))
      ≡ ok tt
    → Fits q
Fits-from q (ok u) false false v l h e = record {
  filters = v;
  page_low = ground arith;
  limit_low = ground arith;
  limit_high = ground arith;
}
Fits-from q (ok u) false true v l h e = absurd (cc e)
Fits-from q (ok u) true high v l h e = absurd (cc e)
Fits-from q (raised x) low high v l h e = absurd (cc e)

validate_query-Fits : (q : FindingQuery) → validate_query q ≡ ok tt → Fits q
unfolding validate_query
validate_query-Fits q e =
    Fits-from q (validate_filters q) (ltb q.page 1) (ltb q.limit 1 || ltb max_page_size q.limit)
      refl refl refl e

Fits-valid : (q : FindingQuery) → Fits q → validate_query q ≡ ok tt
unfolding validate_query
Fits-valid q h =
    let low : ltb q.page 1 ≡ false = ground (arith, h.page_low) in
    let small : ltb q.limit 1 ≡ false = ground (arith, h.limit_low) in
    let large : ltb max_page_size q.limit ≡ false = ground (arith, h.limit_high) in
    rw (h.filters, low, small, large) refl

Fits-page : (q : FindingQuery) (k : ℕ) → Fits q → Fits (record q { page = suc k })
Fits-page q k h = record {
  filters = unfold validate_filters in h.filters;
  page_low = omega arith;
  limit_low = h.limit_low;
  limit_high = h.limit_high;
}

module _ (casefold : String → String) where
  -- `query` of the pages 1 to `k`, their items put together
  abbrev pub read_pages : List Row → FindingQuery → ℕ → Outcome (List Row)
  read_pages rows q zero = ok []
  read_pages rows q (suc k) = read_pages rows q k >>= λ earlier.
      (query casefold rows (record q { page = suc k }) >>= λ p. ok (earlier ++ p.items))

  filtered-Fits :
      (rows found : List Row) (q : FindingQuery)
      → filtered casefold rows q ≡ ok found
      → Fits q × (sort_by (before q.sort_by q.sort_direction) (select casefold q rows) ≡ found)
  unfolding filtered
  filtered-Fits rows found q e =
      let (u, valid, rest) =
        >>=-eq-ok (validate_query q)
          (λ _. ok (sort_by (before q.sort_by q.sort_direction) (select casefold q rows))) found
          e in
      (validate_query-Fits q valid, cc rest)

  -- A page of the query, by its number.
  query-page :
      (rows found : List Row) (q : FindingQuery) (k : ℕ)
      → filtered casefold rows q ≡ ok found
      → query casefold rows (record q { page = suc k })
        ≡ ok (page_of (record q { page = suc k }) found)
  unfolding query filtered
  query-page rows found q k e =
      let (fits, same) = filtered-Fits rows found q e in
      rw (Fits-valid (record q { page = suc k }) (Fits-page q k fits), same) refl

  one_more : (k n : ℕ) → suc k * n ≡ k * n + n
  one_more k n = omega arith

  read_pages-take :
      (rows found : List Row) (q : FindingQuery) (k : ℕ)
      → filtered casefold rows q ≡ ok found
      → read_pages rows q k ≡ ok (take (k * q.limit) found)
  read_pages-take rows found q zero e =
      let nothing : 0 * q.limit ≡ 0 = omega arith in rw nothing refl
  read_pages-take rows found q (suc k) e =
      let number : suc k - 1 ≡ k = omega arith in
      rw
        (
          read_pages-take rows found q k e,
          query-page rows found q k e,
          number,
          one_more k q.limit,
          take-add (k * q.limit) q.limit found,
        )
        refl

  ceiling : (a b : ℕ) → 1 ≤ b → a < a / b * b + b
  ceiling a b h = let positive : 0 < b = omega (arith, h) in lt-div-mul-add positive

  enough_pages : (n limit : ℕ) → 1 ≤ limit → n ≤ (n + limit - 1) / limit * limit
  enough_pages n limit h = omega (arith, ceiling (n + limit - 1) limit h)

  length-take : (n : ℕ) (rs : List Row) → length (take n rs) ≤ n
  length-take zero rs = omega arith
  length-take (suc n) [] = omega arith
  length-take (suc n) (r ∷ rs) = omega (arith, length-take n rs)

  pub record AreComplete (rows found : List Row) (q : FindingQuery) (p : Page) : Type 0 where
    pub all_pages : read_pages rows q p.page_count ≡ ok found
    pub counted : p.total_count ≡ length found
    pub bounded : (p.returned_count ≤ q.limit) × (q.limit ≤ 100)

  -- For each query that is taken: the pages from 1 to `page_count` put together are the filtered
  -- rows in their order, `total_count` is their number, and no page has more rows than the limit,
  -- which is at most 100.
  pub query-AreComplete :
      (rows found : List Row) (q : FindingQuery) (p : Page)
      → filtered casefold rows q ≡ ok found
      → query casefold rows q ≡ ok p
      → AreComplete rows found q p
  unfolding query
  query-AreComplete rows found q p e h =
      let (fits, _) = filtered-Fits rows found q e in
      let same : page_of q found ≡ p = ok-eq (page_of q found) p (sym (rw e refl) ∙ h) in
      let covered : length found ≤ p.page_count * q.limit =
        subst (λ (x : Page). length found ≤ x.page_count * q.limit) same
          (enough_pages (length found) q.limit fits.limit_low) in
      record {
        all_pages =
            read_pages-take rows found q p.page_count e
            ∙ ap ok (take_all (p.page_count * q.limit) found covered);
        counted = sym (ap (λ (x : Page). x.total_count) same);
        bounded = (
          subst (λ (x : Page). x.returned_count ≤ q.limit) same
              (length-take q.limit (drop ((q.page - 1) * q.limit) found)),
          fits.limit_high,
        );
      }

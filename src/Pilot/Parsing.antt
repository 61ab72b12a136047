-- ===== src/Pilot/Parsing.antt =====
-- compliance_agent_v1/csv_bulk_pilot.py: what `parse_candidate_csv` accepts.
use aws_secops.Prelude.{
  All, Bool, List, Option, String, [], arith, false, length, ltb, map, none, not, refl, same_texts,
  some, strip, strip-strip, subst, true, ℕ, ◌+◌, ◌==◌, ◌||◌, ◌∷◌, ◌≟◌, ◌≡◌, ◌≤◌, if◌then◌else◌,
}
use Prim.Native.String.{count as count_chars}
use aws_secops.Effects.Outcomes.{>>=-eq-ok, refuse-eq-ok, ok-eq}
use aws_secops.Effects.{ok, raised, value_error}
use aws_secops.Scaled.Store.{is_formula}
use aws_secops.Pilot.Candidates.{
  Candidate, Reader, candidate_fields, candidate_of, parse_candidate_csv, public_value, read_rows,
  has_none, given,
}
use aws_secops.Pilot.Preview.{key}

-- A text that may stand in a public cell.
pub record IsPublic (v : String) : Type 0 where
  pub stripped : strip v ≡ v
  pub some_text : (v ≟ "") ≡ false
  pub short : count_chars v ≤ 128
  pub no_formula : is_formula v ≡ false

pub record IsPublicCandidate (c : Candidate) : Type 0 where
  pub account_alias : IsPublic c.account_alias
  pub control_key : IsPublic c.control_key
  pub resource_id : IsPublic c.resource_id

value_from :
    (v w : String) (empty long formula : Bool)
    → strip v ≡ v
    → (v ≟ "") ≡ empty
    → ltb 128 (count_chars v) ≡ long
    → is_formula v ≡ formula
    → (if empty || long || formula
        then raised (value_error "candidate CSV contains an invalid public value")
        else ok v)
      ≡ ok w
    → IsPublic w
value_from v w false false false s e l f h =
    subst IsPublic (ok-eq v w h)
      (record { stripped = s; some_text = e; short = ground arith; no_formula = f })
value_from v w false false true s e l f h = absurd (cc h)
value_from v w false true formula s e l f h = absurd (cc h)
value_from v w true long formula s e l f h = absurd (cc h)

public_value-IsPublic : (raw v : String) → public_value raw ≡ ok v → IsPublic v
unfolding public_value
public_value-IsPublic raw v h = value_from (strip raw) v _ _ _ (strip-strip raw) refl refl refl h

-- A public text is read as itself.
public_value-same : (v : String) → IsPublic v → public_value v ≡ ok v
unfolding public_value
public_value-same v h =
    let long : ltb 128 (count_chars v) ≡ false = ground (arith, h.short) in
    rw (h.stripped, h.some_text, long, h.no_formula) refl

three-IsPublic :
    (a b c : String) (d : Candidate)
    → candidate_of (some (a ∷ b ∷ c ∷ [])) ≡ ok d
    → IsPublicCandidate d
unfolding candidate_of
three-IsPublic a b c d h =
    let (x, e, h1) = >>=-eq-ok (public_value a) _ d h in
    let (y, f, h2) = >>=-eq-ok (public_value b) _ d h1 in
    let (z, g, h3) = >>=-eq-ok (public_value c) _ d h2 in
    subst IsPublicCandidate (ok-eq _ d h3) (record {
      account_alias = public_value-IsPublic a x e;
      control_key = public_value-IsPublic b y f;
      resource_id = public_value-IsPublic c z g;
    })

candidate_of-IsPublic :
    (raw : Option (List String)) (d : Candidate) → candidate_of raw ≡ ok d → IsPublicCandidate d
unfolding candidate_of
candidate_of-IsPublic (some (a ∷ b ∷ c ∷ [])) d h = three-IsPublic a b c d h
candidate_of-IsPublic (some (a ∷ b ∷ c ∷ e ∷ rest)) d h = absurd (cc h)
candidate_of-IsPublic (some (a ∷ b ∷ [])) d h = absurd (cc h)
candidate_of-IsPublic (some (a ∷ [])) d h = absurd (cc h)
candidate_of-IsPublic (some []) d h = absurd (cc h)
candidate_of-IsPublic none d h = absurd (cc h)

candidate_of-same : (c : Candidate) → IsPublicCandidate c → candidate_of (some (key c)) ≡ ok c
unfolding candidate_of
candidate_of-same c h =
    rw
      (
        public_value-same c.account_alias h.account_alias,
        public_value-same c.control_key h.control_key,
        public_value-same c.resource_id h.resource_id,
      )
      refl

read_rows-bounds :
    (n : ℕ) (raws : List (Option (List String))) (cs : List Candidate)
    → n ≤ 1000
    → read_rows n raws ≡ ok cs
    → All IsPublicCandidate cs × (n + length cs ≤ 1000)
unfolding read_rows
read_rows-bounds n [] cs low h =
    subst (λ xs. All IsPublicCandidate xs × (n + length xs ≤ 1000)) (ok-eq [] cs h)
      (tt, omega (arith, low))
read_rows-bounds n (raw ∷ raws) cs low h =
    let (c, one, h1) = >>=-eq-ok (candidate_of raw) _ cs h in
    let (within, h2) = refuse-eq-ok (ltb 1000 (n + 1)) _ _ cs h1 in
    let (ds, rest, h3) = >>=-eq-ok (read_rows (n + 1) raws) _ cs h2 in
    let more : n + 1 ≤ 1000 = ground (arith, within) in
    let (all_public, bound) = read_rows-bounds (n + 1) raws ds more rest in
    subst (λ xs. All IsPublicCandidate xs × (n + length xs ≤ 1000)) (ok-eq (c ∷ ds) cs h3)
      ((candidate_of-IsPublic raw c one, all_public), omega (arith, bound))

abbrev pub as_row : Candidate → Option (List String)
as_row c = some (key c)

read_rows-same :
    (n : ℕ) (cs : List Candidate)
    → All IsPublicCandidate cs
    → n + length cs ≤ 1000
    → read_rows n (map as_row cs) ≡ ok cs
unfolding read_rows
read_rows-same n [] h bound = refl
read_rows-same n (c ∷ cs) h bound =
    let within : ltb 1000 (n + 1) ≡ false = ground (arith, bound) in
    let rest = read_rows-same (n + 1) cs h.1 (omega (arith, bound)) in
    rw (candidate_of-same c h.0, within, rest) refl

pub record IsAccepted (cs : List Candidate) : Type 0 where
  pub public_cells : All IsPublicCandidate cs
  pub low : 1 ≤ length cs
  pub high : length cs ≤ 1000

one_or_more : (cs : List Candidate) → has_none cs ≡ false → 1 ≤ length cs
one_or_more [] h = absurd (cc h)
one_or_more (c ∷ cs) h = omega arith

has_some : (cs : List Candidate) → 1 ≤ length cs → has_none cs ≡ false
has_some [] h = absurd (omega (arith, h))
has_some (c ∷ cs) h = refl

module _ {C : Type 0} (R : Reader C) where
  -- A file that is accepted has from 1 to 1000 candidates, and each of their cells is stripped, is
  -- not empty, has at most 128 characters and does not begin as a formula.
  pub parse_candidate_csv-IsAccepted :
      (content : C) (cs : List Candidate) → parse_candidate_csv R content ≡ ok cs → IsAccepted cs
  unfolding parse_candidate_csv
  parse_candidate_csv-IsAccepted content cs h =
      let (sized, h1) =
        refuse-eq-ok (R.size content == 0 || ltb 128000 (R.size content)) _ _ cs h in
      let (t, e, h2) = >>=-eq-ok (given "candidate CSV must be UTF-8" (R.utf8 content)) _ cs h1 in
      let (names, f, h3) =
        >>=-eq-ok
          (given "candidate CSV columns must exactly match the public contract" (R.field_names t)) _
          cs h2 in
      let (named, h4) = refuse-eq-ok (not (same_texts names candidate_fields)) _ _ cs h3 in
      let (ds, g, h5) = >>=-eq-ok (read_rows 0 (R.rows t)) _ cs h4 in
      let (full, h6) = refuse-eq-ok (has_none ds) _ _ cs h5 in
      let (cells, bound) = read_rows-bounds 0 (R.rows t) ds (omega arith) g in
      subst IsAccepted (ok-eq ds cs h6)
        (record { public_cells = cells; low = one_or_more ds full; high = omega (arith, bound) })

  -- A file whose rows are the public cells of accepted candidates is read as these candidates, if
  -- its size is from 1 to 128000 bytes, it is UTF-8 and its columns are the three of the contract.
  pub parse_candidate_csv-IsInverse :
      (content again : C) (t : String) (cs : List Candidate)
      → parse_candidate_csv R content ≡ ok cs
      → 1 ≤ R.size again
      → R.size again ≤ 128000
      → R.utf8 again ≡ some t
      → R.field_names t ≡ some candidate_fields
      → R.rows t ≡ map as_row cs
      → parse_candidate_csv R again ≡ ok cs
  unfolding parse_candidate_csv
  parse_candidate_csv-IsInverse content again t cs h low high e f g =
      let accepted = parse_candidate_csv-IsAccepted content cs h in
      let sized : (R.size again == 0 || ltb 128000 (R.size again)) ≡ false =
        ground (arith, low, high) in
      rw
        (
          sized,
          e,
          f,
          g,
          read_rows-same 0 cs accepted.public_cells (omega (arith, accepted.high)),
          has_some cs accepted.low,
        )
        refl

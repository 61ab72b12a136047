-- ===== src/Backlog/Order.antt =====
-- pilot_v1/backlog.py: the order of `open_findings`.
use aws_secops.Findings.Routing.{enrich_finding}
use aws_secops.Backlog.Types.{Tracked, Entries}
use mathlib.Core.List.Perm
use mathlib.Core.Path.{ap₂}
use aws_secops.Effects.{ok}
use aws_secops.Backlog.Views.{
  Ranked, View, before, finding_of, ranked, view_of, is_open, open_findings, priority, tracked_of,
}
use aws_secops.Prelude.{
  All, List, [], arith, false, map, numbers_swap, refl, texts_swap, true, ◌∷◌, ◌≡◌, All-sort_by,
  Option-cases, ap, inl, inr, keep, ordered, ordered-sort_by, sort_by, sort_by-perm, subst, sym,
  ◌∙◌, Perm,
}
use aws_secops.Effects.Outcomes.{traverse, >>=-eq-ok, traverse-cons}

before_total : (a b : Ranked) → before a b ≡ false → before b a ≡ true
before_total a b h = ground (
  arith,
  numbers_swap a.rank b.rank,
  texts_swap (finding_of a).observed_at (finding_of b).observed_at,
  texts_swap (finding_of a).resource_name (finding_of b).resource_name,
  texts_swap (finding_of a).control (finding_of b).control,
)

ranked-view : (v : View) (r : Ranked) → ranked v ≡ ok r → r.view ≡ v
unfolding ranked
ranked-view v r e = elim (Option-cases (priority v.tracked.finding.severity)) [
  | inl unknown_severity ↦ absurd (ground arith)
  | inr (n, known) ↦
      let same : ok (record { rank = n; view = v }) ≡ ok r = ground arith in
      let one : record { rank = n; view = v } ≡ r = cc in sym (ap (λ (x : Ranked). x.view) one)
]

-- Each row is the rank of its view.
abbrev IsRank : Ranked → Type 0
IsRank r = ranked r.view ≡ ok r

traverse-ranked :
    (vs : List View) (rows : List Ranked)
    → traverse ranked vs ≡ ok rows
    → (map (λ (r : Ranked). r.view) rows ≡ vs) × All IsRank rows
traverse-ranked [] [] e = (refl, tt)
traverse-ranked [] (r ∷ rows) e = absurd (cc e)
traverse-ranked (v ∷ vs) [] e =
    let (r, rs, one, rest, same) = traverse-cons ranked v vs [] e in absurd (cc same)
traverse-ranked (v ∷ vs) (x ∷ xs) e =
    let (r, rs, one, rest, same) = traverse-cons ranked v vs (x ∷ xs) e in
    let head : r ≡ x = cc same in
    let tail : rs ≡ xs = cc same in
    let one' : ranked v ≡ ok x = one ∙ ap ok head in
    let view = ranked-view v x one' in
    let (views, ranks) = traverse-ranked vs xs (rest ∙ ap ok tail) in
    (ap₂ (λ (y : View) (ys : List View). y ∷ ys) view views, (ap ranked view ∙ one', ranks))

ranked-traverse :
    (rows : List Ranked)
    → All IsRank rows
    → traverse ranked (map (λ (r : Ranked). r.view) rows) ≡ ok rows
ranked-traverse [] h = refl
ranked-traverse (r ∷ rows) h = ground (arith, ranked-traverse rows)

view_of-tracked : (t : Tracked) (v : View) → view_of t ≡ ok v → v.tracked ≡ t
unfolding view_of
view_of-tracked t v e =
    let (added, one, done) = >>=-eq-ok (enrich_finding t.evidence_origin t.finding) _ v e in
    let same : record { tracked = t; added = added } ≡ v = cc done in
    sym (ap (λ (x : View). x.tracked) same)

traverse-view_of :
    (ts : List Tracked) (vs : List View)
    → traverse view_of ts ≡ ok vs
    → map (λ (v : View). v.tracked) vs ≡ ts
traverse-view_of [] [] e = refl
traverse-view_of [] (v ∷ vs) e = absurd (cc e)
traverse-view_of (t ∷ ts) [] e =
    let (v, rs, one, rest, same) = traverse-cons view_of t ts [] e in absurd (cc same)
traverse-view_of (t ∷ ts) (x ∷ xs) e =
    let (v, rs, one, rest, same) = traverse-cons view_of t ts (x ∷ xs) e in
    let head : v ≡ x = cc same in
    let tail : rs ≡ xs = cc same in
    ap₂ (λ (y : Tracked) (ys : List Tracked). y ∷ ys) (view_of-tracked t x (one ∙ ap ok head))
      (traverse-view_of ts xs (rest ∙ ap ok tail))

-- The open findings are those whose status is NON_COMPLIANT, each once, by severity, then by the
-- time of observation, the resource's name and the control: `rows` are their ranks.
pub open_findings-IsOrdered :
    (d : Entries) (vs : List View)
    → open_findings d ≡ ok vs
    → (rows : List Ranked) × (traverse ranked vs ≡ ok rows)
      × (ordered before rows ≡ true)
      × Perm (map (λ (v : View). v.tracked) vs) (keep is_open (tracked_of d))
unfolding open_findings
open_findings-IsOrdered d vs e =
    let (views, seen, e1) = >>=-eq-ok (traverse view_of (keep is_open (tracked_of d))) _ vs e in
    let (rows, ranks, e2) = >>=-eq-ok (traverse ranked views) _ vs e1 in
    let (same_views, are_ranks) = traverse-ranked views rows ranks in
    let sorted = sort_by before rows in
    let answer : map (λ (r : Ranked). r.view) sorted ≡ vs = cc e2 in
    let perm : Perm (map (λ (r : Ranked). r.view) sorted) (map (λ (r : Ranked). r.view) rows) =
      Perm.map (λ (r : Ranked). r.view) (sort_by-perm before rows) in
    let perm' : Perm vs views =
      subst (λ (x : List View). Perm vs x) same_views
        (subst (λ (x : List View). Perm x (map (λ (r : Ranked). r.view) rows)) answer perm) in
    (
      sorted,
      ap (traverse ranked) (sym answer)
          ∙ ranked-traverse sorted (All-sort_by before IsRank rows are_ranks),
      ordered-sort_by before before_total rows,
      subst (λ (x : List Tracked). Perm (map (λ (v : View). v.tracked) vs) x)
          (traverse-view_of (keep is_open (tracked_of d)) views seen)
          (Perm.map (λ (v : View). v.tracked) perm'),
    )

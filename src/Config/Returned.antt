-- ===== src/Config/Returned.antt =====
-- pilot_v1/sg_compliance.py: what a loop of `_results` that returned has done.
use aws_secops.Prelude.{
  Bool, Bool-cases, List, Option, String, [], ap, arith, contains, false, inl, inr, length, ltb,
  none, refl, some, suc, sym, true, zero, ℕ, ◌++◌, ◌==◌, ◌∷◌, ◌∙◌, ◌≟◌, ◌≡◌, ◌≤◌, subst, ≟→eq,
}
use aws_secops.Effects.Outcomes.{traverse, traverse-cons, ok-eq}
use aws_secops.Effects.{◌>>=◌, Outcome, lift, ok, bind-returns, guard-returns}
use aws_secops.Config.Types.{
  Client, Finding, Response, Token, no_token, other_token, token, Evaluation, expected_type,
}
use aws_secops.Config.Reader.{
  results, M, Session, after_page, bounded_results, details, finding_of, page_limit, pages, results,
  known_type,
}

-- The answer was the last page.
pub data IsEnd : Token → Type 0 where
  no_more : IsEnd no_token
  empty_token : (t : String) → t ≡ "" → IsEnd (token t)

lift-returns :
    {S A : Type 0} (r : Outcome A) (s t : S) (a : A) → lift r s ≡ (ok a, t) → (r ≡ ok a) × (s ≡ t)
unfolding ◌>>=◌
lift-returns r s t a e = (ap (λ p. p.0) e, ap (λ p. p.1) e)

pub bounded_results-length :
    {A : Type 0} (limit : ℕ) (o : Option (List A)) (raw : List A)
    → bounded_results limit o ≡ ok raw
    → (o ≡ some raw) × (length raw ≤ limit)
bounded_results-length limit none raw e = absurd (cc e)
bounded_results-length limit (some xs) raw e = elim (Bool-cases (ltb limit (length xs))) [
  | inl long ↦ absurd (ground arith)
  | inr short ↦
      let same : xs ≡ raw = ground arith in
      (ap some same, subst (λ ys. length ys ≤ limit) same (ground arith))
]

pub length-traverse :
    {A B : Type 0} (f : A → Outcome B) (xs : List A) (ys : List B)
    → traverse f xs ≡ ok ys
    → length ys ≡ length xs
length-traverse f [] ys e = sym (ap length (ok-eq [] ys e))
length-traverse f (x ∷ xs) ys e =
    let (y, zs, one, rest, same) = traverse-cons f x xs ys e in
    sym (ap length same) ∙ ap suc (length-traverse f xs zs rest)

module _ {W T : Type 0} (C : Client W T) where
  -- The two ways to end, and the way on.
  pub data Ending (tok : Token) (out : List Finding) (more : String → M C (List Finding × Bool))
      (u : Session W) (rows : List Finding) (cut : Bool) (t : Session W) : Type 0 where
    ends : IsEnd tok → out ≡ rows → false ≡ cut → Ending tok out more u rows cut t
    is_full : out ≡ rows → true ≡ cut → Ending tok out more u rows cut t
    goes_on :
        (x : String)
        → tok ≡ token x
        → (length out == 250) ≡ false
        → more x u ≡ (ok (rows, cut), t)
        → Ending tok out more u rows cut t

  after_page-returns :
      (tok : Token) (seen : List String) (out : List Finding)
      (more : String → M C (List Finding × Bool)) (u t : Session W) (rows : List Finding)
      (cut : Bool)
      → after_page C tok seen out more u ≡ (ok (rows, cut), t)
      → Ending tok out more u rows cut t
  unfolding after_page ◌>>=◌
  after_page-returns no_token seen out more u t rows cut e = ends no_more (cc e) (cc e)
  after_page-returns other_token seen out more u t rows cut e = absurd (cc e)
  after_page-returns (token x) seen out more u t rows cut e = elim (Bool-cases (x ≟ "")) [
    | inl last ↦
        ends (subst (λ y. IsEnd (token y)) (sym (≟→eq x "" last)) (empty_token "" refl))
          (ground arith) (ground arith)
    | inr another ↦ elim (Bool-cases (contains x seen)) [
      | inl again ↦ absurd (ground arith)
      | inr new ↦ elim (Bool-cases (length out == 250)) [
        | inl full ↦ is_full (ground arith) (ground arith)
        | inr room ↦ goes_on x refl room (sym (rw (another, new, room) refl) ∙ e)
      ]
    ]
  ]

  pub page-returns :
      (control type : String) (n : ℕ) (seen : List String) (next : Option String)
      (out rows : List Finding) (cut : Bool) (s t : Session W)
      → pages C control type (suc n) seen next out s ≡ (ok (rows, cut), t)
      → (r : Response T) × (u : Session W) × (raw : List (Evaluation T)) × (found : List Finding)
        × (details C (record { rule = control; limit = page_limit C out; next_token = next }) s
            ≡ (ok r, u))
        × (r.results ≡ some raw)
        × (length raw ≤ page_limit C out)
        × (traverse (finding_of C control type) raw ≡ ok found)
        × Ending r.next
            (out ++ found)
            (λ x. pages C control type n (x ∷ seen) (some x) (out ++ found))
            u
            rows
            cut
            t
  unfolding pages
  page-returns control type n seen next out rows cut s t e =
      let (r, u, asked, e1) = bind-returns _ _ s (rows, cut) t e in
      let (raw, u1, bound, e2) = bind-returns _ _ u (rows, cut) t e1 in
      let (found, u2, made, e3) = bind-returns _ _ u1 (rows, cut) t e2 in
      let (b, same) = lift-returns (bounded_results (page_limit C out) r.results) u u1 raw bound in
      let (m, same_too) =
        lift-returns (traverse (finding_of C control type) raw) u1 u2 found made in
      let (given, short) = bounded_results-length (page_limit C out) r.results raw b in
      let more : String → M C (List Finding × Bool) =
        λ x. pages C control type n (x ∷ seen) (some x) (out ++ found) in
      (
        r,
        u,
        raw,
        found,
        asked,
        given,
        short,
        m,
        subst (λ w. Ending r.next (out ++ found) more w rows cut t) (sym (same ∙ same_too))
            (after_page-returns r.next seen (out ++ found) more u2 t rows cut e3),
      )

  -- The budget of requests is spent.
  pub no_pages-returns :
      (control type : String) (seen : List String) (next : Option String) (out rows : List Finding)
      (cut : Bool) (s t : Session W)
      → pages C control type zero seen next out s ≡ (ok (rows, cut), t)
      → (out ≡ rows) × (true ≡ cut)
  unfolding pages ◌>>=◌
  no_pages-returns control type seen next out rows cut s t e = (cc e, cc e)

  known_type-some : (o : Option String) (type : String) → known_type C o ≡ ok type → o ≡ some type
  known_type-some none type e = absurd (cc e)
  known_type-some (some x) type e = ap some (ok-eq x type e)

  -- The loop is what `_results` returns, when it does.
  pub results-returns :
      (control : String) (rows : List Finding) (cut : Bool) (s t : Session W)
      → results C control s ≡ (ok (rows, cut), t)
      → (type : String) × (u : Session W) × (expected_type control ≡ some type)
        × (pages C control type 10 [] none [] u ≡ (ok (rows, cut), t))
  unfolding results
  results-returns control rows cut s t e =
      let (type, u1, listed, e1) = bind-returns _ _ s (rows, cut) t e in
      let (found, same) = lift-returns (known_type C (expected_type control)) s u1 type listed in
      let (ready, u2, asked, e2) = bind-returns _ _ u1 (rows, cut) t e1 in
      let (fine, e3) = guard-returns _ _ _ u2 (rows, cut) t e2 in
      let (names, u3, told, e4) = bind-returns _ _ u2 (rows, cut) t e3 in
      let (only, e5) = guard-returns _ _ _ u3 (rows, cut) t e4 in
      (type, u3, known_type-some (expected_type control) type found, e5)

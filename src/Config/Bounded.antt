-- ===== src/Config/Bounded.antt =====
-- pilot_v1/sg_compliance.py: the findings of `_results`, whatever the service answers.
use aws_secops.Prelude.{
  All, Bool, List, Option, String, [], contains, length, none, not, ◌++◌, ◌∷◌, ◌≡◌, ◌≤◌, ℕ, true,
  zero, suc, Bool-cases, arith, inl, inr, length-append, ltb, refl, some, subst, ◌||◌, all,
}
use Prim.Native.String.{count as count_chars}
use aws_secops.Effects.Outcomes.{>>=-eq-ok, refuse-eq-ok, ok-eq, traverse-All}
use aws_secops.Effects.{ok}
use aws_secops.Config.Types.{Client, Evaluation, Finding, config_statuses}
use aws_secops.Config.Reader.{
  Session, finding_of, identity_of, is_text, iso, pages, results, status_of,
}
use aws_secops.Config.Returned.{
  ends, goes_on, is_full, length-traverse, page-returns, no_pages-returns, results-returns,
}

-- A finding of the control, with a known status and an identity of a proper length.
pub record IsObserved (control : String) (f : Finding) : Type 0 where
  pub of_control : f.control ≡ control
  pub status : contains f.status config_statuses ≡ true
  pub low : 1 ≤ count_chars f.resource_id
  pub high : count_chars f.resource_id ≤ 256

status_of-listed :
    (o : Option String) (s : String) → status_of o ≡ ok s → contains s config_statuses ≡ true
status_of-listed none s e = absurd (cc e)
status_of-listed (some x) s e = elim (Bool-cases (contains x config_statuses)) [
  | inl listed ↦
      let same : x ≡ s = ground arith in subst (λ y. contains y config_statuses ≡ true) same listed
  | inr strange ↦ absurd (ground arith)
]

identity_of-sized :
    (o : Option String) (s : String)
    → identity_of o ≡ ok s
    → (1 ≤ count_chars s) × (count_chars s ≤ 256)
identity_of-sized none s e = absurd (cc e)
identity_of-sized (some x) s e =
    elim (Bool-cases (ltb (count_chars x) 1 || ltb 256 (count_chars x))) [
      | inl wrong ↦ absurd (ground arith)
      | inr right ↦
          let same : x ≡ s = ground arith in
          subst (λ y. (1 ≤ count_chars y) × (count_chars y ≤ 256)) same
            (ground (arith, right), ground (arith, right))
    ]

All-append : {A : Type 0} (Q : A → Type 0) (xs ys : List A) → All Q xs → All Q ys → All Q (xs ++ ys)
All-append Q [] ys h k = k
All-append Q (x ∷ xs) ys h k = (h.0, All-append Q xs ys h.1 k)

module _ {W T : Type 0} (C : Client W T) where
  finding_of-IsObserved :
      (control type : String) (e : Evaluation T) (f : Finding)
      → finding_of C control type e ≡ ok f
      → IsObserved control f
  unfolding finding_of
  finding_of-IsObserved control type e f h =
      let (status, listed, h1) = >>=-eq-ok (status_of e.compliance_type) _ f h in
      let (fits, h2) =
        refuse-eq-ok (not (is_text control e.rule_name) || not (is_text type e.resource_type)) _ _ f
          h1 in
      let (id, sized, h3) = >>=-eq-ok (identity_of e.resource_id) _ f h2 in
      let (when, told, h4) = >>=-eq-ok (iso C e.recorded) _ f h3 in
      subst (IsObserved control) (ok-eq _ f h4) (record {
        of_control = refl;
        status = status_of-listed e.compliance_type status listed;
        low = (identity_of-sized e.resource_id id sized).0;
        high = (identity_of-sized e.resource_id id sized).1;
      })

  pages-AreBounded :
      (control type : String) (n : ℕ) (seen : List String) (next : Option String)
      (out rows : List Finding) (cut : Bool) (s t : Session W)
      → All (IsObserved control) out
      → length out ≤ 250
      → pages C control type n seen next out s ≡ (ok (rows, cut), t)
      → All (IsObserved control) rows × (length rows ≤ 250)
  pages-AreBounded control type zero seen next out rows cut s t h low e =
      subst (λ ys. All (IsObserved control) ys × (length ys ≤ 250))
        (no_pages-returns C control type seen next out rows cut s t e).0 (h, low)
  pages-AreBounded control type (suc n) seen next out rows cut s t h low e =
      let (r, u, raw, found, asked, given, short, made, ending) =
        page-returns C control type n seen next out rows cut s t e in
      let observed = All-append (IsObserved control) out found h (
        traverse-All (IsObserved control) (finding_of C control type)
          (finding_of-IsObserved control type) raw found made) in
      let bound : length (out ++ found) ≤ 250 = omega (
        arith,
        length-append out found,
        length-traverse (finding_of C control type) raw found made,
        short,
        low,
      ) in
      let carried : (xs : List Finding)
          → out ++ found ≡ xs
          → All (IsObserved control) xs × (length xs ≤ 250) =
        λ xs same.
          subst (λ ys. All (IsObserved control) ys × (length ys ≤ 250)) same (observed, bound) in
      elim ending [
        | ends last same all ↦ carried rows same
        | is_full same some_left ↦ carried rows same
        | goes_on x shows room rest ↦
            pages-AreBounded control type n (x ∷ seen) (some x) (out ++ found) rows cut u t observed
              bound rest
      ]

  -- Whatever the service answers: when `_results` returns, there are at most 250 findings, and each
  -- is of the control that was asked for, has a status of AWS Config, and an identity of 1 to 256
  -- characters.
  pub results-AreBounded :
      (control : String) (rows : List Finding) (cut : Bool) (s t : Session W)
      → results C control s ≡ (ok (rows, cut), t)
      → All (IsObserved control) rows × (length rows ≤ 250)
  results-AreBounded control rows cut s t e =
      let (type, u, listed, h) = results-returns C control rows cut s t e in
      pages-AreBounded control type 10 [] none [] rows cut u t tt (omega arith) h

-- ===== src/Config/Requests.antt =====
-- pilot_v1/sg_compliance.py: the pages that `_results` asks for, whether it returns or raises.
use aws_secops.Prelude.{
  All, Bool, Bool-cases, List, Option, String, [], arith, contains, false, inl, inr, length, not,
  refl, some, suc, zero, ℕ, ◌++◌, ◌==◌, ◌∷◌, ◌≟◌, ◌≡◌, ◌≤◌, length-append, none, ap, true, ◌∙◌,
  append_nothing, sym,
}
use aws_secops.Effects.Outcomes.{traverse}
use aws_secops.Effects.{◌>>=◌, ◌>>◌, Error, Outcome, Outcome-cases, lift, ok, raise_if, raised}
use aws_secops.Config.Types.{
  Client, Finding, Request, Response, Token, no_token, other_token, token, expected_type,
  max_config_pages,
}
use aws_secops.Config.Reader.{
  M, Session, after_page, bounded_results, details, finding_of, page_limit, pages, results,
  recorder_ready, rule_names, known_type, is_only,
}
use aws_secops.Config.Returned.{bounded_results-length, length-traverse}

-- A page that may be asked for.
pub record IsModest (control : String) (q : Request) : Type 0 where
  pub of_control : q.rule ≡ control
  pub low : 1 ≤ q.limit
  pub high : q.limit ≤ 100

-- At most `n` further requests, all of them modest.
pub record Asks {W : Type 0} (control : String) (n : ℕ) (s t : Session W) : Type 0 where
  pub more : List Request
  pub logged : t.requests ≡ s.requests ++ more
  pub few : length more ≤ n
  pub modest : All (IsModest control) more

append_later : {A : Type 0} (xs ys zs : List A) → (xs ++ ys) ++ zs ≡ xs ++ (ys ++ zs)
append_later [] ys zs = refl
append_later (x ∷ xs) ys zs = ap (λ l. x ∷ l) (append_later xs ys zs)

module _ {W T : Type 0} (C : Client W T) (control : String) where
  Asks-nothing : (n : ℕ) (s t : Session W) → t.requests ≡ s.requests → Asks control n s t
  Asks-nothing n s t e = record {
    more = [];
    logged = e ∙ sym (append_nothing s.requests);
    few = omega arith;
    modest = tt;
  }

  after_none :
      (n : ℕ) (s u t : Session W)
      → u.requests ≡ s.requests
      → Asks control n u t
      → Asks control n s t
  after_none n s u t e h = record {
    more = h.more;
    logged = h.logged ∙ ap (λ l. l ++ h.more) e;
    few = h.few;
    modest = h.modest;
  }

  after_one :
      (n : ℕ) (q : Request) (s u t : Session W)
      → u.requests ≡ s.requests ++ (q ∷ [])
      → IsModest control q
      → Asks control n u t
      → Asks control (suc n) s t
  after_one n q s u t e k h = record {
    more = q ∷ h.more;
    logged = h.logged ∙ ap (λ l. l ++ h.more) e ∙ append_later s.requests (q ∷ []) h.more;
    few = omega (arith, h.few);
    modest = (k, h.modest);
  }

  lift-Asks :
      {A B : Type 0} (n : ℕ) (r : Outcome A) (f : A → M C B) (s : Session W)
      → ((a : A) → r ≡ ok a → Asks control n s (f a s).1)
      → Asks control n s ((lift r >>= f) s).1
  unfolding ◌>>=◌
  lift-Asks n (ok a) f s h = h a refl
  lift-Asks n (raised e) f s h = Asks-nothing n s s refl

  guard-Asks :
      {B : Type 0} (n : ℕ) (c : Bool) (e : Error) (m : M C B) (s : Session W)
      → Asks control n s (m s).1
      → Asks control n s ((raise_if c e >> m) s).1
  unfolding ◌>>=◌
  guard-Asks n true e m s h = Asks-nothing n s s refl
  guard-Asks n false e m s h = h

  -- A method that asks for no page.
  silent-Asks :
      {A B : Type 0} (n : ℕ) (m : M C A) (f : A → M C B) (s : Session W)
      → (m s).1.requests ≡ s.requests
      → ((a : A) (u : Session W) → u.requests ≡ s.requests → Asks control n u (f a u).1)
      → Asks control n s ((m >>= f) s).1
  unfolding ◌>>=◌
  silent-Asks n m f s e h = elim (Outcome-cases (m s).0) [
    | inl (a, is) ↦ rw is (after_none n s (m s).1 _ e (h a (m s).1 e))
    | inr (x, is) ↦ rw is (Asks-nothing n s (m s).1 e)
  ]

  details-Asks :
      {B : Type 0} (n : ℕ) (q : Request) (f : Response T → M C B) (s : Session W)
      → IsModest control q
      → ((r : Response T) (u : Session W) → Asks control n u (f r u).1)
      → Asks control (suc n) s ((details C q >>= f) s).1
  unfolding details ◌>>=◌
  details-Asks n q f s k h = elim (Outcome-cases (C.details q s.world).0) [
    | inl (r, is) ↦ rw is (after_one n q s (details C q s).1 _ refl k (h r (details C q s).1))
    | inr (x, is) ↦ rw is (after_one n q s (details C q s).1 _ refl k (Asks-nothing n _ _ refl))
  ]

  after_page-Asks :
      (n : ℕ) (tok : Token) (seen : List String) (out : List Finding)
      (more : String → M C (List Finding × Bool)) (s : Session W)
      → ((x : String) → (length out == 250) ≡ false → Asks control n s (more x s).1)
      → Asks control n s (after_page C tok seen out more s).1
  unfolding after_page ◌>>=◌
  after_page-Asks n no_token seen out more s h = Asks-nothing n s s refl
  after_page-Asks n other_token seen out more s h = Asks-nothing n s s refl
  after_page-Asks n (token x) seen out more s h = elim (Bool-cases (x ≟ "")) [
    | inl last ↦ rw last (Asks-nothing n s s refl)
    | inr another ↦ elim (Bool-cases (contains x seen)) [
      | inl again ↦ rw (another, again) (Asks-nothing n s s refl)
      | inr new ↦ elim (Bool-cases (length out == 250)) [
        | inl full ↦ rw (another, new, full) (Asks-nothing n s s refl)
        | inr room ↦ rw (another, new, room) (h x room)
      ]
    ]
  ]

  no_pages-Asks :
      (type : String) (seen : List String) (next : Option String) (out : List Finding)
      (s : Session W)
      → Asks control 0 s (pages C control type 0 seen next out s).1
  unfolding pages ◌>>=◌
  no_pages-Asks type seen next out s = Asks-nothing 0 s s refl

  pages-Asks :
      (type : String) (n : ℕ) (seen : List String) (next : Option String) (out : List Finding)
      (s : Session W)
      → length out ≤ 249
      → Asks control n s (pages C control type n seen next out s).1
  unfolding pages
  pages-Asks type zero seen next out s low = no_pages-Asks type seen next out s
  pages-Asks type (suc n) seen next out s low =
      details-Asks n (record { rule = control; limit = page_limit C out; next_token = next }) _ s
        (record { of_control = refl; low = omega (arith, low); high = omega arith })
        λ r u. lift-Asks n (bounded_results (page_limit C out) r.results) _ u λ raw given.
          lift-Asks n (traverse (finding_of C control type) raw) _ u λ found made.
            after_page-Asks n r.next seen (out ++ found) _ u λ x room.
              let (is, short) = bounded_results-length (page_limit C out) r.results raw given in
              let same = length-traverse (finding_of C control type) raw found made in
              pages-Asks type n (x ∷ seen) (some x) (out ++ found) u
                (ground (arith, length-append out found, same, short, low, room))

  -- Whatever the service answers, and whether `_results` returns or raises: it asks for at most ten
  -- pages, each of the control and with a limit from 1 to 100.
  pub results-Asks : (s : Session W) → Asks control 10 s (results C control s).1
  unfolding results
  results-Asks s = lift-Asks 10 (known_type C (expected_type control)) _ s λ type listed.
      silent-Asks 10 (recorder_ready C) _ s (unfold recorder_ready in refl) λ ready u same.
        guard-Asks 10 (not ready) _ _ u (
          silent-Asks 10 (rule_names C control) _ u (unfold rule_names in refl) λ names v same_too.
            guard-Asks 10 (not (is_only control names)) _ _ v
              (pages-Asks type max_config_pages [] none [] v (omega arith)))

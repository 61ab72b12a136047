-- ===== src/Config/Complete.antt =====
-- pilot_v1/sg_compliance.py: a service that pages one list, and what `_results` has of that list.
use aws_secops.Prelude.{
  Bool, List, Option, String, [], ap, drop, false, none, some, sym, take, take-add, take-drop, ℕ,
  zero, suc, ◌++◌, ◌+◌, ◌∷◌, ◌∙◌, ◌≡◌, refl, all, append_nothing,
}
use aws_secops.Effects.Outcomes.{traverse, traverse-append}
use aws_secops.Effects.{Outcome, ok}
use aws_secops.Config.Types.{Client, Evaluation, Finding, Response, token, expected_type}
use aws_secops.Config.Reader.{Session, details, finding_of, page_limit, pages, results}
use aws_secops.Config.Returned.{
  IsEnd, ends, goes_on, is_full, page-returns, no_pages-returns, results-returns,
}

-- Where a request begins, if the service's tokens stand for positions.
abbrev pub start : (String → ℕ) → Option String → ℕ
start place none = 0
start place (some x) = place x

-- An answer from the position `k` on: a slice, and the position of what is left, if anything is.
pub record IsPage {T : Type 0} (place : String → ℕ) (L : List (Evaluation T)) (k : ℕ)
    (r : Response T) : Type 0 where
  pub size : ℕ
  pub slice : r.results ≡ some (take size (drop k L))
  pub last : IsEnd r.next → drop (k + size) L ≡ []
  pub onward : (x : String) → r.next ≡ token x → place x ≡ k + size

-- The findings are those of a first part of the list, and of all of it unless the answer is partial.
pub record AreOf {T : Type 0} (f : Evaluation T → Outcome Finding) (L : List (Evaluation T))
    (rows : List Finding) (cut : Bool) : Type 0 where
  pub size : ℕ
  pub in_order : traverse f (take size L) ≡ ok rows
  pub complete : cut ≡ false → take size L ≡ L

module _ {W T : Type 0} (C : Client W T) (control : String) (L : List (Evaluation T))
    (place : String → ℕ) where
  -- The service pages the list: each answer to a request for the control is a page of it.
  abbrev pub Serves : Type 0
  Serves =
      (limit : ℕ) (next : Option String) (w : W) (r : Response T)
      → (C.details (record { rule = control; limit = limit; next_token = next }) w).0 ≡ ok r
      → IsPage place L (start place next) r

  module _ (serves : Serves) where
    taken_all : (k : ℕ) → drop k L ≡ [] → take k L ≡ L
    taken_all k e =
        sym (append_nothing (take k L)) ∙ ap (λ l. take k L ++ l) (sym e) ∙ take-drop k L

    pages-AreOf :
        (type : String) (n : ℕ) (seen : List String) (next : Option String)
        (out rows : List Finding) (cut : Bool) (s t : Session W)
        → traverse (finding_of C control type) (take (start place next) L) ≡ ok out
        → pages C control type n seen next out s ≡ (ok (rows, cut), t)
        → AreOf (finding_of C control type) L rows cut
    pages-AreOf type zero seen next out rows cut s t h e =
        let (same, spent) = no_pages-returns C control type seen next out rows cut s t e in
        record {
          size = start place next;
          in_order = h ∙ ap ok same;
          complete = λ whole. absurd (cc (spent, whole));
        }
    pages-AreOf type (suc n) seen next out rows cut s t h e =
        let (r, u, raw, found, asked, given, short, made, ending) =
          page-returns C control type n seen next out rows cut s t e in
        let page : IsPage place L (start place next) r =
          serves (page_limit C out) next s.world r (unfold details in ap (λ p. p.0) asked) in
        let slice : raw ≡ take page.size (drop (start place next) L) = cc (given, page.slice) in
        let in_order : traverse (finding_of C control type) (take (start place next + page.size) L)
            ≡ ok (out ++ found) =
          ap (traverse (finding_of C control type)) (take-add (start place next) page.size L)
          ∙ traverse-append (finding_of C control type) (take (start place next) L)
              (take page.size (drop (start place next) L)) out found h
              (ap (traverse (finding_of C control type)) (sym slice) ∙ made) in
        elim ending [
          | ends last same all ↦ record {
            size = start place next + page.size;
            in_order = in_order ∙ ap ok same;
            complete = λ whole. taken_all (start place next + page.size) (page.last last);
          }
          | is_full same some_left ↦ record {
            size = start place next + page.size;
            in_order = in_order ∙ ap ok same;
            complete = λ whole. absurd (cc (some_left, whole));
          }
          | goes_on x shows room rest ↦
              pages-AreOf type n (x ∷ seen) (some x) (out ++ found) rows cut u t
                (ap (λ k. traverse (finding_of C control type) (take k L)) (page.onward x shows)
                  ∙ in_order)
                rest
        ]

    -- If the service pages one list: the findings that `_results` returns are those of its first
    -- evaluations in their order, none left out and none twice, and of all of them if the answer is
    -- not marked as partial.
    pub results-AreOf :
        (rows : List Finding) (cut : Bool) (s t : Session W)
        → results C control s ≡ (ok (rows, cut), t)
        → (type : String) × (expected_type control ≡ some type)
          × AreOf (finding_of C control type) L rows cut
    results-AreOf rows cut s t e =
        let (type, u, listed, h) = results-returns C control rows cut s t e in
        (type, listed, pages-AreOf type 10 [] none [] rows cut u t refl h)

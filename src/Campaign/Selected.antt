-- ===== src/Campaign/Selected.antt =====
-- pilot_v1/multi_account_campaign.py: which selections `normalize_selected_aliases` accepts.
use aws_secops.Prelude.{
  Bool, List, Option, String, [], arith, contains, distinct, false, if◌then◌else◌, keep, length,
  ltb, not, refl, same_texts, same_texts→eq, some, subst, sym, true, ◌||◌, ◌∷◌, ◌∙◌, ◌≡◌, ◌≤◌, ◌↔◌,
  ap,
}
use aws_secops.Effects.Outcomes.{refuse-eq-ok, ok-eq}
use aws_secops.Effects.{ok}
use aws_secops.Campaign.Types.{aliases}
use aws_secops.Campaign.Contracts.{chosen, normalize_selected_aliases}

-- The aliases that are ticked, in their order.
abbrev ticked : Bool → Bool → Bool → Bool → List String
ticked a b c d =
    let r1 = if d then "lab-sec" ∷ [] else [] in
    let r2 = if c then "lab-qa" ∷ r1 else r1 in
    let r3 = if b then "lab-poc" ∷ r2 else r2 in if a then "lab-dev" ∷ r3 else r3

abbrev Taken : List String → Type 0
Taken vs = normalize_selected_aliases (some vs) ≡ ok vs

ticked-Taken : (a b c d : Bool) → 1 ≤ length (ticked a b c d) → Taken (ticked a b c d)
unfolding normalize_selected_aliases
ticked-Taken false false false false h = absurd (omega (arith, h))
ticked-Taken false false false true h = refl
ticked-Taken false false true false h = refl
ticked-Taken false false true true h = refl
ticked-Taken false true false false h = refl
ticked-Taken false true false true h = refl
ticked-Taken false true true false h = refl
ticked-Taken false true true true h = refl
ticked-Taken true false false false h = refl
ticked-Taken true false false true h = refl
ticked-Taken true false true false h = refl
ticked-Taken true false true true h = refl
ticked-Taken true true false false h = refl
ticked-Taken true true false true h = refl
ticked-Taken true true true false h = refl
ticked-Taken true true true true h = refl

-- What an accepted selection is.
pub record IsChosen (vs ws : List String) : Type 0 where
  pub unchanged : ws ≡ vs
  pub low : 1 ≤ length vs
  pub canonical : vs ≡ keep (λ a. contains a vs) aliases

pub normalize_selected_aliases-IsChosen :
    (values : Option (List String)) (ws : List String)
    → normalize_selected_aliases values ≡ ok ws
    → IsChosen (chosen values) ws
unfolding normalize_selected_aliases
normalize_selected_aliases-IsChosen values ws e =
    let (sized, e1) =
      refuse-eq-ok
        (ltb (length (chosen values)) 1
          || ltb (length aliases) (length (chosen values))
          || not (distinct (chosen values)))
        _ _ ws e in
    let (ordered_so, e2) =
      refuse-eq-ok
        (not (same_texts (keep (λ a. contains a (chosen values)) aliases) (chosen values))) _ _ ws
        e1 in
    let same : keep (λ a. contains a (chosen values)) aliases ≡ chosen values =
      same_texts→eq _ _ (ground (arith, ordered_so)) in
    record {
      unchanged = sym (ok-eq _ ws e2) ∙ same;
      low = ground (arith, sized);
      canonical = sym same;
    }

-- The selections that are accepted are exactly the nonempty choices among the four aliases, in
-- their order; what is returned is the selection itself.
pub normalize_selected_aliases-Chooses :
    (vs ws : List String)
    → (normalize_selected_aliases (some vs) ≡ ok ws)
      ↔ ((ws ≡ vs) × (1 ≤ length vs) × ((p : String → Bool) × (vs ≡ keep p aliases)))
normalize_selected_aliases-Chooses vs ws = (taken, made)
  where
    taken :
        normalize_selected_aliases (some vs) ≡ ok ws
        → (ws ≡ vs) × (1 ≤ length vs) × ((p : String → Bool) × (vs ≡ keep p aliases))
    taken e =
        let h = normalize_selected_aliases-IsChosen (some vs) ws e in
        (h.unchanged, h.low, ((λ a. contains a vs), h.canonical))

    made :
        (ws ≡ vs) × (1 ≤ length vs) × ((p : String → Bool) × (vs ≡ keep p aliases))
        → normalize_selected_aliases (some vs) ≡ ok ws
    made (same, low, (p, kept)) =
        let some_left : 1 ≤ length (keep p aliases) = subst (λ l. 1 ≤ length l) kept low in
        let is_taken : Taken (keep p aliases) =
          ticked-Taken (p "lab-dev") (p "lab-poc") (p "lab-qa") (p "lab-sec") some_left in
        subst Taken (sym kept) is_taken ∙ ap ok (sym same)

-- ===== src/Campaign/Exact.antt =====
-- pilot_v1/multi_account_campaign.py: what `batch_id` and `parse_targets` accept.
use aws_secops.Prelude.{
  All, List, Option, String, any, arith, contains, distinct, is_hex_span, keep, length, map, not,
  same_texts, same_texts→eq, subst, sym, true, false, ◌||◌, ◌∙◌, ◌≟◌, ◌≡◌, ◌⧺◌, ◌==◌, ap, ≟→eq,
}
use aws_secops.Effects.Outcomes.{refuse-eq-ok, ok-eq, >>=-eq-ok, traverse, traverse-All}
use aws_secops.Effects.{ok}
use aws_secops.Campaign.Types.{Body, Library, Target, aliases, controls}
use aws_secops.Campaign.Contracts.{
  batch_id, chosen, exact_rows, loaded, make_target, normalize_selected_aliases, parse_targets,
}
use aws_secops.Campaign.Selected.{normalize_selected_aliases-IsChosen}

-- A batch that may be frozen.
pub record IsExact (control : String) (entries : List (String × String))
    (out selected : List String) : Type 0 where
  pub of_controls : contains control controls ≡ true
  pub in_order : map (λ (e : String × String). e.0) entries ≡ selected
  pub hashed : any (λ (e : String × String). not (is_hex_span 12 64 e.1)) entries ≡ false
  pub among : out ≡ keep (λ a. contains a out) selected

-- A target whose role is that of its own account.
pub record IsTarget (L : Library) (t : Target) : Type 0 where
  pub of_aliases : contains t.alias aliases ≡ true
  pub account : L.is_account t.account_id ≡ true
  pub role : t.role_arn ≡ ("arn:aws:iam::" ⧺ t.account_id ⧺ ":role/ChatGPTCrossAccountReadRole")

module _ (L : Library) where
  abbrev pub body_of : String → List (String × String) → List String → Option (List String) → Body
  body_of control entries out values = record {
    control = control;
    targets = entries;
    selected_aliases = chosen values;
    excluded_aliases = out;
  }

  batch_id-IsExact :
      (control : String) (entries : List (String × String)) (out : List String)
      (values : Option (List String)) (id : String)
      → batch_id L control entries out values ≡ ok id
      → IsExact control entries out (chosen values)
        × (L.digest (body_of control entries out values) ≡ id)
  unfolding batch_id
  batch_id-IsExact control entries out values id e =
      let (known_one, e1) = refuse-eq-ok (not (contains control controls)) _ _ id e in
      let (selected, chose, e2) = >>=-eq-ok (normalize_selected_aliases values) _ id e1 in
      let is = normalize_selected_aliases-IsChosen values selected chose in
      let (same_order, e3) =
        refuse-eq-ok (not (same_texts (map (λ (e : String × String). e.0) entries) selected)) _ _ id
          e2 in
      let (refs, e4) =
        refuse-eq-ok (any (λ (e : String × String). not (is_hex_span 12 64 e.1)) entries) _ _ id
          e3 in
      let (fine, e5) =
        refuse-eq-ok (not (same_texts out (keep (λ a. contains a out) selected))) _ _ id e4 in
      (
        record {
          of_controls = ground (arith, known_one);
          in_order = same_texts→eq _ _ (ground (arith, same_order)) ∙ is.unchanged;
          hashed = refs;
          among =
              same_texts→eq out _ (ground (arith, fine))
              ∙ ap (λ l. keep (λ a. contains a out) l) is.unchanged;
        },
        subst
            (λ l.
              L.digest (record {
                control = control;
                targets = entries;
                selected_aliases = l;
                excluded_aliases = out;
              })
              ≡ id)
            is.unchanged (ok-eq _ id e5),
      )

  -- If the digest does not collide on the two bodies: a batch id stands for one control, one list of
  -- targets, one selection and one list of exclusions; the targets are those of the selection in its
  -- order, each with a hash, the control is one of the two, and the exclusions are among the
  -- selection.
  pub batch_id-Binds :
      (control control_2 : String) (entries entries_2 : List (String × String))
      (out out_2 : List String) (values values_2 : Option (List String)) (id : String)
      → (L.digest (body_of control entries out values)
            ≡ L.digest (body_of control_2 entries_2 out_2 values_2)
          → body_of control entries out values ≡ body_of control_2 entries_2 out_2 values_2)
      → batch_id L control entries out values ≡ ok id
      → batch_id L control_2 entries_2 out_2 values_2 ≡ ok id
      → IsExact control entries out (chosen values)
        × (control ≡ control_2)
        × (entries ≡ entries_2)
        × (out ≡ out_2)
        × (chosen values ≡ chosen values_2)
  batch_id-Binds control control_2 entries entries_2 out out_2 values values_2 id no_collision e f =
      let (exact, made) = batch_id-IsExact control entries out values id e in
      let (exact_2, made_2) = batch_id-IsExact control_2 entries_2 out_2 values_2 id f in
      let same = no_collision (made ∙ sym made_2) in
      (
        exact,
        ap (λ (b : Body). b.control) same,
        ap (λ (b : Body). b.targets) same,
        ap (λ (b : Body). b.excluded_aliases) same,
        ap (λ (b : Body). b.selected_aliases) same,
      )

  make_target-IsTarget : (t u : Target) → make_target L t ≡ ok u → IsTarget L u
  unfolding make_target
  make_target-IsTarget t u e =
      let (named_so, e1) = refuse-eq-ok (not (contains t.alias aliases)) _ _ u e in
      let (numbered, e2) = refuse-eq-ok (not (L.is_account t.account_id)) _ _ u e1 in
      let (exact, e3) =
        refuse-eq-ok
          (not
            (t.role_arn ≟ ("arn:aws:iam::" ⧺ t.account_id ⧺ ":role/ChatGPTCrossAccountReadRole")))
          _ _ u e2 in
      subst (IsTarget L) (ok-eq t u e3) (record {
        of_aliases = ground (arith, named_so);
        account = ground (arith, numbered);
        role = ≟→eq t.role_arn _ (ground (arith, exact));
      })

  -- Targets that are accepted are the four aliases in their order, with four distinct accounts, and
  -- the role of each is the reading role of its own account.
  pub parse_targets-AreExact :
      (raw : String) (ts : List Target)
      → parse_targets L raw ≡ ok ts
      → (map (λ (t : Target). t.alias) ts ≡ aliases)
        × (distinct (map (λ (t : Target). t.account_id) ts) ≡ true)
        × All (IsTarget L) ts
  unfolding parse_targets
  parse_targets-AreExact raw ts e =
      let (rows, read, e1) = >>=-eq-ok (loaded L (L.loads raw)) _ ts e in
      let (us, made, e2) = >>=-eq-ok (traverse (make_target L) (exact_rows rows)) _ ts e1 in
      let (in_order, e3) =
        refuse-eq-ok
          (not (length us == 4) || not (same_texts (map (λ (t : Target). t.alias) us) aliases)) _ _
          ts e2 in
      let (apart, e4) =
        refuse-eq-ok (not (distinct (map (λ (t : Target). t.account_id) us))) _ _ ts e3 in
      subst
        (λ xs.
          (map (λ (t : Target). t.alias) xs ≡ aliases)
          × (distinct (map (λ (t : Target). t.account_id) xs) ≡ true)
          × All (IsTarget L) xs)
        (ok-eq us ts e4)
        (
          same_texts→eq _ aliases (ground (arith, in_order)),
          ground (arith, apart),
          traverse-All (IsTarget L) (make_target L) make_target-IsTarget (exact_rows rows) us made,
        )

-- ===== src/Findings/Sources.antt =====
-- pilot_v1/adapters.py and pilot_v1/routing.py: imported findings have a specialist, and no action.
use aws_secops.Prelude.{
  String, ◌≡◌, ap, sym, ◌∙◌, contains, not, All, List, [], refl, strip, subst, ◌∷◌, Option, none,
  some, ◌≟◌, Bool, false, if◌then◌else◌, true, Bool-cases, inl, inr,
}
use aws_secops.Effects.Outcomes.{◌>>=◌, traverse, >>=-eq-ok, refuse-eq-ok, traverse-cons, ok-eq}
use aws_secops.Effects.{Outcome, ok, value_error}
use aws_secops.Findings.Types.{Fields, Finding, Library, get}
use aws_secops.Findings.Validate.{
  validate_finding, plain_text, check_finding, check_known, unknown_fields, optional_text,
  environments, severities, statuses,
}
use aws_secops.Findings.Routing.{specialist_route, action_eligibility}
use aws_secops.Findings.Adapters.{
  Files, cloudscape, vapt, adapt_source, adapter, decode_records, cloudscape_finding, vapt_finding,
  cloudscape_fields, exact_fields, is_asset_type, shown_text, status_for, vapt_fields, given,
}

module _ (L : Library) where
  checked-source : (g f : Finding) → check_finding L g ≡ ok f → f.source ≡ g.source
  unfolding check_finding
  checked-source g f e =
      let (_, e1) =
        refuse-eq-ok (not (contains g.severity severities))
          (value_error "finding severity is unsupported") _ f e in
      let (_, e2) =
        refuse-eq-ok (not (contains g.status statuses))
          (value_error "finding status is unsupported") _ f e1 in
      let (_, e3) =
        refuse-eq-ok (not (contains g.environment environments))
          (value_error "finding environment must be dev, test, or demo") _ f e2 in
      let (_, e4) =
        refuse-eq-ok (not (L.is_iso_time g.observed_at))
          (value_error "finding observed_at must be ISO-8601") (ok g) f e3 in
      ap (λ (h : Finding). h.source) (sym (ok-eq g f e4))

  -- A finding that passes has the source that was given, if that is plain text.
  validate-source :
      (fields : Fields) (s : String) (f : Finding)
      → plain_text (get "source" fields) "source" 128 ≡ ok s
      → validate_finding L fields ≡ ok f
      → f.source ≡ s
  unfolding validate_finding
  validate-source fields s f plain e =
      let (_, _, e0) = >>=-eq-ok (check_known (unknown_fields fields)) _ f e in
      let (source, at_source, e1) =
        >>=-eq-ok (plain_text (get "source" fields) "source" 128) _ f e0 in
      let (_, _, e2) =
        >>=-eq-ok (plain_text (get "resource_type" fields) "resource_type" 128) _ f e1 in
      let (_, _, e3) = >>=-eq-ok (plain_text (get "resource_id" fields) "resource_id" 128) _ f e2 in
      let (_, _, e4) =
        >>=-eq-ok (plain_text (get "resource_name" fields) "resource_name" 128) _ f e3 in
      let (_, _, e5) = >>=-eq-ok (plain_text (get "environment" fields) "environment" 128) _ f e4 in
      let (_, _, e6) = >>=-eq-ok (plain_text (get "control" fields) "control" 128) _ f e5 in
      let (_, _, e7) = >>=-eq-ok (plain_text (get "severity" fields) "severity" 128) _ f e6 in
      let (_, _, e8) = >>=-eq-ok (plain_text (get "status" fields) "status" 128) _ f e7 in
      let (_, _, e9) = >>=-eq-ok (plain_text (get "evidence" fields) "evidence" 500) _ f e8 in
      let (_, _, e10) =
        >>=-eq-ok (plain_text (get "recommendation" fields) "recommendation" 128) _ f e9 in
      let (_, _, e11) =
        >>=-eq-ok (plain_text (get "observed_at" fields) "observed_at" 128) _ f e10 in
      let (_, _, e12) = >>=-eq-ok (optional_text (get "owner" fields) "owner") _ f e11 in
      let (_, _, e13) = >>=-eq-ok (optional_text (get "target" fields) "target") _ f e12 in
      let same : source ≡ s = ok-eq source s (sym at_source ∙ plain) in
      checked-source _ f e13 ∙ same

  -- It has a specialist, and no action, whatever origin is given to it as evidence.
  abbrev pub IsPlanOnly : Finding → Type 0
  IsPlanOnly f =
      ((route : String) × (specialist_route f ≡ ok route))
      × ((origin : String) → action_eligibility origin f ≡ "PLAN_ONLY")

  -- Only a finding of AWS EC2 can have an action.
  not_supported :
      (f : Finding) (source : String)
      → f.source ≡ source
      → (source ≟ "AWS EC2") ≡ false
      → (origin : String) → action_eligibility origin f ≡ "PLAN_ONLY"
  unfolding action_eligibility
  not_supported f source e other_one origin = elim (Bool-cases (origin ≟ "AWS_PROVIDER")) [
    | inl is ↦ rw (is, e, other_one) refl
    | inr isnt ↦ rw isnt refl
  ]

  cloudscape-IsPlanOnly : (r : Fields) (f : Finding) → cloudscape L r ≡ ok f → IsPlanOnly f
  unfolding cloudscape specialist_route action_eligibility
  cloudscape-IsPlanOnly r f e =
      let (_, _, e1) = >>=-eq-ok (exact_fields r cloudscape_fields "CloudSCAPE") _ f e in
      let (status, _, e2) =
        >>=-eq-ok
          (status_for "PASS" "FAIL" "CloudSCAPE compliance must be PASS or FAIL"
            (L.upper (shown_text L (get "compliance" r))))
          _ f e1 in
      let (_, e3) =
        refuse-eq-ok (not (is_asset_type L (get "asset_type" r)))
          (value_error "CloudSCAPE asset_type is unsupported") _ f e2 in
      let is_source : f.source ≡ "CloudSCAPE" =
        validate-source (cloudscape_finding L r status) "CloudSCAPE" f
          (unfold plain_text strip in refl) e3 in
      (("Compliance Agent", rw is_source refl), not_supported f "CloudSCAPE" is_source refl)

  vapt-IsPlanOnly : (r : Fields) (f : Finding) → vapt L r ≡ ok f → IsPlanOnly f
  unfolding vapt specialist_route action_eligibility
  vapt-IsPlanOnly r f e =
      let (_, _, e1) = >>=-eq-ok (exact_fields r vapt_fields "VAPT") _ f e in
      let (status, _, e2) =
        >>=-eq-ok
          (status_for "CLOSED" "OPEN" "VAPT status must be OPEN or CLOSED"
            (L.upper (shown_text L (get "status" r))))
          _ f e1 in
      let is_source : f.source ≡ "VAPT" =
        validate-source (vapt_finding L r status) "VAPT" f (unfold plain_text strip in refl) e2 in
      (("Vulnerability Agent", rw is_source refl), not_supported f "VAPT" is_source refl)

  traverse-All :
      (adapt : Fields → Outcome Finding)
      → ((r : Fields) (f : Finding) → adapt r ≡ ok f → IsPlanOnly f)
      → (rs : List Fields) (fs : List Finding) → traverse adapt rs ≡ ok fs
      → All IsPlanOnly fs
  traverse-All adapt each [] fs e = subst (All IsPlanOnly) (ok-eq [] fs e) tt
  traverse-All adapt each (r ∷ rs) fs e =
      let (y, zs, one, rest, same) = traverse-cons adapt r rs fs e in
      subst (All IsPlanOnly) same (each r y one, traverse-All adapt each rs zs rest)

  some-eq : {A : Type 0} (x y : A) → some x ≡ some y → x ≡ y
  some-eq x y h = cc h

  -- The adapter that the name of a format gives.
  adapter-IsPlanOnly :
      (adapt : Fields → Outcome Finding) (b c : Bool)
      → (if b then some (cloudscape L) else if c then some (vapt L) else none) ≡ some adapt
      → (r : Fields) (f : Finding) → adapt r ≡ ok f
      → IsPlanOnly f
  adapter-IsPlanOnly adapt true c h =
      subst
        (λ (m : Fields → Outcome Finding). (r : Fields) (f : Finding) → m r ≡ ok f → IsPlanOnly f)
        (some-eq (cloudscape L) adapt h) cloudscape-IsPlanOnly
  adapter-IsPlanOnly adapt false true h =
      subst
        (λ (m : Fields → Outcome Finding). (r : Fields) (f : Finding) → m r ≡ ok f → IsPlanOnly f)
        (some-eq (vapt L) adapt h) vapt-IsPlanOnly
  adapter-IsPlanOnly adapt false false h = absurd (cc h)

  adapted-All :
      (o : Option (Fields → Outcome Finding)) (source_format : String)
      (records : Outcome (List Fields)) (fs : List Finding)
      → adapter L source_format ≡ o
      → (given "source format must be cloudscape or vapt" o >>= λ adapt.
          (records >>= traverse adapt))
        ≡ ok fs
      → All IsPlanOnly fs
  adapted-All none source_format records fs a e = absurd (cc e)
  adapted-All (some adapt) source_format records fs a e =
      let (rs, _, e1) = >>=-eq-ok records (traverse adapt) fs e in
      traverse-All adapt
        (adapter-IsPlanOnly adapt (source_format ≟ "cloudscape") (source_format ≟ "vapt") a) rs fs
        e1

  -- Each finding that the adapters yield has a specialist, and is PLAN_ONLY whatever origin is then
  -- given to it.
  pub adapt_source-IsPlanOnly :
      {C : Type 0} (F : Files C) (content : C) (filename source_format : String) (fs : List Finding)
      → adapt_source L F content filename source_format ≡ ok fs
      → All IsPlanOnly fs
  unfolding adapt_source
  adapt_source-IsPlanOnly F content filename source_format fs e =
      adapted-All (adapter L source_format) source_format (decode_records F content filename) fs
        refl e

-- ===== src/Backlog/Integrity.antt =====
-- pilot_v1/backlog.py: the keys, identities and counts of the findings.
use aws_secops.Backlog.History.{Change, after_changes, every_change}
use aws_secops.Backlog.Invariant.{after_changes-Bounded}
use aws_secops.Effects.{ok, Outcome, raised}
use aws_secops.Findings.Validate.{validate_finding}
use aws_secops.Effects.Outcomes.{>>=-eq-ok}
use aws_secops.Backlog.Merge.{merge_finding, sighting, unsee_all, fields_of, plan_of}
use aws_secops.Backlog.Entries.{insert, lookup, has_key}
use aws_secops.Backlog.Laws.{
  all-insert, distinct-insert, distinct_keys, keys, all-last, distinct-last, keys-append,
}
use aws_secops.Backlog.Store.{
  has_id, with_plan, load_item, load_items, plan_fields_of, load, FindingBacklog, checked_item,
  load_bytes, load_payload, loaded,
}
use aws_secops.Backlog.Types.{
  Entries, Key, Plan, Tracked, identity_of, key_of, Platform, max_findings,
}
use aws_secops.Findings.Types.{Finding, Library}
use aws_secops.Prelude.{
  Bool, String, [], all, ap, arith, find, find-all, leb, refl, some, true, ≟_refl, ◌&&◌, ◌∙◌, ◌∷◌,
  ◌≟◌, ◌≡◌, List, Option, length, subst, ◌≤◌, Bool-cases, false, inl, inr, length-append, ltb, none,
  sym, ◌++◌, ◌+◌,
}

module _ (L : Library) where
  abbrev has_identity : Key × Tracked → Bool
  has_identity (k, t) = t.finding_id ≟ identity_of L k && leb 1 t.occurrence_count

  -- No key stands twice; each entry has the identity of its key and has been seen.
  pub record IsSound (d : Entries) : Type 0 where
    pub distinct : distinct_keys (keys d) ≡ true
    pub identities : all has_identity d ≡ true

  pub merge-IsSound :
      (d : Entries) (f : Finding) (origin now synced_at : String)
      → IsSound d
      → IsSound (merge_finding L d f origin now synced_at)
  unfolding sighting
  merge-IsSound d f origin now synced_at h = record {
    distinct = distinct-insert (key_of f) _ d h.distinct;
    identities =
        all-insert has_identity (key_of f) (sighting L (lookup (key_of f) d) f origin now synced_at)
          d (ground (arith, ≟_refl (identity_of L (key_of f)))) h.identities;
  }

  keys-unsee : (source : String) (d : Entries) → keys (unsee_all L source d) ≡ keys d
  keys-unsee source [] = refl
  keys-unsee source (e ∷ d) = ap (λ ks. e.0 ∷ ks) (keys-unsee source d)

  identities-unsee :
      (source : String) (d : Entries)
      → all has_identity d ≡ true
      → all has_identity (unsee_all L source d) ≡ true
  identities-unsee source [] h = refl
  identities-unsee source ((k, t) ∷ d) h = ground (arith, identities-unsee source d)

  pub unsee-IsSound : (source : String) (d : Entries) → IsSound d → IsSound (unsee_all L source d)
  unsee-IsSound source d h = record {
    distinct = ap distinct_keys (keys-unsee source d) ∙ h.distinct;
    identities = identities-unsee source d h.identities;
  }

module _ {W J : Type 0} (P : Platform W J) where
  pub plan-IsSound :
      (d : Entries) (finding_id : String) (k : Key) (t : Tracked) (plan : Plan)
      → find (has_id P finding_id) d ≡ some (k, t)
      → IsSound P.library d
      → IsSound P.library (insert k (with_plan P plan t) d)
  plan-IsSound d finding_id k t plan e h = record {
    distinct = distinct-insert k (with_plan P plan t) d h.distinct;
    identities =
        all-insert (has_identity P.library) k (with_plan P plan t) d
          (find-all (has_id P finding_id) (has_identity P.library) d (k, t) e h.identities)
          h.identities;
  }

  checked_item-IsSound :
      (base : Finding) (t : Tracked) (d d' : Entries)
      → checked_item P base t d ≡ ok d'
      → IsSound P.library d
      → IsSound P.library d' × (length d' ≡ length d + 1)
  checked_item-IsSound base t d d' e h =
      let k = key_of base in
      let same : d ++ ((k, t) ∷ []) ≡ d' = ground arith in
      let fresh : has_key k (keys d) ≡ false = ground arith in
      let identity : has_identity P.library (k, t) ≡ true = ground arith in
      let sound : IsSound P.library (d ++ ((k, t) ∷ [])) = record {
        distinct =
            ap distinct_keys (keys-append d ((k, t) ∷ []))
            ∙ distinct-last k (keys d) fresh h.distinct;
        identities = all-last (has_identity P.library) d (k, t) h.identities identity;
      } in
      (subst (IsSound P.library) same sound, ap length (sym same) ∙ length-append d ((k, t) ∷ []))

  load_item-IsSound :
      (t : Tracked) (d d' : Entries)
      → load_item P t d ≡ ok d'
      → IsSound P.library d
      → IsSound P.library d' × (length d' ≡ length d + 1)
  unfolding load_item
  load_item-IsSound t d d' e h =
      let (base, _, e1) =
        >>=-eq-ok (validate_finding P.library (fields_of P.library t.finding)) _ d' e in
      let (_, _, e2) = >>=-eq-ok (plan_of (plan_fields_of P t.plan)) _ d' e1 in
      checked_item-IsSound base t d d' e2 h

  load_items-IsSound :
      (ts : List Tracked) (d d' : Entries)
      → load_items P ts d ≡ ok d'
      → IsSound P.library d
      → IsSound P.library d' × (length d' ≡ length d + length ts)
  unfolding load_items
  load_items-IsSound [] d d' e h =
      let same : d ≡ d' = cc e in (subst (IsSound P.library) same h, omega (arith, ap length same))
  load_items-IsSound (t ∷ ts) d d' e h =
      let (x, one, rest) = >>=-eq-ok (load_item P t d) (load_items P ts) d' e in
      let (sound, more) = load_item-IsSound t d x one h in
      let (sound', most) = load_items-IsSound ts x d' rest sound in (sound', omega arith)

  empty-IsSound : IsSound P.library []
  empty-IsSound = record { distinct = refl; identities = refl }

  load_payload-IsSound :
      (o : Option (List Tracked)) (d : Entries)
      → load_payload P o ≡ ok d
      → IsSound P.library d × (length d ≤ 100)
  load_payload-IsSound none d e = absurd (cc e)
  load_payload-IsSound (some ts) d e = elim (Bool-cases (ltb max_findings (length ts))) [
    | inl too_many ↦ absurd (ground arith)
    | inr few ↦
        let taken : load_items P ts [] ≡ ok d = ground arith in
        let (sound, most) = load_items-IsSound ts [] d taken empty-IsSound in
        let bound : length ts ≤ 100 = ground arith in (sound, omega arith)
  ]

  loaded-returns : (o : Outcome Entries) (d : Entries) → loaded P o ≡ ok d → o ≡ ok d
  loaded-returns (ok x) d e = e
  loaded-returns (raised x) d e = absurd (cc e)

  pub load-IsSound :
      (file : Option J) (d : Entries) → load P file ≡ ok d → IsSound P.library d × (length d ≤ 100)
  unfolding load
  load-IsSound none d e =
      let same : [] ≡ d = cc e in
      subst (λ (x : Entries). IsSound P.library x × (length x ≤ 100)) same
        (empty-IsSound, omega arith)
  load-IsSound (some bytes) d e = elim (Bool-cases (ltb 1000000 (P.size bytes))) [
    | inl large ↦ absurd (ground arith)
    | inr small ↦
        let taken = loaded-returns (load_bytes P bytes) d e in
        let payload : load_payload P (P.decode bytes) ≡ ok d = ground arith in
        load_payload-IsSound (P.decode bytes) d payload
  ]

  -- A backlog that the file was loaded as, after any changes, with whatever failures: no key stands
  -- twice, each finding has the identity of its key and a count of at least one, and there are at
  -- most 100.
  pub after_changes-IsSound :
      (cs : List Change) (s : FindingBacklog W J)
      → load P s.file ≡ ok s.findings
      → IsSound P.library (after_changes P cs s).findings
        × (length (after_changes P cs s).findings ≤ 100)
  after_changes-IsSound cs s h =
      after_changes-Bounded P (IsSound P.library) (Unit {0}) (merge-IsSound P.library)
        (λ _. plan-IsSound) (unsee-IsSound P.library) cs s (every_change cs)
        (load-IsSound s.file s.findings h)

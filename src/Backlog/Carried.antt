-- ===== src/Backlog/Carried.antt =====
-- pilot_v1/backlog.py: a property of the dict through the loops of `upsert` and `replace_provider`.
use aws_secops.Backlog.Entries.{has_key}
use aws_secops.Effects.{Outcome, ok, raised}
use aws_secops.Backlog.Merge.{
  fields_of, merge, merge_finding, provider_loop, unless_seen, upsert_loop,
}
use aws_secops.Findings.Validate.{validate_finding}
use aws_secops.Findings.Types.{Fields, Finding, Library}
use aws_secops.Prelude.{Bool, List, String, [], false, not, refl, subst, true, ◌∷◌, ◌≟◌, ◌≡◌}
use aws_secops.Backlog.Types.{Entries, Key, key_of}
use aws_secops.Effects.Outcomes.{>>=-eq-ok, refuse-eq-ok}

module _ (L : Library) (I : Entries → Type 0)
    (joins : (d : Entries) (f : Finding) (origin now synced_at : String)
      → I d
      → I (merge_finding L d f origin now synced_at)) where
  merge-carries :
      (d : Entries) (raw : Fields) (origin now synced_at : String) (k : Key) (d' : Entries)
      → merge L d raw origin now synced_at ≡ ok (k, d')
      → I d
      → I d'
  unfolding merge
  merge-carries d raw origin now synced_at k d' e h =
      let (f, _, done) =
        >>=-eq-ok (validate_finding L raw)
          (λ f. ok (key_of f, merge_finding L d f origin now synced_at)) (k, d') e in
      let same : merge_finding L d f origin now synced_at ≡ d' = cc done in
      subst I same (joins d f origin now synced_at h)

  unless_seen-carries :
      (b : Bool) (seen : List Key) (d : Entries) (m : Outcome (Key × Entries)) (seen' : List Key)
      (d' : Entries)
      → unless_seen L b seen d m ≡ ok (seen', d')
      → ((k : Key) (x : Entries) → m ≡ ok (k, x) → I x)
      → I d
      → I d'
  unless_seen-carries true seen d m seen' d' e k h = let same : d ≡ d' = cc e in subst I same h
  unless_seen-carries false seen d (raised x) seen' d' e k h = absurd (cc e)
  unless_seen-carries false seen d (ok (j, x)) seen' d' e k h =
      let same : x ≡ d' = cc e in subst I same (k j x refl)

  pub upsert_loop-carries :
      (raws : List Fields) (origin now : String) (seen : List Key) (d : Entries) (seen' : List Key)
      (d' : Entries)
      → upsert_loop L raws origin now seen d ≡ ok (seen', d')
      → I d
      → I d'
  unfolding upsert_loop
  upsert_loop-carries [] origin now seen d seen' d' e h = let same : d ≡ d' = cc e in subst I same h
  upsert_loop-carries (raw ∷ raws) origin now seen d seen' d' e h =
      let (f, _, e1) = >>=-eq-ok (validate_finding L raw) _ (seen', d') e in
      let ((seen1, d1), one, rest) =
        >>=-eq-ok (unless_seen L (has_key (key_of f) seen) seen d (merge L d raw origin now "")) _
          (seen', d') e1 in
      upsert_loop-carries raws origin now seen1 d1 seen' d' rest (
        unless_seen-carries (has_key (key_of f) seen) seen d (merge L d raw origin now "") seen1 d1
          one (λ k x m. merge-carries d raw origin now "" k x m h) h)

  pub provider_loop-carries :
      (source : String) (raws : List Fields) (now synced_at : String) (seen : List Key)
      (d : Entries) (seen' : List Key) (d' : Entries)
      → provider_loop L source raws now synced_at seen d ≡ ok (seen', d')
      → I d
      → I d'
  unfolding provider_loop
  provider_loop-carries source [] now synced_at seen d seen' d' e h =
      let same : d ≡ d' = cc e in subst I same h
  provider_loop-carries source (raw ∷ raws) now synced_at seen d seen' d' e h =
      let (f, _, e1) = >>=-eq-ok (validate_finding L raw) _ (seen', d') e in
      let (_, e2) = refuse-eq-ok (not (f.source ≟ source)) _ _ (seen', d') e1 in
      let step = merge L d (fields_of L f) "AWS_PROVIDER" now synced_at in
      let ((seen1, d1), one, rest) =
        >>=-eq-ok (unless_seen L (has_key (key_of f) seen) seen d step) _ (seen', d') e2 in
      provider_loop-carries source raws now synced_at seen1 d1 seen' d' rest (
        unless_seen-carries (has_key (key_of f) seen) seen d step seen1 d1 one
          (λ k x m. merge-carries d (fields_of L f) "AWS_PROVIDER" now synced_at k x m h) h)

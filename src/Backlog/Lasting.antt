-- ===== src/Backlog/Lasting.antt =====
-- pilot_v1/backlog.py: what later changes leave of a finding.
-- Each finding of the first dict is in the second: with its first sighting, a count that has not
-- fallen, and its plan where `plans_stay`.
use aws_secops.Backlog.Integrity.{
  IsSound, load-IsSound, merge-IsSound, plan-IsSound, unsee-IsSound, after_changes-IsSound,
}
use aws_secops.Backlog.History.{AllPermitted, Change, after_changes, every_change}
use aws_secops.Effects.{ok}
use aws_secops.Backlog.Store.{FindingBacklog, has_id, with_plan, load}
use aws_secops.Backlog.Invariant.{after_changes-Bounded}
use aws_secops.Backlog.Types.{Entries, Key, Tracked, key_of, same_key, Plan, Platform}
use aws_secops.Findings.Types.{Finding, Library}
use aws_secops.Backlog.Merge.{merge_finding, sighting, unsee, unsee_all}
use aws_secops.Backlog.Laws.{lookup-insert, same_key→eq, lookup-find}
use aws_secops.Prelude.{
  Bool, Bool-cases, String, [], arith, false, if◌then◌else◌, inl, inr, refl, some, true, ◌∷◌, ◌≡◌,
  ◌≤◌, List, ap, find, sym, ◌∙◌,
}
use aws_secops.Backlog.Entries.{lookup, insert}

abbrev pub Lasts : Bool → Entries → Entries → Type 0
Lasts plans_stay d d' =
    (k : Key) (t : Tracked)
    → lookup k d ≡ some t
    → (t' : Tracked) × (lookup k d' ≡ some t')
      × (t'.first_seen ≡ t.first_seen)
      × (t.occurrence_count ≤ t'.occurrence_count)
      × ((if plans_stay then t'.plan else t.plan) ≡ t.plan)

Lasts-refl : (b : Bool) (d : Entries) → Lasts b d d
Lasts-refl true d k t e = (t, e, refl, omega arith, refl)
Lasts-refl false d k t e = (t, e, refl, omega arith, refl)

module _ (L : Library) where
  -- The entry of one key after a sighting.
  lookup-merge :
      (d : Entries) (f : Finding) (origin now synced_at : String) (k : Key)
      → lookup k (merge_finding L d f origin now synced_at) ≡ (
          if same_key (key_of f) k
          then some (sighting L (lookup (key_of f) d) f origin now synced_at)
          else lookup k d)
  lookup-merge d f origin now synced_at k =
      lookup-insert k (key_of f) (sighting L (lookup (key_of f) d) f origin now synced_at) d

  merge-Lasts :
      (b : Bool) (d0 d : Entries) (f : Finding) (origin now synced_at : String)
      → Lasts b d0 d
      → Lasts b d0 (merge_finding L d f origin now synced_at)
  unfolding sighting
  merge-Lasts b d0 d f origin now synced_at h k t e =
      let (t', at, first, grows, plan) = h k t e in
      let found = lookup-merge d f origin now synced_at k in
      elim (Bool-cases (same_key (key_of f) k)) [
        | inr differs ↦ (t', ground arith, first, grows, plan)
        | inl same ↦
            let at_key : lookup (key_of f) d ≡ some t' = rw (same_key→eq (key_of f) k same) at in
            (sighting L (some t') f origin now synced_at, ground arith, first, omega arith, plan)
      ]

  unsee-Lasts :
      (source : String) (d : Entries) (k : Key) (t : Tracked)
      → lookup k d ≡ some t
      → lookup k (unsee_all L source d) ≡ some (unsee L source t)
  unsee-Lasts source [] k t e = absurd (cc e)
  unsee-Lasts source ((j, u) ∷ d) k t e = ground (arith, unsee-Lasts source d k t)

  unsee_all-Lasts :
      (b : Bool) (d0 : Entries) (source : String) (d : Entries)
      → Lasts b d0 d
      → Lasts b d0 (unsee_all L source d)
  unsee_all-Lasts b d0 source d h k t e =
      let (t', at, first, grows, plan) = h k t e in
      let same_first : (unsee L source t').first_seen ≡ t'.first_seen = ground arith in
      let same_count : (unsee L source t').occurrence_count ≡ t'.occurrence_count = ground arith in
      let same_plan : (unsee L source t').plan ≡ t'.plan = ground arith in
      (
        unsee L source t',
        unsee-Lasts source d k t' at,
        same_first ∙ first,
        omega arith,
        ap (λ (p : Plan). if b then p else t.plan) same_plan ∙ plan,
      )

module _ {W J : Type 0} (P : Platform W J) where
  plan-Lasts :
      (d0 d : Entries) (finding_id : String) (k : Key) (t : Tracked) (plan : Plan)
      → find (has_id P finding_id) d ≡ some (k, t)
      → IsSound P.library d
      → Lasts false d0 d
      → Lasts false d0 (insert k (with_plan P plan t) d)
  plan-Lasts d0 d finding_id k t plan e sound h j u at0 =
      let (u', at, first, grows, _) = h j u at0 in
      let found = lookup-insert j k (with_plan P plan t) d in
      let here = lookup-find (has_id P finding_id) k t d sound.distinct e in
      elim (Bool-cases (same_key k j)) [
        | inr differs ↦ (u', ground arith, first, grows, refl)
        | inl same ↦
            let at_key : lookup k d ≡ some u' = rw (same_key→eq k j same) at in
            let one : u' ≡ t = cc in
            (
              with_plan P plan t,
              ground arith,
              sym (ap (λ (x : Tracked). x.first_seen) one) ∙ first,
              omega (arith, ap (λ (x : Tracked). x.occurrence_count) one),
              refl,
            )
      ]

  abbrev Kept : Bool → Entries → Entries → Type 0
  Kept b d0 d = IsSound P.library d × Lasts b d0 d

  -- From a loaded backlog, whatever changes are made and whatever fails: each finding stays, under
  -- its key, with its first sighting and a count that never falls.
  pub after_changes-Lasts :
      (cs : List Change) (s : FindingBacklog W J) (k : Key) (t : Tracked)
      → load P s.file ≡ ok s.findings
      → lookup k s.findings ≡ some t
      → (t' : Tracked) × (lookup k (after_changes P cs s).findings ≡ some t')
        × (t'.first_seen ≡ t.first_seen)
        × (t.occurrence_count ≤ t'.occurrence_count)
  after_changes-Lasts cs s k t h e =
      let (sound, few) = load-IsSound P s.file s.findings h in
      let kept =
        after_changes-Bounded P (Kept false s.findings) (Unit {0})
          (λ d f origin now synced_at x. (
            merge-IsSound P.library d f origin now synced_at x.0,
            merge-Lasts P.library false s.findings d f origin now synced_at x.1,
          ))
          (λ _ d id j u plan found x. (
            plan-IsSound P d id j u plan found x.0,
            plan-Lasts s.findings d id j u plan found x.0 x.1,
          ))
          (λ source d x. (
            unsee-IsSound P.library source d x.0,
            unsee_all-Lasts P.library false s.findings source d x.1,
          ))
          cs s (every_change cs) ((sound, Lasts-refl false s.findings), few) in
      let (t', at, first, grows, _) = kept.0.1 k t e in (t', at, first, grows)

  -- From a loaded backlog, after any changes: imports and provider reads, however many and whatever
  -- fails, leave the operator's plan of each finding that is there as it is; no finding is lost.
  pub sightings-keep_plans :
      (earlier cs : List Change) (s : FindingBacklog W J) (k : Key) (t : Tracked)
      → AllPermitted ⊥ cs
      → load P s.file ≡ ok s.findings
      → lookup k (after_changes P earlier s).findings ≡ some t
      → (t' : Tracked) × (lookup k (after_changes P cs (after_changes P earlier s)).findings
          ≡ some t')
        × (t'.plan ≡ t.plan)
  sightings-keep_plans earlier cs s k t no_plans h e =
      let u = after_changes P earlier s in
      let kept =
        after_changes-Bounded P (Kept true u.findings) ⊥
          (λ d f origin now synced_at x. (
            merge-IsSound P.library d f origin now synced_at x.0,
            merge-Lasts P.library true u.findings d f origin now synced_at x.1,
          ))
          (λ never d id j v plan found x. absurd never)
          (λ source d x. (
            unsee-IsSound P.library source d x.0,
            unsee_all-Lasts P.library true u.findings source d x.1,
          ))
          cs u no_plans
          (let (sound, few) = after_changes-IsSound P earlier s h in
            ((sound, Lasts-refl true u.findings), few)) in
      let (t', at, first, grows, plan) = kept.0.1 k t e in (t', at, plan)

-- ===== src/Backlog/Invariant.antt =====
-- pilot_v1/backlog.py: a property of the dict through the methods, whatever fails.
use aws_secops.Backlog.Carried.{provider_loop-carries, upsert_loop-carries}
use aws_secops.Backlog.History.{
  Change, plan_change, provider_change, run_change, upsert_change, after_changes, AllPermitted,
  Permitted,
}
use aws_secops.Effects.Keeps.{
  Keeps, Keeps-bind, Keeps-bind_lift, Keeps-gets, Keeps-if, Keeps-lift, Keeps-pure, Keeps-raise_if,
  Keeps-then,
}
use aws_secops.Backlog.Entries.{insert}
use aws_secops.Backlog.Merge.{merge_finding, unsee_all}
use aws_secops.Findings.Types.{Finding}
use aws_secops.Prelude.{
  String, find, length, some, ◌≡◌, ◌≤◌, Bool-cases, Option, [], arith, inl, inr, ltb, none, refl,
  ◌⊎◌, List, ◌∷◌,
}
use aws_secops.Backlog.Store.{
  FindingBacklog, has_id, with_plan, write_file, commit, none_seen, replace_provider, update_entry,
  update_plan, upsert, M,
}
use aws_secops.Backlog.Types.{Platform, Entries, Key, Plan, Tracked}
use aws_secops.Effects.{◌>>=◌, gets}

module _ {W J : Type 0} (P : Platform W J) (I : Entries → Type 0) (PlansChange : Type 0)
    (joins : (d : Entries) (f : Finding) (origin now synced_at : String)
      → I d
      → I (merge_finding P.library d f origin now synced_at))
    (plans : PlansChange
      → (d : Entries) (finding_id : String) (k : Key) (t : Tracked) (plan : Plan)
      → find (has_id P finding_id) d ≡ some (k, t)
      → I d
      → I (insert k (with_plan P plan t) d))
    (unsees : (source : String) (d : Entries) → I d → I (unsee_all P.library source d)) where
  -- The property, and the bound of MAX_FINDINGS.
  abbrev pub Bounded : FindingBacklog W J → Type 0
  Bounded s = I s.findings × (length s.findings ≤ 100)

  commit-findings :
      (d : Entries) (s : FindingBacklog W J)
      → ((commit P d s).1.findings ≡ s.findings)
        ⊎ (((commit P d s).1.findings ≡ d) × (length d ≤ 100))
  unfolding commit write_file ◌>>=◌
  commit-findings d s = elim (Bool-cases (ltb 100 (length d))) [
    | inl too_many ↦ inl (ground arith)
    | inr bounded ↦ elim (Bool-cases s.path) [
      | inr memory_only ↦ inr (ground arith, ground arith)
      | inl kept ↦ elim (Bool-cases (P.make_folder s.world).0) [
        | inr no_folder ↦ inl (ground arith)
        | inl folder ↦ elim (Bool-cases (ltb 1000000 (P.size (P.encode d)))) [
          | inl large ↦ inl (ground arith)
          | inr small ↦ elim (Bool-cases (P.write (P.make_folder s.world).1).0) [
            | inr refused ↦ inl (ground arith)
            | inl done ↦ inr (ground arith, ground arith)
          ]
        ]
      ]
    ]
  ]

  commit-Bounded : (d : Entries) → I d → Keeps Bounded (commit P d)
  commit-Bounded d h = record {
    at = λ s k. elim (commit-findings d s) [
      | inl same ↦ rw same k
      | inr (new, bound) ↦ rw new (h, bound)
    ];
  }

  update_entry-Bounded :
      PlansChange
      → (finding_id : String) (plan : Plan) (s : FindingBacklog W J) (o : Option (Key × Tracked))
      → find (has_id P finding_id) s.findings ≡ o
      → Bounded s
      → Bounded (update_entry P o plan s).1
  unfolding ◌>>=◌
  update_entry-Bounded p finding_id plan s none e h = h
  update_entry-Bounded p finding_id plan s (some (k, t)) e h =
      (commit-Bounded (insert k (with_plan P plan t) s.findings)
          (plans p s.findings finding_id k t plan e h.0)).at
        s h

  -- What follows `d ← self._findings` may use that the dict has the property.
  findings-Bounded :
      (k : Entries → M P (Unit {0}))
      → ((s : FindingBacklog W J) → Bounded s → Bounded (k s.findings s).1)
      → Keeps Bounded (gets (λ s. s.findings) >>= k)
  unfolding ◌>>=◌
  findings-Bounded k h = record { at = h }

  run_change-Bounded : (c : Change) → Permitted PlansChange c → Keeps Bounded (run_change P c)
  unfolding update_plan upsert replace_provider
  run_change-Bounded (plan_change finding_id values) p = Keeps-bind (Keeps-lift _) λ plan.
      findings-Bounded _ λ s h.
        update_entry-Bounded p finding_id plan s (find (has_id P finding_id) s.findings) refl h
  run_change-Bounded (upsert_change raws origin) p = Keeps-then (Keeps-raise_if _ _) (
      findings-Bounded _ λ s h.
        (Keeps-bind (Keeps-gets _) λ now. Keeps-bind_lift _ λ r e.
            Keeps-if (none_seen P r.0) _ _ (λ _. Keeps-pure _)
              (λ _. commit-Bounded r.1 (
                upsert_loop-carries P.library I joins raws origin now [] s.findings r.0 r.1 e
                  h.0))).at
          s h)
  run_change-Bounded (provider_change source raws synced_at) p = findings-Bounded _ λ s h.
      (Keeps-bind (Keeps-gets _) λ now. Keeps-bind_lift _ λ r e. commit-Bounded r.1 (
          provider_loop-carries P.library I joins source raws now synced_at []
            (unsee_all P.library source s.findings) r.0 r.1 e (unsees source s.findings h.0))).at
        s h

  pub after_changes-Bounded :
      (cs : List Change) (s : FindingBacklog W J)
      → AllPermitted PlansChange cs
      → Bounded s
      → Bounded (after_changes P cs s)
  after_changes-Bounded [] s p h = h
  after_changes-Bounded (c ∷ cs) s p h =
      after_changes-Bounded cs (run_change P c s).1 p.1 ((run_change-Bounded c p.0).at s h)

-- ===== src/Backlog/Atomic.antt =====
-- pilot_v1/backlog.py: the file and the findings in memory, after a change that returns or raises.
use aws_secops.Backlog.History.{Change, plan_change, provider_change, run_change, upsert_change}
use aws_secops.Prelude.{
  Bool, Bool-cases, arith, false, if◌then◌else◌, inl, inr, ltb, refl, some, true, ◌≡◌, ◌⊎◌, Option,
  find, none,
}
use aws_secops.Backlog.Store.{
  FindingBacklog, write_file, has_id, none_seen, replace_provider, update_entry, update_plan,
  upsert, M, commit,
}
use aws_secops.Backlog.Types.{Platform, Entries, Key, Plan, Tracked}
use aws_secops.Effects.{◌>>=◌, ◌>>◌, Error, Outcome, gets, lift, modify, ok, pure, raise_if, raised}

module _ {W J : Type 0} (P : Platform W J) where
  -- Nothing has changed; or the call has returned, and the file, if there is one, has the findings.
  abbrev pub IsAtomic : M P (Unit {0}) → FindingBacklog W J → Type 0
  IsAtomic m s =
      (((m s).1.findings ≡ s.findings) × ((m s).1.file ≡ s.file))
      ⊎ (((m s).0 ≡ ok tt)
          × ((m s).1.file ≡ (if s.path then some (P.encode (m s).1.findings) else s.file)))

  guard-IsAtomic :
      (b : Bool) (e : Error) (n : M P (Unit {0})) (s : FindingBacklog W J)
      → IsAtomic n s
      → IsAtomic (raise_if b e >> n) s
  unfolding ◌>>=◌
  guard-IsAtomic true e n s h = inl (refl, refl)
  guard-IsAtomic false e n s h = h

  lift-IsAtomic :
      {A : Type 0} (r : Outcome A) (f : A → M P (Unit {0})) (s : FindingBacklog W J)
      → ((a : A) → IsAtomic (f a) s)
      → IsAtomic (lift r >>= f) s
  unfolding ◌>>=◌
  lift-IsAtomic (ok a) f s h = h a
  lift-IsAtomic (raised e) f s h = inl (refl, refl)

  gets-IsAtomic :
      {A : Type 0} (g : FindingBacklog W J → A) (f : A → M P (Unit {0})) (s : FindingBacklog W J)
      → IsAtomic (f (g s)) s
      → IsAtomic (gets g >>= f) s
  unfolding ◌>>=◌
  gets-IsAtomic g f s h = h

  -- `write_file` and what follows it.
  write-IsAtomic :
      (d : Entries) (s : FindingBacklog W J)
      → s.path ≡ true
      → IsAtomic (write_file P (P.encode d) >> modify (λ t. record t { findings = d })) s
  unfolding write_file ◌>>=◌
  write-IsAtomic d s p = elim (Bool-cases (P.make_folder s.world).0) [
    | inr no_folder ↦ inl (ground arith, ground arith)
    | inl folder ↦ elim (Bool-cases (ltb 1000000 (P.size (P.encode d)))) [
      | inl large ↦ inl (ground arith, ground arith)
      | inr fits ↦ elim (Bool-cases (P.write (P.make_folder s.world).1).0) [
        | inr refused ↦ inl (ground arith, ground arith)
        | inl done ↦ inr (ground arith, ground arith)
      ]
    ]
  ]

  path-IsAtomic :
      (b : Bool) (d : Entries) (s : FindingBacklog W J)
      → s.path ≡ b
      → IsAtomic
          ((if b then write_file P (P.encode d) else pure tt)
            >> modify (λ t. record t { findings = d }))
          s
  path-IsAtomic true d s p = write-IsAtomic d s p
  path-IsAtomic false d s p = unfold ◌>>=◌ in inr (refl, rw p refl)

  commit-IsAtomic : (d : Entries) (s : FindingBacklog W J) → IsAtomic (commit P d) s
  unfolding commit
  commit-IsAtomic d s = guard-IsAtomic _ _ _ s (gets-IsAtomic _ _ s (path-IsAtomic s.path d s refl))

  update_entry-IsAtomic :
      (o : Option (Key × Tracked)) (plan : Plan) (s : FindingBacklog W J)
      → IsAtomic (update_entry P o plan) s
  update_entry-IsAtomic none plan s = unfold ◌>>=◌ in inl (refl, refl)
  update_entry-IsAtomic (some (k, t)) plan s = gets-IsAtomic _ _ s (commit-IsAtomic _ s)

  unless_none-IsAtomic :
      (b : Bool) (d : Entries) (s : FindingBacklog W J)
      → IsAtomic (if b then pure tt else commit P d) s
  unless_none-IsAtomic true d s = unfold ◌>>=◌ in inl (refl, refl)
  unless_none-IsAtomic false d s = commit-IsAtomic d s

  -- Each change of the backlog, whatever fails: either the findings in memory and the file are as
  -- before, or the call has returned and the file, if there is one, has the new findings.
  pub run_change-IsAtomic : (c : Change) (s : FindingBacklog W J) → IsAtomic (run_change P c) s
  unfolding update_plan upsert replace_provider
  run_change-IsAtomic (plan_change finding_id values) s = lift-IsAtomic _ _ s λ plan.
      gets-IsAtomic _ _ s (update_entry-IsAtomic (find (has_id P finding_id) s.findings) plan s)
  run_change-IsAtomic (upsert_change raws origin) s = guard-IsAtomic _ _ _ s (
      gets-IsAtomic _ _ s (
        gets-IsAtomic _ _ s
          (lift-IsAtomic _ _ s λ r. unless_none-IsAtomic (none_seen P r.0) r.1 s)))
  run_change-IsAtomic (provider_change source raws synced_at) s =
      gets-IsAtomic _ _ s (gets-IsAtomic _ _ s (lift-IsAtomic _ _ s λ r. commit-IsAtomic r.1 s))

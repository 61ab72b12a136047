-- ===== src/Backlog/History.antt =====
-- pilot_v1/backlog.py: any calls that change the backlog, one after another.
use aws_secops.Findings.Types.{Fields}
use aws_secops.Backlog.Store.{FindingBacklog, replace_provider, update_plan, upsert, M}
use aws_secops.Prelude.{List, String, [], ◌∷◌}
use aws_secops.Backlog.Types.{Platform}

pub data Change : Type 0 where
  plan_change : String → Fields → Change
  upsert_change : List Fields → String → Change
  provider_change : String → List Fields → String → Change

-- What must hold where a change is one of the plan.
abbrev pub Permitted : Type 0 → Change → Type 0
Permitted PlansChange (plan_change finding_id values) = PlansChange
Permitted PlansChange _ = Unit

abbrev pub AllPermitted : Type 0 → List Change → Type 0
AllPermitted PlansChange [] = Unit
AllPermitted PlansChange (c ∷ cs) = Permitted PlansChange c × AllPermitted PlansChange cs

pub every_change : (cs : List Change) → AllPermitted (Unit {0}) cs
every_change [] = tt
every_change (plan_change finding_id values ∷ cs) = (tt, every_change cs)
every_change (upsert_change raws origin ∷ cs) = (tt, every_change cs)
every_change (provider_change source raws synced_at ∷ cs) = (tt, every_change cs)

module _ {W J : Type 0} (P : Platform W J) where
  abbrev pub run_change : Change → M P (Unit {0})
  run_change (plan_change finding_id values) = update_plan P finding_id values
  run_change (upsert_change raws origin) = upsert P raws origin
  run_change (provider_change source raws synced_at) = replace_provider P source raws synced_at

  abbrev pub after_changes : List Change → FindingBacklog W J → FindingBacklog W J
  after_changes [] s = s
  after_changes (c ∷ cs) s = after_changes cs (run_change c s).1

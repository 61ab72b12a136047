-- ===== src/Pilot/History.antt =====
-- compliance_agent_v1/csv_bulk_pilot.py and grouped_selection_pilot.py: any calls, in any order, and
-- changes of the evidence between them.
use aws_secops.Prelude.{Bool, List, String, [], ◌∷◌, Option, contains, none, not, some, ◌≟◌}
use aws_secops.Effects.Outcomes.{◌>>◌, refuse}
use aws_secops.Effects.{Outcome, ok, value_error}
use aws_secops.Scaled.Types.{Row}
use aws_secops.Pilot.Candidates.{Reader}
use aws_secops.Pilot.Types.{Pilot, Digests}
use aws_secops.Pilot.Batches.{Native, preview, decide, execute_approved}
use aws_secops.Pilot.Selection.{Filter, add, remove, select_all, preview_selection}

pub data Operation (C : Type 0) : Type 0 where
  preview_call : C → Operation C
  decide_call : String → String → Native → Operation C
  execute_call : String → String → List String → Operation C
  add_call : String → Operation C
  remove_call : String → Operation C
  select_all_call : Filter → Operation C
  preview_selection_call : Operation C
  -- the finding store has other rows
  new_evidence : List Row → Operation C

module _ {C : Type 0} (D : Digests) (R : Reader C) where
  -- The state after a call, whether it returns or raises.
  unfoldable pub run_operation : Operation C → Pilot → Pilot
  run_operation (preview_call content) s = (preview D R content s).1
  run_operation (decide_call id hash native) s = (decide D id hash native s).1
  run_operation (execute_call id hash failing) s = (execute_approved D id hash failing s).1
  run_operation (add_call id) s = (add D id s).1
  run_operation (remove_call id) s = (remove D id s).1
  run_operation (select_all_call f) s = (select_all D f s).1
  run_operation preview_selection_call s = (preview_selection D s).1
  run_operation (new_evidence rows) s = record s { store = rows }

  unfoldable pub run_operations : List (Operation C) → Pilot → Pilot
  run_operations [] s = s
  run_operations (o ∷ os) s = run_operations os (run_operation o s)

-- GOVERNED_SYNTHETIC_CONTROLS
abbrev governed_controls : List String
governed_controls = "restricted_ssh" ∷ "s3_ssl" ∷ []

abbrev strict_scope : String → Option Bool → Bool
strict_scope control none = not (control ≟ "restricted_ssh")
strict_scope control (some strict) = strict

abbrev pub new_pilot : List Row → String → Option Bool → Pilot
new_pilot store control strict = record {
  store = store;
  control = control;
  strict_control_scope = strict_scope control strict;
  batches = [];
  preparation_revision = 0;
  selection = [];
  dispatched = [];
}

-- `__init__`
unfoldable pub make_pilot : List Row → String → Option Bool → Outcome Pilot
make_pilot store control strict = do
  refuse (not (contains control governed_controls))
      (value_error "unsupported governed synthetic control")
  ok (new_pilot store control strict)

-- ===== src/Guarded/Provider.antt =====
-- pilot_v1/sg_compliance.py: the methods of `SGProvider` and `GovernedSGProvider`.
use aws_secops.Pilot.Preview.{key}
use aws_secops.Prelude.{
  Bool, List, Option, String, [], any, false, find, if◌then◌else◌, is_part, keep, length, ltb, none,
  not, same_texts, some, true, ℕ, ◌&&◌, ◌++◌, ◌+◌, ◌==◌, ◌||◌, ◌∷◌, ◌≟◌,
}
use aws_secops.Effects.{
  ◌>>=◌, ◌>>◌, Exec, Outcome, gets, lift, modify, ok, pure, raise_if, raised, permission_error,
  runtime_error, policy_error,
}
use aws_secops.Guarded.Types.{
  Answer, Audit, Call, CallError, Cloud, Deployment, Entry, Group, Manifest, Metrics, Rule, State,
}

abbrev pub is_text : String → Option String → Bool
is_text s none = false
is_text s (some t) = t ≟ s

abbrev pub is_number : ℕ → Option ℕ → Bool
is_number n none = false
is_number n (some m) = m == n

-- `{x["Key"]: x["Value"] for x in tags}.get(name)`
abbrev pub tag : String → List (String × String) → Option String
tag name [] = none
tag name ((key, value) ∷ tags) = last (tag name tags)
  where
    last : Option String → Option String
    last (some v) = some v
    last none = if key ≟ name then some value else none

abbrev pub has_items : {A : Type 0} → List A → Bool
has_items [] = false
has_items (x ∷ xs) = true

-- The one rule that a demo group may have.
abbrev pub is_exact : Rule → Bool
is_exact r =
    is_text "tcp" r.protocol
    && is_number 22 r.from_port
    && is_number 22 r.to_port
    && is_text "0.0.0.0/0" r.cidr_ipv4
    && not r.has_ipv6

abbrev pub is_owned : Manifest → List (String × String) → Bool
is_owned m tags =
    is_text "aws-secops" (tag "project" tags)
    && is_text "amit" (tag "owner" tags)
    && is_text "bulk-ssh" (tag "phase" tags)
    && is_text m.run (tag "run" tags)

abbrev pub the_group : List Group → Outcome Group
the_group (g ∷ []) = ok g
the_group _ = raised (permission_error "SG unavailable")

abbrev pub is_entry : String → Entry → Bool
is_entry id e = e.group_id ≟ id

abbrev pub known_entry : Option Entry → Outcome Entry
known_entry none = raised (permission_error "outside fixed SG manifest")
known_entry (some e) = ok e

abbrev pub entry_of : Manifest → String → Outcome Entry
entry_of m id = known_entry (find (is_entry id) m.security_groups)

-- `self.resources.index(resource)`, of a resource that is there
abbrev pub place_of : String → List Entry → ℕ
place_of id [] = 0
place_of id (e ∷ es) = if e.group_id ≟ id then 0 else 1 + place_of id es

abbrev pub approved_batch : Bool → Option String → Outcome String
approved_batch inside none = raised (permission_error "no exact approved SG execution context")
approved_batch inside (some b) =
    if b ≟ "" || not inside
    then raised (permission_error "no exact approved SG execution context")
    else ok b

abbrev pub mode_of : Option String → String
mode_of none = "ACTIVE"
mode_of (some mode) = mode

abbrev pub is_enforced : Deployment → Option (String × String) → Bool
is_enforced d none = false
is_enforced d (some (arn, mode)) = arn ≟ d.policy_engine_arn && mode ≟ "ENFORCE"

abbrev pub is_denial : Option CallError → Bool
is_denial none = false
is_denial (some e) = e.is_denial_code && is_part "Tool Execution Denied" e.message

abbrev pub has_error : Option CallError → Bool
has_error none = false
has_error (some e) = true

abbrev pub target_result : Deployment → Option String × Option String → Outcome Audit
target_result d (scope_hash, none) = raised (runtime_error "unexpected SG target result")
target_result d (scope_hash, some result) =
    if not (is_text d.scope_hash scope_hash)
      || not (result ≟ "SSH_REVOKED" || result ≟ "ALREADY_COMPLIANT")
    then raised (runtime_error "unexpected SG target result")
    else ok (record { target_result = result })

-- A counter that goes up.

abbrev add_call : Metrics → Metrics
add_call m = record m { api_calls = m.api_calls + 1 }

abbrev add_error : Metrics → Metrics
add_error m = record m { api_errors = m.api_errors + 1 }

abbrev add_gateway : Metrics → Metrics
add_gateway m = record m { gateway_calls = m.gateway_calls + 1 }

abbrev pub add_denial : Metrics → Metrics
add_denial m = record m { policy_denied = m.policy_denied + 1 }

abbrev add_success : Metrics → Metrics
add_success m = record m { target_success = m.target_success + 1 }

module _ {W : Type 0} (C : Cloud W) (m : Manifest) where
  abbrev pub M : Type 0 → Type 0
  M A = Exec (State W) A

  -- `_call`
  unfoldable pub call_api : {A : Type 0} → (W → Outcome A × W) → M A
  call_api f s = settle (f s.world)
    where
      settle : {A : Type 0} → Outcome A × W → Outcome A × State W
      settle (ok a, w) = (ok a, record s { metrics = add_call s.metrics; world = w })
      settle (raised e, w) = (
        raised (runtime_error "provider read failed"),
        record s { metrics = add_error (add_call s.metrics); world = w },
      )

  -- `_control`, of the control plane
  unfoldable pub control_read : {A : Type 0} → (W → Outcome A × W) → M A
  control_read f s = let (r, w) = f s.world in (r, record s { world = w })

  -- `verify_identity`
  unfoldable pub verify_identity : M (Unit {0})
  verify_identity = do
    account ← call_api C.identity
    raise_if (not (is_text m.account account)) (permission_error "wrong live identity")

  -- `guard`
  unfoldable pub guard : String → M (Unit {0})
  guard id = do
    expected ← lift (entry_of m id)
    verify_identity
    groups ← call_api (C.groups id)
    group ← lift (the_group groups)
    raise_if (not (is_text m.vpc_id group.vpc_id) || not (is_text expected.name group.group_name))
        (permission_error "SG identity differs")
    raise_if (not (is_owned m group.tags)) (permission_error "SG ownership tags differ")
    attached ← call_api (C.interfaces id)
    raise_if (has_items attached.items || attached.has_more)
        (permission_error "demo SG is attached; no mutation allowed")

  -- `_rules`
  unfoldable pub ingress_rules : String → M (List Rule)
  ingress_rules id = do
    value ← call_api (C.rules id)
    raise_if value.has_more (permission_error "unexpected SG rule pagination")
    pure (keep (λ (r : Rule). not r.is_egress) value.items)

  -- `read`, as whether SSH is unrestricted; a rule that equals an exact one is exact
  unfoldable pub read : String → M Bool
  read id = do
    guard id
    rules ← ingress_rules id
    raise_if (ltb 1 (length (keep is_exact rules)) || any (λ r. not (is_exact r)) rules)
        (permission_error "unexpected ingress on demo SG")
    pure (has_items (keep is_exact rules))

  module _ (d : Deployment) where
    -- `authorize`
    unfoldable pub authorize : String → M (Unit {0})
    authorize batch_id = do
      verify_identity
      gateway ← control_read C.gateway
      raise_if
          (not (is_text "READY" gateway.status)
            || not (is_text "AWS_IAM" gateway.authorizer_type)
            || not (is_text d.gateway_url gateway.gateway_url)
            || not (is_enforced d gateway.policy_engine))
          (permission_error "SG Gateway enforcement prerequisites differ")
      policy ← control_read C.policy
      raise_if
          (not (is_text "ACTIVE" policy.status)
            || not (is_text d.definition policy.definition)
            || not (mode_of policy.enforcement_mode ≟ "ACTIVE"))
          (permission_error "SG Policy prerequisites differ")
      policies ← control_read C.policies
      raise_if (policies.has_more || not (same_texts policies.items (d.policy_id ∷ [])))
          (permission_error "unexpected additional SG Policy scope")
      modify (λ s. record s { batch_id = some batch_id })

    -- The call of the Gateway's tool, which is counted before it is made.
    unfoldable pub ask_gateway : Call → M Answer
    ask_gateway c s =
        let (r, w) = C.call_tool c s.world in
        (r, record s { metrics = add_gateway s.metrics; world = w; calls = s.calls ++ (c ∷ []) })

    -- `raise PolicyDenied`, which is counted
    abbrev pub refuse_denied : Bool → M (Unit {0})
    refuse_denied denied = do
      modify (λ s. if denied then record s { metrics = add_denial s.metrics } else s)
      raise_if denied (policy_error "independent Gateway Policy DENY")

    -- `invoke`, from the Gateway's answer on
    unfoldable pub conclude : Answer → M Audit
    conclude answer = do
      refuse_denied (is_denial answer.error)
      raise_if (has_error answer.error || answer.is_error) (runtime_error "SG Gateway/target error")
      value ← lift answer.value
      audit ← lift (target_result d value)
      modify (λ s. record s { metrics = add_success s.metrics })
      pure audit

    abbrev pub call_of : String → String → String → Call
    call_of id environment batch_id = record {
      resource_index = place_of id m.security_groups;
      batch_id = batch_id;
      environment = environment;
    }

    -- `invoke`
    unfoldable pub invoke : String → String → M Audit
    invoke id environment = do
      current ← gets (λ s. s.batch_id)
      batch_id ← lift (approved_batch (any (is_entry id) m.security_groups) current)
      answer ← ask_gateway (call_of id environment batch_id)
      conclude answer

    -- `apply` of `GovernedSGProvider`; `before` is whether SSH is unrestricted
    unfoldable pub apply : String → Bool → M Audit
    apply id before = do
      raise_if (not before) (permission_error "unexpected approved SG precondition")
      invoke id "dev"

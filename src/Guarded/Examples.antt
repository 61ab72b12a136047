-- ===== src/Guarded/Examples.antt =====
-- pilot_v1/sg_compliance.py: a manifest of two groups, and the theorems at it.
use aws_secops.Prelude.{Bool, [], false, none, refl, some, true, ◌∷◌, ◌≡◌}
use aws_secops.Effects.{ok, raised, permission_error, ◌>>=◌}
use aws_secops.Guarded.Types.{Cloud, Deployment, Group, Manifest, Rule, State}
use aws_secops.Guarded.Provider.{
  apply, authorize, call_api, ask_gateway, conclude, control_read, guard, ingress_rules, invoke,
  read, verify_identity,
}
use aws_secops.Guarded.Reads.{IsGuarded, read-IsGuarded}
use aws_secops.Guarded.Calls.{CallsOnce, apply-CallsOnce}

abbrev manifest : Manifest
manifest = record {
  version = 1;
  profile = "vagent";
  region = "ap-southeast-1";
  account = "111111111111";
  run = "0123456789abcdef";
  vpc_id = "vpc-1";
  security_groups =
      record { group_id = "sg-1"; name = "first" }
      ∷ record { group_id = "sg-2"; name = "second" }
      ∷ [];
}

abbrev deployment : Deployment
deployment = record {
  scope_hash = "scope";
  account = "111111111111";
  gateway_url = "https://gateway";
  policy_engine_arn = "arn";
  policy_id = "policy";
  definition = "permit";
}

abbrev group : Group
group = record {
  vpc_id = some "vpc-1";
  group_name = some "second";
  tags =
      ("project", "aws-secops")
      ∷ ("owner", "amit")
      ∷ ("phase", "bulk-ssh")
      ∷ ("run", "0123456789abcdef")
      ∷ [];
}

abbrev rule : Bool → Rule
rule is_egress = record {
  is_egress = is_egress;
  protocol = some "tcp";
  from_port = some 22;
  to_port = some 22;
  cidr_ipv4 = some "0.0.0.0/0";
  has_ipv6 = false;
}

-- The second group has one rule for each direction; the tool revokes it.
abbrev cloud : Cloud (Unit {0})
cloud = record {
  identity = λ w. (ok (some "111111111111"), w);
  groups = λ id w. (ok (group ∷ []), w);
  interfaces = λ id w. (ok (record { items = []; has_more = false }), w);
  rules = λ id w. (ok (record { items = rule true ∷ rule false ∷ []; has_more = false }), w);
  gateway = λ w. (
    ok (record {
      status = some "READY";
      authorizer_type = some "AWS_IAM";
      gateway_url = some "https://gateway";
      policy_engine = some ("arn", "ENFORCE");
    }),
    w,
  );
  policy = λ w. (
    ok (record { status = some "ACTIVE"; definition = some "permit"; enforcement_mode = none }),
    w,
  );
  policies = λ w. (ok (record { items = "policy" ∷ []; has_more = false }), w);
  call_tool = λ c w. (
    ok (record { error = none; is_error = false; value = ok (some "scope", some "SSH_REVOKED") }),
    w,
  );
}

abbrev first : State (Unit {0})
first = record {
  metrics = record {
    api_calls = 0;
    api_errors = 0;
    gateway_calls = 0;
    policy_denied = 0;
    target_success = 0;
  };
  batch_id = none;
  world = tt;
  calls = [];
}

abbrev authorized : State (Unit {0})
authorized = (authorize cloud manifest deployment "batch" first).1

abbrev applied : State (Unit {0})
applied = (apply cloud manifest deployment "sg-2" true authorized).1

-- Opening this opens the code of the providers.
code : Unit {0}
unfolding apply authorize call_api ask_gateway conclude control_read guard ingress_rules invoke read
    verify_identity ◌>>=◌
code = tt

applied_calls :
    applied.calls ≡ record { resource_index = 1; batch_id = "batch"; environment = "dev" } ∷ []
unfolding code
applied_calls = refl

applied_success : applied.metrics.target_success ≡ 1
unfolding code
applied_success = refl

too_early :
    (apply cloud manifest deployment "sg-2" true first).0
    ≡ raised (permission_error "no exact approved SG execution context")
unfolding code
too_early = refl

read_lem : read cloud manifest "sg-2" first ≡ (ok true, (read cloud manifest "sg-2" first).1)
unfolding code
read_lem = refl

read-IsGuarded_example : IsGuarded cloud manifest "sg-2" true
read-IsGuarded_example =
    read-IsGuarded cloud manifest "sg-2" true first (read cloud manifest "sg-2" first).1 read_lem

apply-CallsOnce_example : CallsOnce cloud manifest deployment "sg-2" true authorized applied
apply-CallsOnce_example = apply-CallsOnce cloud manifest deployment "sg-2" true authorized

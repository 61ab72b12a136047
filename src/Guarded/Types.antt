-- ===== src/Guarded/Types.antt =====
-- pilot_v1/sg_compliance.py: the manifest, the deployment, what AWS answers, and the providers' state.
use aws_secops.Prelude.{Bool, List, Option, String, ℕ}
use aws_secops.Effects.{Outcome}

pub record Entry : Type 0 where
  pub group_id : String
  pub name : String

pub record Manifest : Type 0 where
  pub version : ℕ
  pub profile : String
  pub region : String
  pub account : String
  pub run : String
  pub vpc_id : String
  pub security_groups : List Entry

pub record Deployment : Type 0 where
  pub scope_hash : String
  pub account : String
  pub gateway_url : String
  pub policy_engine_arn : String
  pub policy_id : String
  pub definition : String

-- One of `SecurityGroupRules`; a port that is no number is none.
pub record Rule : Type 0 where
  pub is_egress : Bool
  pub protocol : Option String
  pub from_port : Option ℕ
  pub to_port : Option ℕ
  pub cidr_ipv4 : Option String
  -- `CidrIpv6` is there and is not empty
  pub has_ipv6 : Bool

pub record Group : Type 0 where
  pub vpc_id : Option String
  pub group_name : Option String
  pub tags : List (String × String)

-- A list of an answer, and whether it has a `NextToken`.
pub record Listed (A : Type 0) : Type 0 where
  pub items : List A
  pub has_more : Bool

pub record Gateway : Type 0 where
  pub status : Option String
  pub authorizer_type : Option String
  pub gateway_url : Option String
  -- the ARN and the mode, where the configuration has these two alone
  pub policy_engine : Option (String × String)

pub record Policy : Type 0 where
  pub status : Option String
  pub definition : Option String
  -- none where it is missing
  pub enforcement_mode : Option String

-- `tools/call` of the Gateway: the place of the resource in the manifest, the batch, the environment.
pub record Call : Type 0 where
  pub resource_index : ℕ
  pub batch_id : String
  pub environment : String

pub record CallError : Type 0 where
  -- `error.get("code") == -32002`
  pub is_denial_code : Bool
  pub message : String

pub record Answer : Type 0 where
  -- none where it is missing or empty
  pub error : Option CallError
  pub is_error : Bool
  -- the `scope_hash` and the `result` of the text, which json.loads may refuse
  pub value : Outcome (Option String × Option String)

-- The calls of the clients, each of which may raise, over a world that they may change.
pub record Cloud (W : Type 0) : Type 0 where
  pub identity : W → Outcome (Option String) × W
  pub groups : String → W → Outcome (List Group) × W
  pub interfaces : String → W → Outcome (Listed String) × W
  pub rules : String → W → Outcome (Listed Rule) × W
  pub gateway : W → Outcome Gateway × W
  pub policy : W → Outcome Policy × W
  pub policies : W → Outcome (Listed String) × W
  pub call_tool : Call → W → Outcome Answer × W

pub record Metrics : Type 0 where
  pub api_calls : ℕ
  pub api_errors : ℕ
  pub gateway_calls : ℕ
  pub policy_denied : ℕ
  pub target_success : ℕ

-- `self.metrics`, `self.batch_id` and the world; the log of the calls of the Gateway's tool is an
-- addition that no method reads.
pub record State (W : Type 0) : Type 0 where
  pub metrics : Metrics
  pub batch_id : Option String
  pub world : W
  pub calls : List Call

-- What `apply` returns.
pub record Audit : Type 0 where
  pub target_result : String

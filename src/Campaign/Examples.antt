-- ===== src/Campaign/Examples.antt =====
-- pilot_v1/multi_account_campaign.py: four targets, a batch of two, and the theorems at them.
use aws_secops.Prelude.{
  All, Bool, List, String, [], distinct, keep, map, none, refl, some, true, ◌∷◌, ◌≡◌, ◌⧺◌, ◌↔◌, ◌≤◌,
  length,
}
use aws_secops.Effects.{ok, raised, value_error}
use aws_secops.Campaign.Types.{Library, Target, aliases}
use aws_secops.Campaign.Contracts.{
  batch_id, has_unrestricted_ssh, make_target, normalize_config_state, normalize_selected_aliases,
  parse_targets, public_timeline,
}
use aws_secops.Campaign.Selected.{normalize_selected_aliases-Chooses}
use aws_secops.Campaign.Exact.{IsExact, IsTarget, batch_id-Binds, parse_targets-AreExact}

abbrev target : String → String → Target
target alias account = record {
  alias = alias;
  account_id = account;
  role_arn = "arn:aws:iam::" ⧺ account ⧺ ":role/ChatGPTCrossAccountReadRole";
}

abbrev targets : List Target
targets =
    target "lab-dev" "111111111111"
    ∷ target "lab-poc" "222222222222"
    ∷ target "lab-qa" "333333333333"
    ∷ target "lab-sec" "444444444444"
    ∷ []

abbrev L : Library
L = record {
  loads = λ raw. some (some (map (λ t. some t) targets));
  is_account = λ s. true;
  digest = λ b. b.control;
}

-- Opening this opens the code of the campaign.
code : Unit {0}
unfolding batch_id make_target normalize_selected_aliases normalize_config_state parse_targets
    public_timeline has_unrestricted_ssh
code = tt

parsed : parse_targets L "" ≡ ok targets
unfolding code
parsed = refl

parse_targets-AreExact_example :
    (map (λ (t : Target). t.alias) targets ≡ aliases)
    × (distinct (map (λ (t : Target). t.account_id) targets) ≡ true)
    × All (IsTarget L) targets
parse_targets-AreExact_example = parse_targets-AreExact L "" targets parsed

abbrev two : List String
two = "lab-poc" ∷ "lab-sec" ∷ []

normalize_selected_aliases-Chooses_example :
    (normalize_selected_aliases (some two) ≡ ok two)
    ↔ ((two ≡ two) × (1 ≤ length two) × ((p : String → Bool) × (two ≡ keep p aliases)))
normalize_selected_aliases-Chooses_example = normalize_selected_aliases-Chooses two two

swapped :
    normalize_selected_aliases (some ("lab-sec" ∷ "lab-poc" ∷ []))
    ≡ raised (value_error "selected accounts must use canonical approved alias order")
unfolding code
swapped = refl

open_to_all :
    has_unrestricted_ssh (
      record {
        protocol = some "tcp";
        from_port = some 22;
        to_port = some 22;
        ranges = some "10.0.0.0/8" ∷ some "0.0.0.0/0" ∷ [];
      }
      ∷ [])
    ≡ true
unfolding code
open_to_all = refl

abbrev ssh : String
ssh = "restricted-ssh"

abbrev entries : List (String × String)
entries = map (λ name. (name, "0123456789ab")) aliases

abbrev passed : List String
passed = "lab-qa" ∷ []

by_default : batch_id L ssh entries passed none ≡ ok ssh
unfolding code
by_default = refl

by_name : batch_id L ssh entries passed (some aliases) ≡ ok ssh
unfolding code
by_name = refl

-- The four aliases by default and by name are one batch.
batch_id-Binds_example :
    IsExact ssh entries passed aliases
    × (ssh ≡ ssh)
    × (entries ≡ entries)
    × (passed ≡ passed)
    × (aliases ≡ aliases)
batch_id-Binds_example =
    batch_id-Binds L ssh ssh entries entries passed passed none (some aliases) ssh (λ e. refl)
      by_default by_name

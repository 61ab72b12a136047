-- ===== src/Campaign/Contracts.antt =====
-- pilot_v1/multi_account_campaign.py: its functions.
use aws_secops.Pilot.Preview.{key}
use aws_secops.Prelude.{
  Bool, List, Option, String, [], all, any, contains, distinct, false, if◌then◌else◌, is_hex_span,
  keep, length, ltb, map, none, not, same_texts, some, ℕ, ◌&&◌, ◌==◌, ◌||◌, ◌∷◌, ◌≟◌, ◌⧺◌,
}
use aws_secops.Effects.Outcomes.{◌>>=◌, ◌>>◌, refuse, traverse}
use aws_secops.Effects.{Outcome, ok, raised, value_error}
use aws_secops.Campaign.Types.{
  Library, Permission, PublicAccessBlock, Result, Target, aliases, config_states, controls,
}

-- The rows that are made targets.
abbrev pub exact_rows : List (Option Target) → List Target
exact_rows [] = []
exact_rows (none ∷ rows) = exact_rows rows
exact_rows (some t ∷ rows) = t ∷ exact_rows rows

abbrev is_true : Option Bool → Bool
is_true none = false
is_true (some b) = b

-- `s3_bpa_compliant`; none where the value is no dict
unfoldable pub s3_bpa_compliant : Option PublicAccessBlock → Bool
s3_bpa_compliant none = false
s3_bpa_compliant (some v) =
    is_true v.block_public_acls
    && is_true v.ignore_public_acls
    && is_true v.block_public_policy
    && is_true v.restrict_public_buckets

abbrev is_text : String → Option String → Bool
is_text s none = false
is_text s (some t) = t ≟ s

abbrev is_number : ℕ → Option ℕ → Bool
is_number n none = false
is_number n (some m) = m == n

-- `has_unrestricted_ssh`
unfoldable pub has_unrestricted_ssh : List Permission → Bool
has_unrestricted_ssh ps =
    any
      (λ (p : Permission).
        is_text "tcp" p.protocol
        && is_number 22 p.from_port
        && is_number 22 p.to_port
        && any (is_text "0.0.0.0/0") p.ranges)
      ps

-- `normalize_config_state`
unfoldable pub normalize_config_state : Option String → Bool → Outcome String
normalize_config_state none provider_compliant = ok "UNAVAILABLE"
normalize_config_state (some state) provider_compliant = do
  refuse (not (contains state config_states)) (value_error "unexpected AWS Config state")
  ok (if provider_compliant && state ≟ "NON_COMPLIANT" then "PENDING" else state)

abbrev pub chosen : Option (List String) → List String
chosen none = aliases
chosen (some values) = values

-- `normalize_selected_aliases`
unfoldable pub normalize_selected_aliases : Option (List String) → Outcome (List String)
normalize_selected_aliases values = do
  refuse
      (ltb (length (chosen values)) 1
        || ltb (length aliases) (length (chosen values))
        || not (distinct (chosen values)))
      (value_error "selected accounts must be 1-4 unique approved aliases")
  refuse (not (same_texts (keep (λ a. contains a (chosen values)) aliases) (chosen values)))
      (value_error "selected accounts must use canonical approved alias order")
  ok (keep (λ a. contains a (chosen values)) aliases)

-- `public_timeline`, as the stages and their statuses
unfoldable pub public_timeline :
    String → Option String → Bool → Bool → Bool → Outcome (List (String × String))
public_timeline control config_state approved provider_verified changed = do
  refuse (not (contains control controls)) (value_error "unsupported Issue #82 control")
  normalized ← normalize_config_state config_state provider_verified
  ok (
      ("Finding", normalized)
      ∷ ("Investigation", "BOUNDED")
      ∷ ("Recommendation", if not provider_verified then "REMEDIATE" else "NO_CHANGE")
      ∷ ("Human Decision", if approved then "APPROVED" else "REJECTED")
      ∷ ("Exact Tool", if approved && changed then "CALLED" else "NOT_CALLED")
      ∷ ("Provider Readback", if provider_verified then "VERIFIED" else "UNVERIFIED")
      ∷ ("Config Result", normalized)
      ∷ [])

-- `config_states[name]`, where the name has been found to be there
abbrev look_up : String → List (String × String) → Outcome (String × String)
look_up name [] = raised (value_error "KeyError")
look_up name ((key, state) ∷ rest) = if key ≟ name then ok (name, state) else look_up name rest

-- `set(xs) == set(ys)`
abbrev same_sets : List String → List String → Bool
same_sets xs ys = all (λ x. contains x ys) xs && all (λ y. contains y xs) ys

-- `public_result`; a count below 0 is not of the model's type
unfoldable pub public_result :
    String → String → List String → String → ℕ → Bool → List (String × String) → Outcome Result
public_result control batch chosen_aliases decision mutation_count provider_verified states = do
  selected ← normalize_selected_aliases (some chosen_aliases)
  refuse (not (same_texts chosen_aliases selected))
      (value_error "Issue #82 public result aliases must be selected approved aliases")
  refuse
      (not
        (contains decision ("PLAN" ∷ "PREPARE" ∷ "REJECT" ∷ "APPROVE" ∷ "ALREADY_COMPLIANT" ∷ [])))
      (value_error "invalid Issue #82 decision")
  refuse (ltb (length chosen_aliases) mutation_count)
      (value_error "invalid Issue #82 mutation count")
  refuse (not (same_sets (map (λ (e : String × String). e.0) states) chosen_aliases))
      (value_error "Issue #82 Config evidence must cover selected aliases")
  config ← traverse (λ name. look_up name states) chosen_aliases
  ok (record {
    control = control;
    batch_id = batch;
    aliases = chosen_aliases;
    decision = decision;
    mutation_count = mutation_count;
    provider_verified = provider_verified;
    config = config;
  })

module _ (L : Library) where
  -- `CampaignTarget.__post_init__`
  unfoldable pub make_target : Target → Outcome Target
  make_target t = do
    refuse (not (contains t.alias aliases)) (value_error "Issue #82 target alias is not approved")
    refuse (not (L.is_account t.account_id)) (value_error "Issue #82 target account id is invalid")
    refuse
        (not (t.role_arn ≟ ("arn:aws:iam::" ⧺ t.account_id ⧺ ":role/ChatGPTCrossAccountReadRole")))
        (value_error "Issue #82 target role ARN is not exact")
    ok t

  abbrev pub loaded : Option (Option (List (Option Target))) → Outcome (List (Option Target))
  loaded none = raised (value_error "Issue #82 target configuration is invalid JSON")
  loaded (some none) = raised (value_error "Issue #82 requires exactly four target accounts")
  loaded (some (some rows)) =
      if not (length rows == 4)
      then raised (value_error "Issue #82 requires exactly four target accounts")
      else ok rows

  -- `parse_targets`
  unfoldable pub parse_targets : String → Outcome (List Target)
  parse_targets raw = do
    rows ← loaded (L.loads raw)
    targets ← traverse make_target (exact_rows rows)
    refuse
        (not (length targets == 4)
          || not (same_texts (map (λ (t : Target). t.alias) targets) aliases))
        (value_error "Issue #82 target order must be lab-dev, lab-poc, lab-qa, lab-sec")
    refuse (not (distinct (map (λ (t : Target). t.account_id) targets)))
        (value_error "Issue #82 target accounts must be distinct")
    ok targets

  -- `batch_id`
  unfoldable pub batch_id :
      String → List (String × String) → List String → Option (List String) → Outcome String
  batch_id control entries passed_over values = do
    refuse (not (contains control controls)) (value_error "unsupported Issue #82 control")
    selected ← normalize_selected_aliases values
    refuse (not (same_texts (map (λ (e : String × String). e.0) entries) selected))
        (value_error "Issue #82 frozen batch must contain selected aliases in canonical order")
    refuse (any (λ (e : String × String). not (is_hex_span 12 64 e.1)) entries)
        (value_error "Issue #82 resource reference must be a hash")
    refuse (not (same_texts passed_over (keep (λ a. contains a passed_over) selected)))
        (value_error "Issue #82 exclusions must be unique selected aliases in canonical order")
    ok (
        L.digest (record {
          control = control;
          targets = entries;
          selected_aliases = selected;
          excluded_aliases = passed_over;
        }))

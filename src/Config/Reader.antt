-- ===== src/Config/Reader.antt =====
-- pilot_v1/sg_compliance.py: `_iso` and the methods of `ConfigComplianceReader`.
use aws_secops.Scaled.Selecting.{wanted}
use aws_secops.Prelude.{
  Bool, List, Option, String, [], any, contains, drop, false, if◌then◌else◌, keep, leb_text, length,
  ltb, map, min, none, not, some, suc, take, tally, true, zero, ℕ, ◌&&◌, ◌++◌, ◌-◌, ◌==◌, ◌||◌, ◌∷◌,
  ◌≟◌,
}
use Prim.Native.String.{count as count_chars}
use aws_secops.Effects.Outcomes.{refuse, traverse}
use aws_secops.Effects.Outcomes as Pure
use aws_secops.Effects.{
  ◌>>=◌, ◌>>◌, Exec, Outcome, lift, ok, pure, raise, raise_if, raised, value_error, runtime_error,
}
use aws_secops.Config.Types.{
  Client, Evaluation, Finding, Moment, Recorder, Request, Response, Token, config_rules,
  config_statuses, datetime, expected_type, family_of, max_config_pages, max_config_results,
  no_token, other, other_token, resource_type_of, text, timestamp, token,
}

abbrev pub is_text : String → Option String → Bool
is_text wanted none = false
is_text wanted (some s) = s ≟ wanted

abbrev pub is_ready : Recorder → Bool
is_ready r = r.recording && is_text "SUCCESS" r.last_status

-- The rules that have the name are this one rule.
abbrev pub is_only : String → List (Option String) → Bool
is_only control (name ∷ []) = is_text control name
is_only control _ = false

-- `status not in CONFIG_STATUSES`, and else the status
abbrev pub status_of : Option String → Outcome String
status_of none = raised (runtime_error "unexpected Config evaluation")
status_of (some s) =
    if contains s config_statuses
    then ok s
    else raised (runtime_error "unexpected Config evaluation")

abbrev pub identity_of : Option String → Outcome String
identity_of none = raised (runtime_error "invalid Config resource identity")
identity_of (some s) =
    if ltb (count_chars s) 1 || ltb 256 (count_chars s)
    then raised (runtime_error "invalid Config resource identity")
    else ok s

abbrev pub bounded_results : {A : Type 0} → ℕ → Option (List A) → Outcome (List A)
bounded_results limit none = raised (runtime_error "Config result exceeds bounded contract")
bounded_results limit (some raw) =
    if ltb limit (length raw)
    then raised (runtime_error "Config result exceeds bounded contract")
    else ok raw

pub record ControlSummary : Type 0 where
  pub control : String
  pub resource_type : String
  pub counts : List (String × ℕ)
  pub total_observed : ℕ
  pub partial : Bool
  pub latest_observed_at : Option String

pub record Findings : Type 0 where
  pub total : ℕ
  pub offset : ℕ
  pub partial : Bool
  pub items : List Finding

abbrev later_of : String → Option String → String
later_of s none = s
later_of s (some t) = if leb_text t s then s else t

-- `max(..., default=None)`
abbrev pub latest : List String → Option String
latest [] = none
latest (s ∷ ss) = some (later_of s (latest ss))

-- The client's world, and the pages that were asked for: a log that no method reads.
pub record Session (W : Type 0) : Type 0 where
  pub world : W
  pub requests : List Request

module _ {W T : Type 0} (C : Client W T) where
  abbrev pub M : Type 0 → Type 0
  M A = Exec (Session W) A

  abbrev pub in_zone : T → Outcome String
  in_zone t =
      if C.has_zone t
      then ok (C.shown t)
      else raised (value_error "observation time must be timezone-aware")

  -- `_iso`
  unfoldable pub iso : Moment T → Outcome String
  iso (datetime t) = in_zone t
  iso (timestamp t) = in_zone t
  iso (text s) = Pure.◌>>=◌ (C.from_iso (C.replace_zone s)) in_zone
  iso other = raised (value_error "invalid observation time")

  -- The loop's body for one item.
  unfoldable pub finding_of : String → String → Evaluation T → Outcome Finding
  finding_of control type e = Pure.◌>>=◌ (status_of e.compliance_type) λ status.
      Pure.◌>>◌
        (refuse (not (is_text control e.rule_name) || not (is_text type e.resource_type))
          (runtime_error "unexpected Config evaluation"))
        (Pure.◌>>=◌ (identity_of e.resource_id) λ resource_id.
          Pure.◌>>=◌ (iso e.recorded) λ observed_at. ok (record {
            finding_id = C.digest control (resource_type_of type) resource_id;
            control = control;
            resource_type = resource_type_of type;
            resource_id = resource_id;
            status = status;
            remediation_family = family_of (resource_type_of type);
            observed_at = observed_at;
          }))

  -- `get_compliance_details_by_config_rule(**kwargs)`
  unfoldable pub details : Request → M (Response T)
  details q s =
      let (r, w) = C.details q s.world in
      (r, record { world = w; requests = s.requests ++ (q ∷ []) })

  -- `_recorder_ready`
  unfoldable pub recorder_ready : M Bool
  recorder_ready s =
      let (r, w) = C.recorders s.world in
      (Pure.◌>>=◌ r λ recorders. ok (any is_ready recorders), record s { world = w })

  unfoldable pub rule_names : String → M (List (Option String))
  rule_names control s = let (r, w) = C.rule_names control s.world in (r, record s { world = w })

  abbrev pub page_limit : List Finding → ℕ
  page_limit out = min 100 (max_config_results - length out)

  -- What follows a page: the end, or `more` with the next token.
  unfoldable pub after_page :
      Token
      → List String
      → List Finding
      → (String → M (List Finding × Bool))
      → M (List Finding × Bool)
  after_page no_token seen out more = pure (out, false)
  after_page other_token seen out more =
      raise (runtime_error "invalid or repeated Config pagination token")
  after_page (token t) seen out more =
      if t ≟ ""
      then pure (out, false)
      else if contains t seen
      then raise (runtime_error "invalid or repeated Config pagination token")
      else if length out == max_config_results
      then pure (out, true)
      else more t

  -- `for _page in range(...)`
  unfoldable pub pages :
      String → String → ℕ → List String → Option String → List Finding → M (List Finding × Bool)
  pages control type zero seen next out = pure (out, true)
  pages control type (suc n) seen next out = do
    r ← details (record { rule = control; limit = page_limit out; next_token = next })
    raw ← lift (bounded_results (page_limit out) r.results)
    found ← lift (traverse (finding_of control type) raw)
    after_page r.next seen (out ++ found)
        λ t. pages control type n (t ∷ seen) (some t) (out ++ found)

  abbrev pub known_type : Option String → Outcome String
  known_type none = raised (value_error "unsupported Config control")
  known_type (some type) = ok type

  -- `_results`
  unfoldable pub results : String → M (List Finding × Bool)
  results control = do
    type ← lift (known_type (expected_type control))
    ready ← recorder_ready
    raise_if (not ready) (runtime_error "AWS Config recorder is not active and successful")
    names ← rule_names control
    raise_if (not (is_only control names)) (runtime_error "required Config rule unavailable")
    pages control type max_config_pages [] none []

  abbrev pub control_summary : String × String → List Finding → Bool → ControlSummary
  control_summary (control, type) rows partial = record {
    control = control;
    resource_type = resource_type_of type;
    counts = tally (map (λ (f : Finding). f.status) rows);
    total_observed = length rows;
    partial = partial;
    latest_observed_at = latest (map (λ (f : Finding). f.observed_at) rows);
  }

  unfoldable pub summaries : List (String × String) → M (List ControlSummary)
  summaries [] = pure []
  summaries (rule ∷ rules) = do
    found ← results rule.0
    rest ← summaries rules
    pure (control_summary rule found.0 found.1 ∷ rest)

  -- `summary`
  abbrev pub summary : M (List ControlSummary)
  summary = summaries config_rules

  -- `list_findings`; 0 and 51 stand for the limits below and above the bounds, 251 for such an offset
  unfoldable pub list_findings : String → String → ℕ → ℕ → M Findings
  list_findings control status limit offset = do
    raise_if
        (not (contains status config_statuses)
          || ltb limit 1
          || ltb 50 limit
          || ltb max_config_results offset)
        (value_error "invalid Config query")
    found ← results control
    let selected = keep (λ (f : Finding). f.status ≟ status) found.0 in
        pure (record {
          total = length selected;
          offset = offset;
          partial = found.1;
          items = take limit (drop offset selected);
        })

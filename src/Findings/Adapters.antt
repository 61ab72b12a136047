-- ===== src/Findings/Adapters.antt =====
-- pilot_v1/adapters.py, and `decode_records` of pilot_v1/findings.py.
use aws_secops.Prelude.{
  Bool, List, Option, String, [], contains, if◌then◌else◌, join_texts, keep, length, ltb, map, none,
  not, some, sort_texts, ℕ, ◌++◌, ◌||◌, ◌∷◌, ◌≟◌, ◌⧺◌,
}
use aws_secops.Effects.Outcomes.{◌>>=◌, ◌>>◌, refuse, traverse}
use aws_secops.Effects.{Outcome, ok, raised, value_error}
use aws_secops.Findings.Types.{Fields, Finding, Library, Value, text, other, get}
use aws_secops.Findings.Validate.{validate_finding}
use aws_secops.Findings.Normalize.{is_text}

-- CLOUDSCAPE_FIELDS
abbrev pub cloudscape_fields : List String
cloudscape_fields =
    "asset_type" ∷ "asset_id" ∷ "asset_name" ∷ "environment" ∷ "control_id" ∷ "risk" ∷ "compliance"
    ∷ "evidence" ∷ "recommended_action" ∷ "observed_at" ∷ []

-- VAPT_FIELDS
abbrev pub vapt_fields : List String
vapt_fields =
    "asset_id" ∷ "asset_name" ∷ "environment" ∷ "vulnerability_id" ∷ "severity" ∷ "status"
    ∷ "evidence" ∷ "recommended_action" ∷ "observed_at" ∷ []

abbrev names_of : Fields → List String
names_of record_fields = map (λ (f : String × Value). f.0) record_fields

-- A part of the message, if there are names.
abbrev detail : String → List String → List String
detail said [] = []
detail said names = (said ⧺ " " ⧺ join_texts ", " (sort_texts names)) ∷ []

abbrev refuse_details : String → List String → Outcome (Unit {0})
refuse_details source [] = ok tt
refuse_details source details =
    raised (value_error (source ⧺ " record fields are invalid: " ⧺ join_texts "; " details))

-- `_exact_fields`
unfoldable pub exact_fields : Fields → List String → String → Outcome (Unit {0})
exact_fields fields expected source =
    let missing = keep (λ name. not (contains name (names_of fields))) expected in
    let unknown = keep (λ name. not (contains name expected)) (names_of fields) in
    refuse_details source (detail "missing" missing ++ detail "unknown" unknown)

-- `{first: "COMPLIANT", second: "NON_COMPLIANT"}.get(word)`
abbrev pub status_for : String → String → String → String → Outcome String
status_for passed open_word message said =
    if said ≟ passed
    then ok "COMPLIANT"
    else if said ≟ open_word
    then ok "NON_COMPLIANT"
    else raised (value_error message)

-- What `decode_records` takes from outside, over a type of bytes: their number, the text in UTF-8,
-- the suffix of a file name in small letters, the list that a JSON text holds (itself, or as its
-- `findings`), and the rows of a CSV text. A value of a list that is no object is none.
pub record Files (C : Type 0) : Type 0 where
  pub size : C → ℕ
  pub utf8 : C → Option String
  pub suffix : String → String
  pub json_values : String → Option (List (Option Fields))
  pub csv_rows : String → List Fields

abbrev pub given : {A : Type 0} → String → Option A → Outcome A
given message none = raised (value_error message)
given message (some a) = ok a

-- `all(isinstance(value, dict) for value in raw)`
abbrev pub objects : List (Option Fields) → Outcome (List Fields)
objects [] = ok []
objects (none ∷ rest) = raised (value_error "each source record must be an object")
objects (some f ∷ rest) = objects rest >>= λ fs. ok (f ∷ fs)

module _ {C : Type 0} (F : Files C) where
  abbrev raw_records : String → String → Outcome (List (Option Fields))
  raw_records kind t =
      if kind ≟ ".json"
      then given "JSON finding import must contain a list" (F.json_values t)
      else if kind ≟ ".csv"
      then ok (map (λ (f : Fields). some f) (F.csv_rows t))
      else raised (value_error "finding import must be .json or .csv")

  -- `decode_records` with its default limit
  unfoldable pub decode_records : C → String → Outcome (List Fields)
  decode_records content filename = do
    refuse (ltb 256000 (F.size content)) (value_error "finding import exceeds 256 KB")
    t ← given "finding import must be UTF-8" (F.utf8 content)
    raw ← raw_records (F.suffix filename) t
    refuse (ltb (length raw) 1 || ltb 100 (length raw))
        (value_error "finding import must contain 1 to 100 records")
    objects raw

module _ (L : Library) where
  -- `str(value)`
  abbrev pub shown_text : Value → String
  shown_text (text s) = s
  shown_text (other b) = L.shown b

  abbrev pub cloudscape_finding : Fields → String → Fields
  cloudscape_finding r status =
      ("source", text "CloudSCAPE")
      ∷ ("resource_type", get "asset_type" r)
      ∷ ("resource_id", get "asset_id" r)
      ∷ ("resource_name", get "asset_name" r)
      ∷ ("environment", get "environment" r)
      ∷ ("control", get "control_id" r)
      ∷ ("severity", get "risk" r)
      ∷ ("status", text status)
      ∷ ("evidence", get "evidence" r)
      ∷ ("recommendation", get "recommended_action" r)
      ∷ ("observed_at", get "observed_at" r)
      ∷ []

  abbrev pub is_asset_type : Value → Bool
  is_asset_type v = is_text "SECURITY_GROUP" v || is_text "S3_BUCKET" v || is_text "EC2_INSTANCE" v

  -- `_cloudscape`
  unfoldable pub cloudscape : Fields → Outcome Finding
  cloudscape r = do
    exact_fields r cloudscape_fields "CloudSCAPE"
    status ←
        status_for "PASS" "FAIL" "CloudSCAPE compliance must be PASS or FAIL"
          (L.upper (shown_text (get "compliance" r)))
    refuse (not (is_asset_type (get "asset_type" r)))
        (value_error "CloudSCAPE asset_type is unsupported")
    validate_finding L (cloudscape_finding r status)

  abbrev pub vapt_finding : Fields → String → Fields
  vapt_finding r status =
      ("source", text "VAPT")
      ∷ ("resource_type", text "EC2_INSTANCE")
      ∷ ("resource_id", get "asset_id" r)
      ∷ ("resource_name", get "asset_name" r)
      ∷ ("environment", get "environment" r)
      ∷ ("control", get "vulnerability_id" r)
      ∷ ("severity", get "severity" r)
      ∷ ("status", text status)
      ∷ ("evidence", get "evidence" r)
      ∷ ("recommendation", get "recommended_action" r)
      ∷ ("observed_at", get "observed_at" r)
      ∷ []

  -- `_vapt`
  unfoldable pub vapt : Fields → Outcome Finding
  vapt r = do
    exact_fields r vapt_fields "VAPT"
    status ←
        status_for "CLOSED" "OPEN" "VAPT status must be OPEN or CLOSED"
          (L.upper (shown_text (get "status" r)))
    validate_finding L (vapt_finding r status)

  -- `ADAPTERS`
  abbrev pub adapter : String → Option (Fields → Outcome Finding)
  adapter source_format =
      if source_format ≟ "cloudscape"
      then some cloudscape
      else if source_format ≟ "vapt"
      then some vapt
      else none

  -- `adapt_source`
  unfoldable pub adapt_source :
      {C : Type 0} → Files C → C → String → String → Outcome (List Finding)
  adapt_source F content filename source_format = do
    adapt ← given "source format must be cloudscape or vapt" (adapter source_format)
    records ← decode_records F content filename
    traverse adapt records

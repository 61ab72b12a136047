-- ===== src/Findings/Queries.antt =====
-- pilot_v1/queries.py: the arguments and the pages of a list.
use aws_secops.Prelude.{
  Bool, List, Option, String, [], any, contains, drop, if◌then◌else◌, is_hex_text, keep, leb,
  length, ltb, map, none, not, some, take, ℕ, ◌&&◌, ◌+◌, ◌∷◌, ◌≟◌,
}
use aws_secops.Effects.Outcomes.{◌>>=◌, ◌>>◌, refuse}
use aws_secops.Effects.{Outcome, ok, raised, value_error}

-- A JSON value of a query: an integer, one below 0, a text, or any other value.
pub data Argument : Type 0 where
  integer : ℕ → Argument
  below_zero : ℕ → Argument
  word : String → Argument
  other_value : Argument

abbrev pub Arguments : Type 0
Arguments = List (String × Argument)

-- `arguments.get(name)`
abbrev pub argument : String → Arguments → Option Argument
argument name [] = none
argument name ((key, v) ∷ rest) = if key ≟ name then some v else argument name rest

-- FILTERS
abbrev pub filters : List (String × List String)
filters =
    ("source", "AWS EC2" ∷ "AWS S3" ∷ "AWS Config" ∷ "CloudSCAPE" ∷ "VAPT" ∷ [])
    ∷ ("severity", "CRITICAL" ∷ "HIGH" ∷ "MEDIUM" ∷ "LOW" ∷ "INFO" ∷ [])
    ∷ ("planning_status", "UNPLANNED" ∷ "PLANNED" ∷ [])
    ∷ []

-- `identity`; the pattern of `length` lower-case hexadecimal digits
unfoldable pub identity : String → ℕ → Outcome String
identity value length =
    if is_hex_text length value then ok value else raised (value_error "invalid server-owned ID")

-- `allowed`
abbrev pub allowed : Bool → List String
allowed findings =
    "limit" ∷ "offset" ∷ (if findings then map (λ (f : String × List String). f.0) filters else [])

-- `arguments.get(name, default)`, which has to be an integer; none is one below 0
abbrev pub number_of : Option Argument → ℕ → Outcome (Option ℕ)
number_of none default = ok (some default)
number_of (some (integer n)) default = ok (some n)
number_of (some (below_zero n)) default = ok none
number_of (some _) default = raised (value_error "pagination must be integer")

abbrev pub in_range : ℕ → ℕ → Option ℕ → Outcome ℕ
in_range low high none = raised (value_error "limit must be 1–20; offset 0–100")
in_range low high (some n) =
    if leb low n && leb n high
    then ok n
    else raised (value_error "limit must be 1–20; offset 0–100")

pub record Page {ℓ} (A : Type ℓ) : Type ℓ where
  pub items : List A
  pub total : ℕ
  pub limit : ℕ
  pub offset : ℕ
  pub next_offset : Option ℕ

module _ {A : Type 0} (field : String → A → String) where
  -- `[item for item in items if item[name] == arguments[name]]`, if the value is one of the filter's
  abbrev pub filter_by : String → List String → Option Argument → List A → Outcome (List A)
  filter_by name values none items = ok items
  filter_by name values (some (word v)) items =
      if contains v values
      then ok (keep (λ i. field name i ≟ v) items)
      else raised (value_error "unsupported filter value")
  filter_by name values (some _) items = raised (value_error "unsupported filter value")

  -- `for field in FILTERS`
  unfoldable pub filter_all : List (String × List String) → Arguments → List A → Outcome (List A)
  filter_all [] arguments items = ok items
  filter_all ((name, values) ∷ rest) arguments items = do
    chosen ← filter_by name values (argument name arguments) items
    filter_all rest arguments chosen

  -- The result of `page`.
  abbrev pub page_of : ℕ → ℕ → List A → Page A
  page_of limit offset items = record {
    items = take limit (drop offset items);
    total = length items;
    limit = limit;
    offset = offset;
    next_offset = if ltb (offset + limit) (length items) then some (offset + limit) else none;
  }

  -- `page`
  unfoldable pub page : List A → Arguments → Bool → Outcome (Page A)
  page items arguments findings = do
    refuse (any (λ (a : String × Argument). not (contains a.0 (allowed findings))) arguments)
        (value_error "unsupported query argument")
    given_limit ← number_of (argument "limit" arguments) 10
    given_offset ← number_of (argument "offset" arguments) 0
    limit ← in_range 1 20 given_limit
    offset ← in_range 0 100 given_offset
    chosen ← filter_all filters arguments items
    ok (page_of limit offset chosen)

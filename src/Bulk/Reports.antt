-- ===== src/Bulk/Reports.antt =====
-- pilot_v1/bulk.py: `summary`, `page` and `export`, which read the store and change nothing.
use aws_secops.Prelude.{
  ℕ, ◌+◌, String, Bool, true, not, ◌&&◌, ◌||◌, Option, none, some, List, [], ◌∷◌, map, length, take,
  drop, keep, find, count, leb, ◌≟◌, leb_text, if◌then◌else◌,
}
use aws_secops.Effects.{ok, value_error, pure, lift, raise_if, ◌>>=◌, ◌>>◌}
use aws_secops.Bulk.Types.{
  Bpa, State, completed, skipped, Decision, Resource, Item, Batch, Platform,
}
use aws_secops.Bulk.Validate.{validate}
use aws_secops.Bulk.Store.{M, has_state, require}

-- `Counter(i['state'] for i in items)`, at one state
abbrev pub counted : Batch → State → ℕ
counted d s = count (has_state s) d.items

abbrev pub Counts : Type 0
Counts = State → ℕ

abbrev is_verified : Item → Bool
is_verified i = has_state completed i || has_state skipped i

-- `max(times, default=None)`
abbrev later : Option String → Option String → Option String
later none t = t
later (some s) none = some s
later (some s) (some t) = if leb_text s t then some t else some s

abbrev last_verified : List Item → Option String
last_verified [] = none
last_verified (i ∷ is) =
    let rest = last_verified is in if is_verified i then later i.verified_at rest else rest

pub record Summary : Type 0 where
  pub batch_id : String
  pub approval_hash : String
  pub context : String
  pub total : ℕ
  pub decision : Decision
  pub counts : Counts
  pub verified : ℕ
  pub observed_at : String
  pub last_verification_time : Option String
  pub execution_active : Bool

module _ {W J : Type 0} (P : Platform W J) where
  unfoldable pub summary_of : Bool → Batch → Summary
  summary_of active d = record {
    batch_id = d.id;
    approval_hash = d.id;
    context = P.context;
    total = length d.items;
    decision = d.decision;
    counts = counted d;
    verified = counted d completed + counted d skipped;
    observed_at = d.created_at;
    last_verification_time = last_verified d.items;
    execution_active = active;
  }

  -- `none` is the answer where there is no batch.
  unfoldable pub summary : M P (Option Summary)
  summary s = elim s.current [
    | none ↦ (ok none, s)
    | some d ↦ (lift (validate P d) >> pure (some (summary_of s.worker_alive d))) s
  ]

-- An item of a page with the evidence that the manifest froze for it.
pub record Row : Type 0 where
  pub item : Item
  pub before : Option Bpa

pub record Page : Type 0 where
  pub total : ℕ
  pub offset : ℕ
  pub rows : List Row

abbrev pub named : String → Resource → Bool
named name r = r.name ≟ name

abbrev of_resource : Option Resource → Option Bpa
of_resource none = none
of_resource (some r) = some r.before

abbrev pub before_of : String → List Resource → Option Bpa
before_of name rs = of_resource (find (named name) rs)

abbrev pub matches : Option State → Item → Bool
matches none i = true
matches (some s) i = has_state s i

unfoldable pub page_of : Batch → ℕ → ℕ → Option State → Page
page_of d offset limit state =
    let items = keep (matches state) d.items in
    record {
      total = length items;
      offset = offset;
      rows =
          map (λ i. record { item = i; before = before_of i.resource d.manifest.resources })
            (take limit (drop offset items));
    }

module _ {W J : Type 0} (P : Platform W J) where
  -- A negative offset or limit is refused by the code; here both are naturals.
  unfoldable pub page : String → ℕ → ℕ → Option State → M P Page
  page batch_id offset limit state = do
    d ← require P batch_id
    raise_if (not (leb offset 1000) || not (leb 1 limit && leb limit 50))
        (value_error "pagination/filter bounds")
    pure (page_of d offset limit state)

  -- `export`: the cells of each CSV line after the header
  unfoldable pub export : String → M P (List (String × String × State × Option Bool × String))
  export batch_id = do
    d ← require P batch_id
    pure (map (λ (i : Item). (batch_id, i.resource, i.state, i.changed, i.message)) d.items)

-- ===== src/Config/Examples.antt =====
-- pilot_v1/sg_compliance.py: a service with three evaluations on two pages, and the theorems at it.
use aws_secops.Prelude.{
  All, Bool, List, Option, String, [], drop, false, length, map, none, refl, some, subst, sym, take,
  true, ℕ, ◌∷◌, ◌∙◌, ◌≡◌, ◌≤◌, ap, arith,
}
use Prim.Native.String.{count as count_chars}
use aws_secops.Effects.{Outcome, ok, raised, ◌>>=◌, value_error}
use aws_secops.Config.Types.{
  Client, Evaluation, Finding, Response, Token, datetime, expected_type, no_token, other_token,
  token,
}
use aws_secops.Config.Reader.{
  Findings, Session, after_page, details, finding_of, iso, list_findings, pages, recorder_ready,
  results, rule_names, summaries,
}
use aws_secops.Config.Returned.{IsEnd, no_more, empty_token}
use aws_secops.Config.Bounded.{IsObserved, results-AreBounded}
use aws_secops.Config.Requests.{Asks, results-Asks}
use aws_secops.Config.Complete.{AreOf, IsPage, Serves, results-AreOf, start}

abbrev evaluation : String → String → Evaluation String
evaluation id status = record {
  compliance_type = some status;
  rule_name = some "restricted-ssh";
  resource_type = some "AWS::EC2::SecurityGroup";
  resource_id = some id;
  recorded = datetime "2026-01-01";
}

abbrev evaluations : List (Evaluation String)
evaluations =
    evaluation "sg-1" "NON_COMPLIANT"
    ∷ evaluation "sg-2" "COMPLIANT"
    ∷ evaluation "sg-3" "NON_COMPLIANT"
    ∷ []

abbrev place : String → ℕ
place x = 2

abbrev answer : Option String → Response String
answer none = record { results = some (take 2 evaluations); next = token "more" }
answer (some x) = record { results = some (take 2 (drop 2 evaluations)); next = no_token }

abbrev client : Client (Unit {0}) String
client = record {
  recorders = λ w. (ok (record { recording = true; last_status = some "SUCCESS" } ∷ []), w);
  rule_names = λ control w. (ok (some control ∷ []), w);
  details = λ q w. (ok (answer q.next_token), w);
  digest = λ control type id. id;
  replace_zone = λ s. s;
  from_iso = λ s. ok s;
  has_zone = λ t. true;
  shown = λ t. t;
}

abbrev session : Session (Unit {0})
session = record { world = tt; requests = [] }

-- Opening this opens the code of the reader.
code : Unit {0}
unfolding results pages after_page details recorder_ready rule_names finding_of iso expected_type
    list_findings summaries ◌>>=◌
code = tt

abbrev found_in : Outcome (List Finding × Bool) → List Finding × Bool
found_in (ok p) = p
found_in (raised e) = ([], true)

abbrev found : List Finding
found = (found_in (results client "restricted-ssh" session).0).0

abbrev after : Session (Unit {0})
after = (results client "restricted-ssh" session).1

found_ids : map (λ (f : Finding). f.resource_id) found ≡ "sg-1" ∷ "sg-2" ∷ "sg-3" ∷ []
unfolding code
found_ids = refl

results_lem : results client "restricted-ssh" session ≡ (ok (found, false), after)
unfolding code
results_lem = refl

unlisted : (results client "s3" session).0 ≡ raised (value_error "unsupported Config control")
unfolding code
unlisted = refl

abbrev total_of : Outcome Findings → ℕ
total_of (ok f) = f.total
total_of (raised e) = 0

listed_total : total_of (list_findings client "restricted-ssh" "NON_COMPLIANT" 20 0 session).0 ≡ 2
unfolding code
listed_total = refl

not_last : (tok : Token) → IsEnd tok → ¬ (tok ≡ token "more")
not_last no_token no_more e = absurd (cc e)
not_last (token t) (empty_token _ is) e =
    let same : t ≡ "more" = cc e in
    let count : count_chars "more" ≡ 4 = refl in
    let empty : count_chars "more" ≡ 0 = ap count_chars (sym same ∙ is) in
    absurd (omega (arith, empty, count))
not_last other_token is e = absurd (cc e)

page_of : (next : Option String) → IsPage place evaluations (start place next) (answer next)
page_of none = record {
  size = 2;
  slice = refl;
  last = λ end. absurd (not_last (token "more") end refl);
  onward = λ x e. refl;
}
page_of (some x) = record {
  size = 2;
  slice = refl;
  last = λ end. refl;
  onward = λ y e. absurd (cc e);
}

served : Serves client "restricted-ssh" evaluations place
served limit next w r e =
    let same : answer next ≡ r = cc e in
    subst (IsPage place evaluations (start place next)) same (page_of next)

results-AreBounded_example : All (IsObserved "restricted-ssh") found × (length found ≤ 250)
results-AreBounded_example =
    results-AreBounded client "restricted-ssh" found false session after results_lem

results-Asks_example : Asks "restricted-ssh" 10 session after
results-Asks_example = results-Asks client "restricted-ssh" session

results-AreOf_example :
    (type : String) × (expected_type "restricted-ssh" ≡ some type)
    × AreOf (finding_of client "restricted-ssh" type) evaluations found false
results-AreOf_example =
    results-AreOf client "restricted-ssh" evaluations place served found false session after
      results_lem

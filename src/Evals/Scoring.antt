-- ===== src/Evals/Scoring.antt =====
-- backend/app/workflows/eval_scoring.py. Case folding, JSON and its schemas, and `str` and `int` are
-- parameters.
use Prim.Native.String.{◌++◌ as ◌<>◌}
use eaistack.Base.{
  ℕ, ◌+◌, String, Bool, true, false, ◌&&◌, Option, none, some, List, [], ◌∷◌, ◌++◌, map, all,
  contains, string_eq, ◌==◌, leb, if◌then◌else◌,
}
use eaistack.Base.Dict
use eaistack.Base.Dict.{Dict}
use eaistack.Base.Text.{codes}
use eaistack.Base.Int.{ℤ, pos, leb_ℤ}
use eaistack.Base.Result.{Result, ok, err, ◌>>=◌}
use eaistack.Workflow.Schema.{
  review_loop, route, Json, Fields, EvalCaseDef, RouteExpectation, ReviewRoundsExpectation,
  WorkflowDef, required_passes,
}
use eaistack.Workflow.Schema.Targets.{keys}
use eaistack.Workflow.Primitives.{Numerals, occurs, choose_route_branch}
use eaistack.Workflow.Primitives.Review.{review_rounds_key}

-- How `json.loads` ends: with a value, a JSONDecodeError or another exception (for an integer of too many
-- digits or a text nested too deeply).
pub data Loaded : Type 0 where
  parsed : Json → Loaded
  invalid_json loads_raised : Loaded

-- How the search for the errors of a value ends: with none, with the schema path of the best match, or with
-- an exception (for a reference that does not resolve).
pub data Located : Type 0 where
  no_error : Located
  error_at : String → Located
  search_raised : Located

pub record Judge : Type 0 where
  pub numerals : Numerals
  pub str_ℤ : ℤ → String
  pub casefold : String → String
  pub loads : String → Loaded
  pub error_location : Fields → Json → Located

pub data CheckKind : Type 0 where
  structural content : CheckKind

pub data RunOutcome : Type 0 where
  completed timed_out rejected_by_input_guardrail error : RunOutcome

pub record CaseRunObservation : Type 0 where
  pub outcome : RunOutcome
  pub reply : String
  pub step_outputs : Dict String String
  pub tools_called : List String

pub record CheckResult : Type 0 where
  pub check : String
  pub kind : CheckKind
  pub passed : Bool
  pub detail : String

-- What stops the scoring: a KeyError, a failed `assert`, an IndexError, a ValueError, and what the JSON
-- libraries raise beside a JSONDecodeError.
pub data ScoreError : Type 0 where
  missing_step not_a_route not_a_loop no_branches bad_count json_raised schema_raised : ScoreError

abbrev pub Results : Type 0
Results = Result ScoreError (List CheckResult)

abbrev result : String → CheckKind → Bool → String → CheckResult
result check kind passed detail = record {
  check = check;
  kind = kind;
  passed = passed;
  detail = detail;
}

abbrev pub quote : String → String
quote s = "'" <> (s <> "'")

unfoldable pub judge_route : String → String → Option String → Results
judge_route step expected none = err no_branches
judge_route step expected (some taken) =
    let prefix = "route step " <> (quote step <> (" took " <> quote taken)) in
    ok (
      (if taken == expected
        then result "route" structural true prefix
        else result "route" structural false (prefix <> (", expected " <> quote expected)))
      ∷ [])

unfoldable pub route_result : WorkflowDef → CaseRunObservation → Option RouteExpectation → Results
route_result d o none = ok []
route_result d o (some expected) = elim (Dict.lookup expected.step d.steps) [
  | none ↦ err missing_step
  | some (route step) ↦ elim (Dict.lookup expected.step o.step_outputs) [
    | none ↦ ok (
        result "route" structural false ("route step " <> (quote expected.step <> " did not run"))
        ∷ [])
    | some output ↦
        judge_route expected.step expected.branch (choose_route_branch output (keys step.branches))
  ]
  | some _ ↦ err not_a_route
]

unfoldable pub judge_rounds : Judge → String → ℤ → Option ℕ → Results
judge_rounds j step limit none = err bad_count
judge_rounds j step limit (some rounds) = ok (
    result "review_rounds_at_most" structural (leb_ℤ (pos rounds) limit) (
      "review loop "
      <> (quote step
          <> (" finished in "
              <> (j.numerals.str rounds <> (" round(s), limit " <> j.str_ℤ limit)))))
    ∷ [])

unfoldable pub review_rounds_result :
    Judge → WorkflowDef → CaseRunObservation → Option ReviewRoundsExpectation → Results
review_rounds_result j d o none = ok []
review_rounds_result j d o (some expected) = elim (Dict.lookup expected.step d.steps) [
  | none ↦ err missing_step
  | some (review_loop step) ↦
      elim (Dict.lookup (review_rounds_key step.reviewer_step) o.step_outputs) [
        | none ↦ ok (
            result "review_rounds_at_most" structural false
              ("review loop " <> (quote expected.step <> " did not run"))
            ∷ [])
        | some taken ↦ judge_rounds j expected.step expected.rounds (j.numerals.int taken)
      ]
  | some _ ↦ err not_a_loop
]

unfoldable pub tool_called_result : CaseRunObservation → Option String → List CheckResult
tool_called_result o none = []
tool_called_result o (some tool) =
    (if contains o.tools_called tool
      then result "tool_called" structural true (quote tool <> " was called")
      else result "tool_called" structural false (quote tool <> " was not called"))
    ∷ []

unfoldable pub reply_contains_result : Judge → CaseRunObservation → String → CheckResult
reply_contains_result j o text =
    if occurs (codes (j.casefold text)) (codes (j.casefold o.reply))
    then result "reply_contains" content true ("reply contains " <> quote text)
    else result "reply_contains" content false ("reply does not contain " <> quote text)

abbrev or_root : String → String
or_root location = if location == "" then "(root)" else location

unfoldable pub reply_json_schema_result : Judge → CaseRunObservation → Option Fields → Results
reply_json_schema_result j o none = ok []
reply_json_schema_result j o (some schema) = elim (j.loads o.reply) [
  | loads_raised ↦ err json_raised
  | invalid_json ↦ ok (result "reply_json_schema" content false "reply is not valid JSON" ∷ [])
  | parsed value ↦ elim (j.error_location schema value) [
    | search_raised ↦ err schema_raised
    | no_error ↦ ok (result "reply_json_schema" content true "reply matches the schema" ∷ [])
    | error_at location ↦ ok (
        result "reply_json_schema" content false ("reply fails the schema at " <> or_root location)
        ∷ [])
  ]
]

-- `_check_results`, the generator run to its end.
unfoldable pub check_results : Judge → EvalCaseDef → WorkflowDef → CaseRunObservation → Results
check_results j case d o = do
  routed ← route_result d o case.expect.route
  reviewed ← review_rounds_result j d o case.expect.review_rounds_at_most
  matched ← reply_json_schema_result j o case.expect.reply_json_schema
  ok (
      routed
      ++ reviewed
      ++ tool_called_result o case.expect.tool_called
      ++ map (reply_contains_result j o) case.expect.reply_contains
      ++ matched)

abbrev pub incomplete_run_detail : RunOutcome → Option String
incomplete_run_detail completed = none
incomplete_run_detail timed_out = some "the run timed out"
incomplete_run_detail rejected_by_input_guardrail =
    some "the input guardrail rejected the test input"
incomplete_run_detail error = some "the run failed with an error"

abbrev pub failed : String → CheckResult → CheckResult
failed reason r = record r { passed = false; detail = reason }

abbrev pub fail_all : Option String → List CheckResult → List CheckResult
fail_all none results = results
fail_all (some reason) results = map (failed reason) results

unfoldable pub score_case_run : Judge → EvalCaseDef → WorkflowDef → CaseRunObservation → Results
score_case_run j case d o = do
  results ← check_results j case d o
  ok (fail_all (incomplete_run_detail o.outcome) results)

unfoldable pub run_passed : List CheckResult → Bool
run_passed [] = false
run_passed (r ∷ results) = r.passed && all (λ r. r.passed) results

unfoldable pub passes : List Bool → ℕ
passes [] = 0
passes (true ∷ runs) = 1 + passes runs
passes (false ∷ runs) = passes runs

unfoldable pub case_passed : EvalCaseDef → List Bool → Bool
case_passed case run_passes = leb (required_passes case) (passes run_passes)

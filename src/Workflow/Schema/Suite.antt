-- ===== src/Workflow/Schema/Suite.antt =====
-- `_validate_eval_cases` of backend/app/workflows/schema.py. Whether a JSON schema is valid is
-- decided by the jsonschema library, which is a parameter: `schema_error` is `check_schema`.
use eaistack.Base.{
  ℕ, ◌+◌, String, Bool, false, not, ◌&&◌, ◌||◌, Option, none, some, List, [], ◌∷◌, contains,
  string_eq, ◌==◌, ltb,
}
use eaistack.Base.Dict
use eaistack.Base.Dict.{Dict}
use eaistack.Base.Int.{pos, leb_ℤ}
use eaistack.Base.Result.{ok, err, raise_if, ◌>>◌}
use eaistack.Workflow.Schema.{
  StepDef, review_loop, route, Json, scalar, array, object, Items, nil, item, Fields, end, field,
  EvalCaseDef, RouteExpectation, ReviewRoundsExpectation, WorkflowDef, is_empty, is_none,
}
use eaistack.Workflow.Schema.Errors.{
  undefined_entry, duplicate_case, too_many_runs, too_many_passes, no_checks, not_a_route_step,
  not_a_branch, not_a_review_loop, rounds_out_of_range, unknown_tool_called, regex_in_schema,
  bad_json_schema, suite_too_long,
}
use eaistack.Workflow.Schema.Validate.{Check, is_registered_tool, check_steps, check_all_reachable}
use eaistack.Workflow.Schema.Targets.{keys}

abbrev pub eval_runs_per_case_ceiling : ℕ
eval_runs_per_case_ceiling = 10

abbrev pub eval_max_case_runs_per_suite : ℕ
eval_max_case_runs_per_suite = 50

unfoldable pub is_regex_keyword : String → Bool
is_regex_keyword key = key == "pattern" || key == "patternProperties"

unfoldable mutual
  pub uses_regex_keyword : Json → Bool
  uses_regex_keyword (scalar s) = false
  uses_regex_keyword (array xs) = items_use_regex_keyword xs
  uses_regex_keyword (object fs) = fields_use_regex_keyword fs

  pub items_use_regex_keyword : Items → Bool
  items_use_regex_keyword nil = false
  items_use_regex_keyword (item x xs) = uses_regex_keyword x || items_use_regex_keyword xs

  pub fields_use_regex_keyword : Fields → Bool
  fields_use_regex_keyword end = false
  fields_use_regex_keyword (field key value fs) =
      (is_regex_keyword key || uses_regex_keyword value) || fields_use_regex_keyword fs

unfoldable pub check_route : Dict String StepDef → String → Option RouteExpectation → Check
check_route steps case none = ok tt
check_route steps case (some expected) = elim (Dict.lookup expected.step steps) [
  | some (route step) ↦
      raise_if (is_none (Dict.lookup expected.branch step.branches))
        (not_a_branch case expected.branch)
  | _ ↦ err (not_a_route_step case expected.step)
]

unfoldable pub check_rounds : Dict String StepDef → String → Option ReviewRoundsExpectation → Check
check_rounds steps case none = ok tt
check_rounds steps case (some expected) = elim (Dict.lookup expected.step steps) [
  | some (review_loop step) ↦
      raise_if (not (leb_ℤ (pos 1) expected.rounds && leb_ℤ expected.rounds step.max_iterations))
        (rounds_out_of_range case)
  | _ ↦ err (not_a_review_loop case expected.step)
]

unfoldable pub check_tool_called : String → Option String → Check
check_tool_called case none = ok tt
check_tool_called case (some tool) =
    raise_if (not (is_registered_tool tool)) (unknown_tool_called case tool)

unfoldable pub check_passes : EvalCaseDef → Check
check_passes case = elim case.min_passes [
  | none ↦ ok tt
  | some n ↦ raise_if (ltb case.runs n) (too_many_passes case.name)
]

-- `sum(case.runs for case in definition.tests)`
unfoldable pub total_runs : List EvalCaseDef → ℕ
total_runs [] = 0
total_runs (case ∷ cases) = case.runs + total_runs cases

module _ (schema_error : Fields → Bool) where
  unfoldable pub check_json_schema : String → Option Fields → Check
  check_json_schema case none = ok tt
  check_json_schema case (some schema) = do
    raise_if (fields_use_regex_keyword schema) (regex_in_schema case)
    raise_if (schema_error schema) (bad_json_schema case)

  unfoldable pub check_case : Dict String StepDef → List String → EvalCaseDef → Check
  check_case steps seen case = do
    raise_if (contains seen case.name) (duplicate_case case.name)
    raise_if (ltb eval_runs_per_case_ceiling case.runs) (too_many_runs case.name)
    check_passes case
    raise_if (is_empty case.expect) (no_checks case.name)
    check_route steps case.name case.expect.route
    check_rounds steps case.name case.expect.review_rounds_at_most
    check_tool_called case.name case.expect.tool_called
    check_json_schema case.name case.expect.reply_json_schema

  unfoldable pub check_cases : Dict String StepDef → List String → List EvalCaseDef → Check
  check_cases steps seen [] = ok tt
  check_cases steps seen (case ∷ cases) = do
    check_case steps seen case
    check_cases steps (case.name ∷ seen) cases

  unfoldable pub validate_eval_cases : WorkflowDef → Check
  validate_eval_cases d = do
    check_cases d.steps [] d.tests
    raise_if (ltb eval_max_case_runs_per_suite (total_runs d.tests)) suite_too_long

  -- `_validate_definition`
  unfoldable pub validate_definition : WorkflowDef → Check
  validate_definition d = do
    raise_if (not (contains (keys d.steps) d.entry)) (undefined_entry d.entry)
    check_steps (keys d.steps) d.steps
    check_all_reachable d
    validate_eval_cases d

-- ===== src/Evals/Suite.antt =====
-- Scoring the runs of an accepted suite.
use eaistack.Base.{
  String, Bool, false, Option, none, some, List, [], ◌∷◌, map, contains, ltb, string_eq, In, ◌≡◌,
  ◌⊎◌, inl, inr, refl, ◌∙◌, subst,
}
use eaistack.Base.Dict.{Dict}
use eaistack.Base.Result.{ok, err, raise_if, ◌>>=◌, >>-ok_iff, raise_if-ok_iff}
use eaistack.Workflow.Schema.{StepDef, EvalCaseDef, WorkflowDef, is_empty, is_nil, Fields}
use eaistack.Workflow.Schema.Errors.{duplicate_case, too_many_runs, no_checks}
use eaistack.Workflow.Schema.Suite.{
  check_route, check_rounds, check_case, check_cases, check_passes, eval_runs_per_case_ceiling,
  validate_eval_cases,
}
use eaistack.Evals.Scoring.{
  Judge, CaseRunObservation, RunOutcome, completed, timed_out, rejected_by_input_guardrail, error,
  CheckResult, Results, check_results, incomplete_run_detail, fail_all, failed, score_case_run,
  run_passed,
}
use eaistack.Evals.Scored.{CountsAreNumbers, JsonIsHandled, Answers, check_results-Answers, nil-map}

fail_all_nil :
    (reason : Option String) (results : List CheckResult)
    → is_nil (fail_all reason results) ≡ is_nil results
fail_all_nil none results = refl
fail_all_nil (some reason) results = nil-map (failed reason) results

failed-run_passed :
    (reason : String) (results : List CheckResult)
    → run_passed (map (failed reason) results) ≡ false
unfolding run_passed
failed-run_passed reason [] = refl
failed-run_passed reason (r ∷ results) = refl

-- Something was checked, and a run that did not complete does not pass.
abbrev pub IsScored : RunOutcome → Results → Type 0
IsScored outcome (err e) = ⊥
IsScored outcome (ok results) =
    (is_nil results ≡ false) × ((outcome ≡ completed) ⊎ (run_passed results ≡ false))

incomplete-fails :
    (outcome : RunOutcome) (results : List CheckResult)
    → (outcome ≡ completed)
      ⊎ (run_passed (fail_all (incomplete_run_detail outcome) results) ≡ false)
incomplete-fails completed results = inl refl
incomplete-fails timed_out results = inr (failed-run_passed _ results)
incomplete-fails rejected_by_input_guardrail results = inr (failed-run_passed _ results)
incomplete-fails error results = inr (failed-run_passed _ results)

score_checked :
    (o : RunOutcome) (checked : Results)
    → Answers false checked
    → IsScored o (checked >>= λ results. ok (fail_all (incomplete_run_detail o) results))
score_checked o (err e) h = absurd h
score_checked o (ok results) h =
    (fail_all_nil (incomplete_run_detail o) results ∙ h, incomplete-fails o results)

-- What `check_case` found of a case that it accepted.
abbrev IsAcceptedCase : Dict String StepDef → EvalCaseDef → Type 0
IsAcceptedCase steps case =
    (is_empty case.expect ≡ false)
    × (check_route steps case.name case.expect.route ≡ ok tt)
    × (check_rounds steps case.name case.expect.review_rounds_at_most ≡ ok tt)

check_case-IsAcceptedCase :
    (schema_error : Fields → Bool) (steps : Dict String StepDef) (seen : List String)
    (case : EvalCaseDef)
    → check_case schema_error steps seen case ≡ ok tt
    → IsAcceptedCase steps case
unfolding check_case
check_case-IsAcceptedCase schema_error steps seen case h =
    let name = raise_if (contains seen case.name) (duplicate_case case.name) in
    let runs = raise_if (ltb eval_runs_per_case_ceiling case.runs) (too_many_runs case.name) in
    let named = (>>-ok_iff name _ tt).0 h in
    let few = (>>-ok_iff runs _ tt).0 named.1 in
    let passing = (>>-ok_iff (check_passes case) _ tt).0 few.1 in
    let asked =
      (>>-ok_iff (raise_if (is_empty case.expect) (no_checks case.name)) _ tt).0 passing.1 in
    let routes = (>>-ok_iff (check_route steps case.name case.expect.route) _ tt).0 asked.1 in
    let rounds =
      (>>-ok_iff (check_rounds steps case.name case.expect.review_rounds_at_most) _ tt).0
        routes.1 in
    ((raise_if-ok_iff (is_empty case.expect) (no_checks case.name)).0 asked.0, routes.0, rounds.0)

check_cases-IsAcceptedCase :
    (schema_error : Fields → Bool) (steps : Dict String StepDef) (seen : List String)
    (cases : List EvalCaseDef) (case : EvalCaseDef)
    → check_cases schema_error steps seen cases ≡ ok tt
    → In case cases
    → IsAcceptedCase steps case
unfolding check_cases
check_cases-IsAcceptedCase schema_error steps seen [] case h m = absurd m
check_cases-IsAcceptedCase schema_error steps seen (c ∷ cases) case h m =
    let (here, later) = (>>-ok_iff _ _ tt).0 h in
    elim m [
      | inl same ↦
          subst (IsAcceptedCase steps) same
            (check_case-IsAcceptedCase schema_error steps seen c here)
      | inr more ↦
          check_cases-IsAcceptedCase schema_error steps (c.name ∷ seen) cases case later more
    ]

-- Scoring a run of a case of an accepted suite raises nothing, if every recorded round count is a number
-- and, where the case has a schema, neither parsing the reply nor matching the parsed value raises what is
-- not caught: it gives at least one check result, and a run that did not complete does not pass.
pub score_case_run-IsScored :
    (schema_error : Fields → Bool) (d : WorkflowDef)
    → validate_eval_cases schema_error d ≡ ok tt
    → (case : EvalCaseDef) → In case d.tests
    → (j : Judge) (o : CaseRunObservation) → CountsAreNumbers j o
    → JsonIsHandled j o.reply case.expect.reply_json_schema
    → IsScored o.outcome (score_case_run j case d o)
unfolding validate_eval_cases score_case_run
score_case_run-IsScored schema_error d h case m j o counts handled =
    let cases = ((>>-ok_iff _ _ tt).0 h).0 in
    let (some_check, routes, rounds) =
      check_cases-IsAcceptedCase schema_error d.steps [] d.tests case cases m in
    score_checked o.outcome (check_results j case d o) (
      subst (λ idle. Answers idle (check_results j case d o)) some_check
        (check_results-Answers j case d o counts handled routes rounds))

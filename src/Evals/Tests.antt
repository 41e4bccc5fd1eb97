-- ===== src/Evals/Tests.antt =====
-- Witnesses: a suite of one case that is run twice, its scoring, and the requests that drive it.
use eaistack.Base.{true, false, none, some, [], ◌∷◌, ◌≡◌, refl, string_eq, contains, inl, arith}
use eaistack.Base.Dict
use eaistack.Base.Int.{pos}
use eaistack.Base.Result.{ok}
use eaistack.Workflow.Schema.{is_empty, WorkflowDef, EvalCaseDef, agent, scalar, end}
use eaistack.Workflow.Schema.Suite.{
  validate_eval_cases, check_cases, check_case, check_passes, check_route, check_rounds,
  check_tool_called, check_json_schema, fields_use_regex_keyword, total_runs,
}
use eaistack.Evals.Scoring.{
  Judge, parsed, error_at, CaseRunObservation, timed_out, completed, score_case_run,
}
use eaistack.Evals.Scored.{CountsAreNumbers, JsonIsHandled}
use eaistack.Evals.Suite.{IsScored, score_case_run-IsScored}
use eaistack.Evals.Runs.{
  Db, WorkflowEvalRun, WorkflowEvalCaseResult, cancelled, new_run, get, start_eval_run, start,
  expire_abandoned, change_run, finished,
}
use eaistack.Evals.Runs.Steps.{
  Steps, here, next, started, cancelled_by, cancel_eval_run, get_run, record_case_run,
}
use eaistack.Evals.Runs.Slot.{IsSound}
use eaistack.Evals.Runs.Kept.{Steps-IsSound}

abbrev greeting : EvalCaseDef
greeting = record {
  name = "greeting";
  input = "hello";
  runs = 2;
  min_passes = some 1;
  expect = record {
    route = none;
    review_rounds_at_most = none;
    tool_called = none;
    reply_contains = "hi" ∷ [];
    reply_json_schema = some end;
  };
}

abbrev greeter : WorkflowDef
greeter = record {
  name = "greeter";
  version = pos 1;
  description = "";
  entry = "respond";
  steps =
      (
        "respond",
        agent (record { prompt = "Reply."; tools = []; next = none; output_field = none }),
      )
      ∷ [];
  tests = greeting ∷ [];
}

abbrev judge : Judge
judge = record {
  numerals = record { str = λ k. "1"; int = λ s. some 1 };
  str_ℤ = λ z. "0";
  casefold = λ s. s;
  loads = λ s. parsed (scalar s);
  error_location = λ schema value. error_at "type";
}

abbrev late : CaseRunObservation
late = record { outcome = timed_out; reply = ""; step_outputs = []; tools_called = [] }

late_counts : CountsAreNumbers judge late
unfolding Dict.lookup
late_counts reviewer = tt

late_handled : JsonIsHandled judge "" (some end)
late_handled = (λ e. cc, λ value e f. cc)

greeter_accepted : validate_eval_cases (λ raw. false) greeter ≡ ok tt
unfolding validate_eval_cases check_cases check_case check_passes check_route check_rounds
    check_tool_called check_json_schema fields_use_regex_keyword total_runs contains is_empty
greeter_accepted = refl

score_case_run-IsScored_example : IsScored timed_out (score_case_run judge greeting greeter late)
score_case_run-IsScored_example =
    score_case_run-IsScored (λ raw. false) greeter greeter_accepted greeting (inl refl) judge late
      late_counts late_handled

abbrev nothing : Db
nothing = record { runs = []; results = [] }

abbrev going : WorkflowEvalRun
going = new_run "run" "greeter" "version" "ann" 2 1000

abbrev begun : Db
begun = record { runs = going ∷ []; results = [] }

abbrev result : WorkflowEvalCaseResult
result = record {
  eval_run_id = "run";
  case_name = "greeting";
  run_index = 0;
  outcome = completed;
  passed = true;
  checks = [];
  thread_id = some "thread";
  duration_ms = 5;
  created_at = 1010;
}

abbrev stopped : Db
stopped = record { runs = finished cancelled none 1005 going ∷ []; results = [] }

start_ok :
    start_eval_run (greeting ∷ []) "run" "greeter" "version" "ann" 300 1000 nothing ≡ ok begun
unfolding start_eval_run start expire_abandoned total_runs
start_ok = refl

cancel_ok : cancel_eval_run "greeter" "run" 1005 begun begun ≡ ok stopped
unfolding cancel_eval_run get_run get change_run
cancel_ok = refl

driven : Steps nothing stopped
driven =
    next nothing begun stopped
      (next nothing nothing begun (here nothing) (
        started (greeting ∷ []) "run" "greeter" "version" "ann" 300 1000 nothing begun (refl, refl)
          start_ok))
      (cancelled_by "greeter" "run" 1005 begun begun stopped cancel_ok)

Steps-IsSound_example : IsSound stopped
Steps-IsSound_example = Steps-IsSound nothing stopped driven (omega arith, tt, tt)

-- The case run that was executing when its run was cancelled is recorded after it.
abbrev after_late : Db
after_late = record_case_run (greeting ∷ []) result 1010 stopped

-- A second cancellation read the rows before the first one wrote.
abbrev cancelled_twice : Db
cancelled_twice = change_run "run" (finished cancelled none 1011) after_late

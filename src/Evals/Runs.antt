-- ===== src/Evals/Runs.antt =====
-- Eval runs: backend/app/repositories/workflow_eval_repository.py and what
-- backend/app/services/workflow_eval_service.py commits. A time is a number of seconds. `active_slot` is
-- `true` for TRUE and `false` for NULL. The suite of a run's version is an argument: what
-- `resolve_version_for_test` gives.
pub mod Steps
pub mod Slot
pub mod Kept
pub mod Verdict
pub mod Final
use eaistack.Base.{
  ℕ, zero, suc, ◌+◌, ◌-◌, String, Bool, true, false, not, ◌&&◌, ◌||◌, Option, none, some, List, [],
  ◌∷◌, ◌++◌, map, length, select, first, any, all, ltb, ◌==◌, string_eq, nat_eq, if◌then◌else◌,
}
use eaistack.Base.Result.{Result, ok, err, raise_if, ◌>>=◌, ◌>>◌}
use eaistack.Workflow.Schema.{EvalCaseDef}
use eaistack.Workflow.Schema.Suite.{total_runs}
use eaistack.Evals.Scoring.{CheckResult, RunOutcome, run_passed, case_passed}

pub data Status : Type 0 where
  running completed cancelled abandoned : Status

abbrev pub is_running : Status → Bool
is_running running = true
is_running _ = false

pub record WorkflowEvalRun : Type 0 where
  pub id : String
  pub workflow_name : String
  pub workflow_version_id : String
  pub status : Status
  pub passed : Option Bool
  pub case_runs_total : ℕ
  pub case_runs_done : ℕ
  pub active_slot : Bool
  pub started_by_user_id : String
  pub started_at : ℕ
  pub last_activity_at : ℕ
  pub finished_at : Option ℕ

pub record WorkflowEvalCaseResult : Type 0 where
  pub eval_run_id : String
  pub case_name : String
  pub run_index : ℕ
  pub outcome : RunOutcome
  pub passed : Bool
  pub checks : List CheckResult
  pub thread_id : Option String
  pub duration_ms : ℕ
  pub created_at : ℕ

pub record Db : Type 0 where
  pub runs : List WorkflowEvalRun
  pub results : List WorkflowEvalCaseResult

unfoldable pub get : String → List WorkflowEvalRun → Option WorkflowEvalRun
get id runs = first (λ r. r.id == id) runs

abbrev pub at : String → (WorkflowEvalRun → WorkflowEvalRun) → WorkflowEvalRun → WorkflowEvalRun
at id change r = if r.id == id then change r else r

-- What a repository method writes to the row of a run.
unfoldable pub change_run : String → (WorkflowEvalRun → WorkflowEvalRun) → Db → Db
change_run id change db = record db { runs = map (at id change) db.runs }

abbrev pub touched : ℕ → WorkflowEvalRun → WorkflowEvalRun
touched now r = record r { last_activity_at = now }

abbrev pub progressed : ℕ → WorkflowEvalRun → WorkflowEvalRun
progressed now r = record r { case_runs_done = r.case_runs_done + 1; last_activity_at = now }

abbrev pub finished : Status → Option Bool → ℕ → WorkflowEvalRun → WorkflowEvalRun
finished status passed now r = record r {
  status = status;
  passed = passed;
  active_slot = false;
  finished_at = some now;
}

unfoldable pub is_abandoned : ℕ → WorkflowEvalRun → Bool
is_abandoned idle_before r = is_running r.status && ltb r.last_activity_at idle_before

abbrev pub expired : ℕ → ℕ → WorkflowEvalRun → WorkflowEvalRun
expired idle_before now r = if is_abandoned idle_before r then finished abandoned none now r else r

unfoldable pub expire_abandoned : ℕ → ℕ → Db → Db
expire_abandoned idle_before now db = record db { runs = map (expired idle_before now) db.runs }

pub data EvalError : Type 0 where
  no_test_cases eval_run_in_progress eval_run_not_found eval_run_not_running not_eval_run_owner :
      EvalError

-- `start`; the unique constraint on the active slot refuses a second running run.
unfoldable pub start : WorkflowEvalRun → Db → Result EvalError Db
start run db =
    if any (λ r. r.active_slot) db.runs
    then err eval_run_in_progress
    else ok (record db { runs = run ∷ db.runs })

abbrev pub new_run : String → String → String → String → ℕ → ℕ → WorkflowEvalRun
new_run id name version user total now = record {
  id = id;
  workflow_name = name;
  workflow_version_id = version;
  status = running;
  passed = none;
  case_runs_total = total;
  case_runs_done = 0;
  active_slot = true;
  started_by_user_id = user;
  started_at = now;
  last_activity_at = now;
  finished_at = none;
}

abbrev pub eval_run_abandon_grace : ℕ
eval_run_abandon_grace = 60

abbrev pub is_empty_suite : List EvalCaseDef → Bool
is_empty_suite [] = true
is_empty_suite (case ∷ suite) = false

-- An error leaves the committed rows as they were.
unfoldable pub start_eval_run :
    List EvalCaseDef → String → String → String → String → ℕ → ℕ → Db → Result EvalError Db
start_eval_run suite id name version user timeout now db = do
  raise_if (is_empty_suite suite) no_test_cases
  start (new_run id name version user (total_runs suite) now)
      (expire_abandoned (now - timeout - eval_run_abandon_grace) now db)

abbrev pub same_case_run : String → String → ℕ → WorkflowEvalCaseResult → Bool
same_case_run id name index r = r.eval_run_id == id && r.case_name == name && r.run_index == index

-- The first index from `index` on, of so many that are left, without a result.
unfoldable pub pending_index : String → String → List WorkflowEvalCaseResult → ℕ → ℕ → Option ℕ
pending_index id name results index zero = none
pending_index id name results index (suc left) =
    let later = pending_index id name results (index + 1) left in
    if any (same_case_run id name index) results then later else some index

unfoldable pub next_pending_case_run :
    String → List WorkflowEvalCaseResult → List EvalCaseDef → Option (EvalCaseDef × ℕ)
next_pending_case_run id results [] = none
next_pending_case_run id results (case ∷ suite) =
    let later = next_pending_case_run id results suite in
    elim (pending_index id case.name results 0 case.runs) [
      | none ↦ later
      | some index ↦ some (case, index)
    ]

abbrev pub is_of_case : String → String → WorkflowEvalCaseResult → Bool
is_of_case id name r = r.eval_run_id == id && r.case_name == name

-- `CaseReport.passed`
unfoldable pub report_passed : String → List WorkflowEvalCaseResult → EvalCaseDef → Option Bool
report_passed id results case =
    let mine = select (is_of_case id case.name) results in
    if ltb (length mine) case.runs then none else some (case_passed case (map (λ r. r.passed) mine))

abbrev pub is_true : Option Bool → Bool
is_true none = false
is_true (some b) = b

unfoldable pub suite_passed : String → List WorkflowEvalCaseResult → List EvalCaseDef → Bool
suite_passed id results suite = all (λ case. is_true (report_passed id results case)) suite

unfoldable pub is_complete : WorkflowEvalRun → Bool
is_complete r = is_running r.status && not (ltb r.case_runs_done r.case_runs_total)

unfoldable pub finish_if_complete : List EvalCaseDef → String → ℕ → Db → Db
finish_if_complete suite id now db = elim (get id db.runs) [
  | none ↦ db
  | some run ↦
      if is_complete run
      then change_run id (finished completed (some (suite_passed id db.results suite)) now) db
      else db
]

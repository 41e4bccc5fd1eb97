-- ===== src/Evals/Runs/Steps.antt =====
-- The requests of backend/app/services/workflow_eval_service.py as the transactions that they commit.
-- An advance commits twice, before and after its case run, and other requests may come between.
use eaistack.Base.{
  ℕ, String, Bool, false, not, Option, none, some, List, ◌∷◌, any, ◌==◌, string_eq, if◌then◌else◌,
  ◌≡◌,
}
use eaistack.Base.Result.{Result, ok, err, raise_if, ◌>>=◌, ◌>>◌}
use eaistack.Workflow.Schema.{EvalCaseDef, is_none}
use eaistack.Evals.Runs.{
  Db, WorkflowEvalRun, WorkflowEvalCaseResult, Status, EvalError, eval_run_not_found,
  eval_run_not_running, not_eval_run_owner, is_running, get, change_run, touched, progressed,
  finished, cancelled, next_pending_case_run, finish_if_complete, same_case_run, start_eval_run,
}

-- `_get_run`
unfoldable pub get_run : String → String → Db → Result EvalError WorkflowEvalRun
get_run name id db = elim (get id db.runs) [
  | none ↦ err eval_run_not_found
  | some run ↦ if run.workflow_name == name then ok run else err eval_run_not_found
]

abbrev pub touch_pending :
    List EvalCaseDef → String → ℕ → Db → Option (EvalCaseDef × ℕ) → Option (EvalCaseDef × ℕ) × Db
touch_pending suite id now db none = (none, finish_if_complete suite id now db)
touch_pending suite id now db (some pending) = (some pending, change_run id (touched now) db)

-- `advance_eval_run` up to its first commit: the case run to execute, if any is left.
unfoldable pub begin_advance :
    List EvalCaseDef
    → String
    → String
    → String
    → ℕ
    → Db
    → Result EvalError (Option (EvalCaseDef × ℕ) × Db)
begin_advance suite name id user now db = do
  run ← get_run name id db
  raise_if (not (is_running run.status)) eval_run_not_running
  raise_if (not (run.started_by_user_id == user)) not_eval_run_owner
  ok (touch_pending suite id now db (next_pending_case_run id db.results suite))

-- `advance_eval_run` once its case run is scored; the unique constraint refuses a case run that a
-- concurrent request has recorded, and the rollback leaves the rows as they were.
unfoldable pub record_case_run : List EvalCaseDef → WorkflowEvalCaseResult → ℕ → Db → Db
record_case_run suite result now db =
    let recorded = record db { results = result ∷ db.results } in
    if any (same_case_run result.eval_run_id result.case_name result.run_index) db.results
    then db
    else finish_if_complete suite result.eval_run_id now
        (change_run result.eval_run_id (progressed now) recorded)

-- The status is read without a lock, from rows that another request may change before the write.
unfoldable pub cancel_eval_run : String → String → ℕ → Db → Db → Result EvalError Db
cancel_eval_run name id now read db = do
  run ← get_run name id read
  ok (if is_running run.status then change_run id (finished cancelled none now) db else db)

-- The new identifier of a run is not in use.
abbrev pub IsFreshRun : String → Db → Type 0
IsFreshRun id db =
    (any (λ r. r.id == id) db.runs ≡ false) × (any (λ r. r.eval_run_id == id) db.results ≡ false)

-- What one committed transaction does to the rows. A result is recorded of a run that exists, whatever
-- ran since its advance began; the rows that a cancellation read may be any.
pub data Step : Db → Db → Type 0 where
  started :
      (suite : List EvalCaseDef) (id name version user : String) (timeout now : ℕ) (db after : Db)
      → IsFreshRun id db
      → start_eval_run suite id name version user timeout now db ≡ ok after
      → Step db after
  advanced :
      (suite : List EvalCaseDef) (name id user : String) (now : ℕ)
      (pending : Option (EvalCaseDef × ℕ)) (db after : Db)
      → begin_advance suite name id user now db ≡ ok (pending, after)
      → Step db after
  recorded :
      (suite : List EvalCaseDef) (result : WorkflowEvalCaseResult) (now : ℕ) (db : Db)
      → is_none (get result.eval_run_id db.runs) ≡ false
      → Step db (record_case_run suite result now db)
  cancelled_by :
      (name id : String) (now : ℕ) (read db after : Db)
      → cancel_eval_run name id now read db ≡ ok after
      → Step db after
  -- A request that saw the run running ends it, after another one ended it.
  ended_late :
      (id : String) (status : Status) (passed : Option Bool) (now : ℕ) (db : Db)
      → is_running status ≡ false
      → Step db (change_run id (finished status passed now) db)

pub data Steps : Db → Db → Type 0 where
  here : (db : Db) → Steps db db
  next : (a b c : Db) → Steps a b → Step b c → Steps a c

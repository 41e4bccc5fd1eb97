-- ===== src/Evals/Runs/Kept.antt =====
-- Every request keeps the eval runs sound.
use eaistack.Base.{
  ℕ, ◌+◌, ◌≤◌, String, true, false, not, Option, none, some, List, [], ◌∷◌, map, any, ◌==◌,
  string_eq, All, ◌≡◌, refl, sym, subst, arith, Bool-cases, inl, inr,
}
use eaistack.Base.Result.{ok-injective, Result, ok, raise_if, >>=-eq-ok, >>-ok_iff}
use eaistack.Workflow.Schema.{EvalCaseDef}
use eaistack.Evals.Runs.{
  Db, EvalError, WorkflowEvalRun, WorkflowEvalCaseResult, is_running, at, change_run, touched,
  progressed, finished, expire_abandoned, start, start_eval_run, same_case_run, cancelled,
  eval_run_not_running, not_eval_run_owner, next_pending_case_run, is_empty_suite, no_test_cases,
}
use eaistack.Evals.Runs.Steps.{
  Step, started, advanced, recorded, cancelled_by, ended_late, Steps, here, next, get_run,
  begin_advance, record_case_run, cancel_eval_run, touch_pending,
}
use eaistack.Evals.Runs.Slot.{
  count_of, IsSoundRun, IsSound, active, change-IsSound, finished-IsSafe, touched-IsSafe,
  finish_if_complete-IsSound, expire_abandoned-IsSound, IsSafe,
}

active_zero :
    (runs : List WorkflowEvalRun) → any (λ r. r.active_slot) runs ≡ false → active runs ≡ 0
active_zero [] h = refl
active_zero (r ∷ runs) h = ground (arith, active_zero runs)

count_of_zero :
    (id : String) (results : List WorkflowEvalCaseResult)
    → any (λ r. r.eval_run_id == id) results ≡ false
    → count_of id results ≡ 0
count_of_zero id [] h = refl
count_of_zero id (r ∷ results) h = ground (arith, count_of_zero id results)

one_active :
    (run : WorkflowEvalRun) (runs : List WorkflowEvalRun)
    → any (λ r. r.active_slot) runs ≡ false
    → active (run ∷ runs) ≤ 1
one_active run runs h = ground (arith, active_zero runs h)

abbrev with_run : WorkflowEvalRun → Db → Db
with_run run db = record db { runs = run ∷ db.runs }

start-IsSound :
    (run : WorkflowEvalRun) (db after : Db)
    → IsSoundRun db.results run
    → IsSound db
    → start run db ≡ ok after
    → IsSound after
unfolding start
start-IsSound run db after row h made = elim (Bool-cases (any (λ r. r.active_slot) db.runs)) [
  | inl taken ↦ cc (rw (start, taken) at made)
  | inr free ↦
      subst IsSound (ok-injective (with_run run db) after (rw (start, free) at made))
        (omega (arith, one_active run db.runs free), (row, h.1), h.2)
]

start_eval_run-IsSound :
    (suite : List EvalCaseDef) (id name version user : String) (timeout now : ℕ) (db after : Db)
    → any (λ r. r.eval_run_id == id) db.results ≡ false
    → IsSound db
    → start_eval_run suite id name version user timeout now db ≡ ok after
    → IsSound after
unfolding start_eval_run expire_abandoned
start_eval_run-IsSound suite id name version user timeout now db after fresh h made =
    let checked = (>>-ok_iff (raise_if (is_empty_suite suite) no_test_cases) _ after).0 made in
    start-IsSound _ _ after (refl, sym (count_of_zero id db.results fresh))
      (expire_abandoned-IsSound _ now db h) checked.1

module _ (id : String) (change : WorkflowEvalRun → WorkflowEvalRun) (r : WorkflowEvalRun) where
  at-same : (r.id == id) ≡ true → at id change r ≡ change r
  at-same mine = rw mine refl

  at-other : (r.id == id) ≡ false → at id change r ≡ r
  at-other other = rw other refl

counted :
    (result : WorkflowEvalCaseResult) (results : List WorkflowEvalCaseResult) (r : WorkflowEvalRun)
    → r.case_runs_done ≡ count_of r.id results
    → (r.id == result.eval_run_id) ≡ true
    → r.case_runs_done + 1 ≡ count_of r.id (result ∷ results)
counted result results r h mine =
    ground
      (arith, string_eq.beq_iff r.id result.eval_run_id, string_eq.beq_iff result.eval_run_id r.id)

uncounted :
    (result : WorkflowEvalCaseResult) (results : List WorkflowEvalCaseResult) (r : WorkflowEvalRun)
    → r.case_runs_done ≡ count_of r.id results
    → (r.id == result.eval_run_id) ≡ false
    → r.case_runs_done ≡ count_of r.id (result ∷ results)
uncounted result results r h other =
    ground
      (arith, string_eq.beq_iff r.id result.eval_run_id, string_eq.beq_iff result.eval_run_id r.id)

-- A row once a result of its run, or of another, is recorded.
progress_sound :
    (result : WorkflowEvalCaseResult) (now : ℕ) (results : List WorkflowEvalCaseResult)
    (r : WorkflowEvalRun)
    → IsSoundRun results r
    → IsSoundRun (result ∷ results) (at result.eval_run_id (progressed now) r)
progress_sound result now results r h = elim (Bool-cases (r.id == result.eval_run_id)) [
  | inl mine ↦
      subst (IsSoundRun (result ∷ results))
        (sym (at-same result.eval_run_id (progressed now) r mine))
        (h.0, counted result results r h.1 mine)
  | inr other ↦
      subst (IsSoundRun (result ∷ results))
        (sym (at-other result.eval_run_id (progressed now) r other))
        (h.0, uncounted result results r h.1 other)
]

progress-map :
    (result : WorkflowEvalCaseResult) (now : ℕ) (results : List WorkflowEvalCaseResult)
    (runs : List WorkflowEvalRun)
    → All (IsSoundRun results) runs
    → (active (map (at result.eval_run_id (progressed now)) runs) ≤ active runs)
      × All (IsSoundRun (result ∷ results)) (map (at result.eval_run_id (progressed now)) runs)
progress-map result now results [] h = (omega arith, tt)
progress-map result now results (r ∷ runs) h =
    let (fewer, sound) = progress-map result now results runs h.1 in
    (ground arith, (progress_sound result now results r h.0, sound))

-- Recording a scored case run of a sound state.
record_case_run-IsSound :
    (suite : List EvalCaseDef) (result : WorkflowEvalCaseResult) (now : ℕ) (db : Db)
    → IsSound db
    → IsSound (record_case_run suite result now db)
unfolding record_case_run change_run
record_case_run-IsSound suite result now db h =
    let twice =
      any (same_case_run result.eval_run_id result.case_name result.run_index) db.results in
    elim (Bool-cases twice) [
      | inl raced ↦ rw raced h
      | inr new ↦ rw new (
          finish_if_complete-IsSound suite result.eval_run_id now _ (
            let (fewer, sound) = progress-map result now db.results db.runs h.1 in
            (omega (arith, h.0), sound, (new, h.2))))
    ]

changed :
    (change : WorkflowEvalRun → WorkflowEvalRun) (id : String) (db : Db)
    → IsSafe db.results (at id change)
    → IsSound db
    → IsSound (change_run id change db)
unfolding change_run
changed change id db safe h = change-IsSound (at id change) db safe h

touch_pending-IsSound :
    (suite : List EvalCaseDef) (id : String) (now : ℕ) (db : Db)
    (pending : Option (EvalCaseDef × ℕ))
    → IsSound db
    → IsSound (touch_pending suite id now db pending).1
touch_pending-IsSound suite id now db none h = finish_if_complete-IsSound suite id now db h
touch_pending-IsSound suite id now db (some pending) h =
    changed (touched now) id db (touched-IsSafe db.results id now) h

pub pair-snd :
    {A : Type 0} (p q : A × Db) → Path (Result EvalError (A × Db)) (ok p) (ok q) → p.1 ≡ q.1
pair-snd p q h = cc

begin_advance-IsSound :
    (suite : List EvalCaseDef) (name id user : String) (now : ℕ)
    (pending : Option (EvalCaseDef × ℕ)) (db after : Db)
    → begin_advance suite name id user now db ≡ ok (pending, after)
    → IsSound db
    → IsSound after
unfolding begin_advance
begin_advance-IsSound suite name id user now pending db after made h =
    let (run, found, rest) = >>=-eq-ok (get_run name id db) _ made in
    let awake =
      (>>-ok_iff (raise_if (not (is_running run.status)) eval_run_not_running) _ (pending, after)).0
        rest in
    let owned =
      (>>-ok_iff (raise_if (not (run.started_by_user_id == user)) not_eval_run_owner) _
          (pending, after)).0
        awake.1 in
    subst IsSound (pair-snd _ (pending, after) owned.1)
      (touch_pending-IsSound suite id now db (next_pending_case_run id db.results suite) h)

cancel_eval_run-IsSound :
    (name id : String) (now : ℕ) (read db after : Db)
    → cancel_eval_run name id now read db ≡ ok after
    → IsSound db
    → IsSound after
unfolding cancel_eval_run
cancel_eval_run-IsSound name id now read db after made h =
    let (run, found, rest) = >>=-eq-ok (get_run name id read) _ made in
    subst IsSound (ok-injective _ after rest) (elim (Bool-cases (is_running run.status)) [
      | inl live ↦ rw live (
          changed (finished cancelled none now) id db
            (finished-IsSafe db.results id cancelled none now refl) h)
      | inr over ↦ rw over h
    ])

Step-IsSound : (db after : Db) → Step db after → IsSound db → IsSound after
Step-IsSound db after (started suite id name version user timeout now _ _ (unused, fresh) made) h =
    start_eval_run-IsSound suite id name version user timeout now db after fresh h made
Step-IsSound db after (advanced suite name id user now pending _ _ made) h =
    begin_advance-IsSound suite name id user now pending db after made h
Step-IsSound db after (recorded suite result now _ exists) h =
    record_case_run-IsSound suite result now db h
Step-IsSound db after (cancelled_by name id now read _ _ made) h =
    cancel_eval_run-IsSound name id now read db after made h
Step-IsSound db after (ended_late id status passed now _ over) h =
    changed (finished status passed now) id db
      (finished-IsSafe db.results id status passed now over) h

-- From rows that are sound, as no rows are, every sequence of requests, interleaved in any way, leaves
-- sound rows: at most one run holds the slot, a run holds it exactly while its status is running, its
-- count of finished case runs is the number of its results, and no case run has two results.
pub Steps-IsSound : (db after : Db) → Steps db after → IsSound db → IsSound after
Steps-IsSound db after (here _) h = h
Steps-IsSound db after (next _ between _ steps last) h =
    Step-IsSound between after last (Steps-IsSound db between steps h)

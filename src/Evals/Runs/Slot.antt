-- ===== src/Evals/Runs/Slot.antt =====
-- What every sequence of requests keeps of the eval runs: the one slot, the counts and the results.
use eaistack.Base.{
  ℕ, ◌+◌, ◌≤◌, String, Bool, false, Option, some, List, [], ◌∷◌, map, length, select, any, ◌==◌,
  string_eq, if◌then◌else◌, All, ◌≡◌, refl, arith, Bool-cases, Option-cases, inl, inr,
}
use eaistack.Workflow.Schema.{EvalCaseDef}
use eaistack.Evals.Runs.{
  Db, WorkflowEvalRun, WorkflowEvalCaseResult, Status, is_running, get, at, change_run, touched,
  finished, is_abandoned, expired, expire_abandoned, finish_if_complete, is_complete, same_case_run,
  completed, suite_passed,
}

-- How many runs hold the slot.
abbrev pub active : List WorkflowEvalRun → ℕ
active [] = 0
active (r ∷ runs) = if r.active_slot then 1 + active runs else active runs

abbrev pub count_of : String → List WorkflowEvalCaseResult → ℕ
count_of id results = length (select (λ r. r.eval_run_id == id) results)

-- A row holds the slot exactly while it runs, and it has counted its results.
abbrev pub IsSoundRun : List WorkflowEvalCaseResult → WorkflowEvalRun → Type 0
IsSoundRun results r =
    (r.active_slot ≡ is_running r.status) × (r.case_runs_done ≡ count_of r.id results)

-- No case run is recorded twice.
abbrev pub AreUnique : List WorkflowEvalCaseResult → Type 0
AreUnique [] = Unit
AreUnique (r ∷ results) =
    (any (same_case_run r.eval_run_id r.case_name r.run_index) results ≡ false) × AreUnique results

abbrev pub IsSound : Db → Type 0
IsSound db = (active db.runs ≤ 1) × All (IsSoundRun db.results) db.runs × AreUnique db.results

-- A change of a row that neither takes the slot nor breaks the row.
abbrev pub IsSafe : List WorkflowEvalCaseResult → (WorkflowEvalRun → WorkflowEvalRun) → Type 0
IsSafe results change =
    (r : WorkflowEvalRun)
    → IsSoundRun results r
    → IsSoundRun results (change r) × (r.active_slot ≡ false → (change r).active_slot ≡ false)

map-IsSafe :
    (results : List WorkflowEvalCaseResult) (change : WorkflowEvalRun → WorkflowEvalRun)
    → IsSafe results change
    → (runs : List WorkflowEvalRun) → All (IsSoundRun results) runs
    → (active (map change runs) ≤ active runs) × All (IsSoundRun results) (map change runs)
map-IsSafe results change safe [] h = (omega arith, tt)
map-IsSafe results change safe (r ∷ runs) h =
    let (fewer, sound) = map-IsSafe results change safe runs h.1 in
    let (row, off) = safe r h.0 in (ground arith, (row, sound))

pub touched-IsSafe :
    (results : List WorkflowEvalCaseResult) (id : String) (now : ℕ)
    → IsSafe results (at id (touched now))
touched-IsSafe results id now r h = ground arith

pub finished-IsSafe :
    (results : List WorkflowEvalCaseResult) (id : String) (status : Status) (passed : Option Bool)
    (now : ℕ)
    → is_running status ≡ false
    → IsSafe results (at id (finished status passed now))
finished-IsSafe results id status passed now over r h = ground arith

expired-IsSafe :
    (results : List WorkflowEvalCaseResult) (idle_before now : ℕ)
    → IsSafe results (expired idle_before now)
unfolding is_abandoned
expired-IsSafe results idle_before now r h = ground arith

pub change-IsSound :
    (change : WorkflowEvalRun → WorkflowEvalRun) (db : Db)
    → IsSafe db.results change
    → IsSound db
    → IsSound (record db { runs = map change db.runs })
change-IsSound change db safe h =
    let (fewer, sound) = map-IsSafe db.results change safe db.runs h.1 in
    (omega (arith, h.0), sound, h.2)

pub finish_if_complete-IsSound :
    (suite : List EvalCaseDef) (id : String) (now : ℕ) (db : Db)
    → IsSound db
    → IsSound (finish_if_complete suite id now db)
unfolding finish_if_complete change_run
finish_if_complete-IsSound suite id now db h = elim (Option-cases (get id db.runs)) [
  | inl gone ↦ rw (finish_if_complete, gone) h
  | inr (run, found) ↦ elim (Bool-cases (is_complete run)) [
    | inl over ↦
        rw (finish_if_complete, found, over)
          (change-IsSound _ db
            (finished-IsSafe db.results id completed (some (suite_passed id db.results suite)) now
              refl)
            h)
    | inr unfinished ↦ rw (finish_if_complete, found, unfinished) h
  ]
]

pub expire_abandoned-IsSound :
    (idle_before now : ℕ) (db : Db) → IsSound db → IsSound (expire_abandoned idle_before now db)
unfolding expire_abandoned
expire_abandoned-IsSound idle_before now db h =
    change-IsSound _ db (expired-IsSafe db.results idle_before now) h

-- ===== src/Evals/Runs/Verdict.antt =====
-- An eval run that has ended, and changes that leave it so.
use eaistack.Base.{
  ℕ, String, Bool, true, false, Option, none, some, List, [], ◌∷◌, map, ◌==◌, string_eq, ◌≡◌, refl,
  sym, ◌∙◌, ap, subst, arith, Bool-cases, Option-cases, inl, inr,
}
use eaistack.Workflow.Schema.{EvalCaseDef, is_none}
use eaistack.Evals.Runs.{
  Db, WorkflowEvalRun, Status, is_running, get, at, change_run, touched, progressed, finished,
  is_abandoned, expired, finish_if_complete, is_complete, completed, suite_passed,
}

-- A row of a run that has ended: it does not run, does not hold the slot and has a time of its end.
abbrev pub IsOver : Option WorkflowEvalRun → Type 0
IsOver none = ⊥
IsOver (some r) =
    (is_running r.status ≡ false) × (r.active_slot ≡ false) × (is_none r.finished_at ≡ false)

abbrev KeepsId : (WorkflowEvalRun → WorkflowEvalRun) → Type 0
KeepsId change = (r : WorkflowEvalRun) → (change r).id ≡ r.id

abbrev apply : (WorkflowEvalRun → WorkflowEvalRun) → Option WorkflowEvalRun → Option WorkflowEvalRun
apply change none = none
apply change (some r) = some (change r)

module _ (id : String) (r : WorkflowEvalRun) (runs : List WorkflowEvalRun) where
  get-head : (r.id == id) ≡ true → get id (r ∷ runs) ≡ some r
  unfolding get
  get-head mine = rw mine refl

  pub get-tail : (r.id == id) ≡ false → get id (r ∷ runs) ≡ get id runs
  unfolding get
  get-tail other = rw other refl

get-map :
    (change : WorkflowEvalRun → WorkflowEvalRun)
    → KeepsId change
    → (id : String) (runs : List WorkflowEvalRun)
    → get id (map change runs) ≡ apply change (get id runs)
unfolding get
get-map change keeps id [] = refl
get-map change keeps id (r ∷ runs) = elim (Bool-cases (r.id == id)) [
  | inl mine ↦
      get-head id (change r) (map change runs) (ap (λ j. j == id) (keeps r) ∙ mine)
      ∙ sym (ap (apply change) (get-head id r runs mine))
  | inr other ↦
      get-tail id (change r) (map change runs) (ap (λ j. j == id) (keeps r) ∙ other)
      ∙ get-map change keeps id runs
      ∙ sym (ap (apply change) (get-tail id r runs other))
]

module _ (id : String) where
  abbrev pub IsEnded : Db → Type 0
  IsEnded db = IsOver (get id db.runs)

  -- A change that leaves a run ended.
  abbrev IsMild : (WorkflowEvalRun → WorkflowEvalRun) → Type 0
  IsMild change = (r : WorkflowEvalRun) → IsOver (some r) → IsOver (some (change r))

  pub map-IsEnded :
      (change : WorkflowEvalRun → WorkflowEvalRun)
      → KeepsId change
      → IsMild change
      → (db : Db) → IsEnded db
      → IsEnded (record db { runs = map change db.runs })
  map-IsEnded change keeps mild db h = elim (Option-cases (get id db.runs)) [
    | inl gone ↦ absurd (rw gone at h)
    | inr (r, found) ↦
        subst (IsOver) (sym (get-map change keeps id db.runs ∙ ap (apply change) found))
          (mild r (rw found at h))
  ]

  pub touched-IsMild : (j : String) (now : ℕ) → IsMild (at j (touched now))
  touched-IsMild j now r h = ground arith

  pub progressed-IsMild : (j : String) (now : ℕ) → IsMild (at j (progressed now))
  progressed-IsMild j now r h = ground arith

  pub expired-IsMild : (idle_before now : ℕ) → IsMild (expired idle_before now)
  unfolding is_abandoned
  expired-IsMild idle_before now r h = ground arith

  pub at-KeepsId :
      (j : String) (change : WorkflowEvalRun → WorkflowEvalRun)
      → KeepsId change
      → KeepsId (at j change)
  at-KeepsId j change keeps r = ground (arith, keeps r)

  pub expired-KeepsId : (idle_before now : ℕ) → KeepsId (expired idle_before now)
  expired-KeepsId idle_before now r = ground arith

  pub finish-IsMild :
      (j : String) (given : Status) (p : Option Bool) (now : ℕ)
      → is_running given ≡ false
      → IsMild (at j (finished given p now))
  finish-IsMild j given p now over r h = ground arith

  pub finish_if_complete-IsEnded :
      (suite : List EvalCaseDef) (j : String) (now : ℕ) (db : Db)
      → IsEnded db
      → IsEnded (finish_if_complete suite j now db)
  unfolding finish_if_complete change_run is_complete
  finish_if_complete-IsEnded suite j now db h = elim (Option-cases (get j db.runs)) [
    | inl gone ↦ rw (finish_if_complete, gone) h
    | inr (run, found) ↦ elim (Bool-cases (is_complete run)) [
      | inl over ↦
          rw (finish_if_complete, found, over)
            (map-IsEnded _ (at-KeepsId j _ (λ r. refl))
              (finish-IsMild j completed (some (suite_passed j db.results suite)) now refl) db h)
      | inr unfinished ↦ rw (finish_if_complete, found, unfinished) h
    ]
  ]

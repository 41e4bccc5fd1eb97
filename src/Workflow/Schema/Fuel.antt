-- ===== src/Workflow/Schema/Fuel.antt =====
-- The loop of `_reachable_steps` ends: each round takes one name off the frontier, and a step's
-- targets are put on it only the first time that the step is met.
use eaistack.Base.{
  ℕ, zero, suc, ◌+◌, ◌≤◌, ◌<◌, ◌≡◌, refl, String, false, some, List, [], ◌∷◌, ◌++◌, length,
  length-append, length-reverse, reverse, ◌∙◌, ap, contains, string_eq, if◌then◌else◌, Bool-cases,
  Option-cases, inl, inr, arith,
}
use eaistack.Base.Dict
use eaistack.Base.Dict.{Dict}
use eaistack.Workflow.Schema.{StepDef, WorkflowDef}
use eaistack.Workflow.Schema.Targets.{step_targets, explore, edge_count, reachable_steps}

-- The edges that leave a step not yet visited.
unvisited : List String → Dict String StepDef → ℕ
unvisited visited [] = 0
unvisited visited ((k, step) ∷ steps) =
    (if contains visited k then 0 else length (step_targets step)) + unvisited visited steps

unvisited-nil : (steps : Dict String StepDef) → unvisited [] steps ≡ edge_count steps
unfolding unvisited edge_count contains
unvisited-nil [] = refl
unvisited-nil ((k, step) ∷ steps) = omega (arith, unvisited-nil steps)

unvisited-le :
    (c : String) (visited : List String) (steps : Dict String StepDef)
    → unvisited (c ∷ visited) steps ≤ unvisited visited steps
unfolding unvisited contains
unvisited-le c visited [] = omega arith
unvisited-le c visited ((k, step) ∷ steps) = ground (arith, unvisited-le c visited steps)

unvisited-visit :
    (c : String) (visited : List String) (steps : Dict String StepDef) (step : StepDef)
    → Dict.lookup c steps ≡ some step
    → contains visited c ≡ false
    → unvisited (c ∷ visited) steps + length (step_targets step) ≤ unvisited visited steps
unfolding unvisited contains Dict.lookup
unvisited-visit c visited [] step h new = cc
unvisited-visit c visited ((k, s) ∷ steps) step h new = ground (
  arith,
  string_eq.beq_iff k c,
  string_eq.beq_iff c k,
  unvisited-le c visited steps,
  unvisited-visit c visited steps step,
)

explore_total :
    (steps : Dict String StepDef) (fuel : ℕ) (visited frontier : List String)
    → length frontier + unvisited visited steps < fuel
    → (result : List String) × (explore steps fuel visited frontier ≡ some result)
unfolding explore
explore_total steps zero visited frontier h = absurd (omega arith)
explore_total steps (suc fuel) visited [] h = (visited, refl)
explore_total steps (suc fuel) visited (c ∷ frontier) h =
    let skip = explore_total steps fuel visited frontier (omega arith) in
    elim (Option-cases (Dict.lookup c steps)) [
      | inl missing ↦ rw (missing, explore) skip
      | inr (step, found) ↦ elim (Bool-cases (contains visited c)) [
        | inl old ↦ rw (found, old, explore) skip
        | inr new ↦
            let less = unvisited-visit c visited steps step found new in
            let size =
              length-append (reverse (step_targets step)) frontier
              ∙ ap (λ (n : ℕ). n + length frontier) (length-reverse (step_targets step)) in
            rw (found, new, explore)
              (explore_total steps fuel (c ∷ visited) (reverse (step_targets step) ++ frontier)
                (omega arith))
      ]
    ]

-- On every definition the search for reachable steps ends with the fuel that it is given.
pub reachable_steps_total :
    (d : WorkflowDef) → (visited : List String) × (reachable_steps d ≡ some visited)
unfolding reachable_steps
reachable_steps_total d =
    let edges = unvisited-nil d.steps in
    explore_total d.steps (edge_count d.steps + 2) [] (d.entry ∷ []) (omega arith)

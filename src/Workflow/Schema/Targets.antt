-- ===== src/Workflow/Schema/Targets.antt =====
-- `_step_targets` and `_reachable_steps` of backend/app/workflows/schema.py. The frontier is a stack
-- with its top first: `pop()` takes the last element of the list and `extend` adds behind it. The
-- loop takes fuel, and Fuel shows that what `reachable_steps` gives it is enough.
use eaistack.Base.{
  ℕ, zero, suc, ◌+◌, String, Option, none, some, List, [], ◌∷◌, ◌++◌, length, contains, string_eq,
  if◌then◌else◌, ◌==◌,
}
use mathlib.Core.List.{reverse}
use eaistack.Base.Dict
use eaistack.Base.Dict.{Dict}
use eaistack.Workflow.Schema.{StepDef, agent, review_loop, route, WorkflowDef}

abbrev pub values {ℓ} : {V : Type ℓ} → Dict String V → List V
values [] = []
values ((k, v) ∷ d) = v ∷ values d

abbrev pub keys {ℓ} : {V : Type ℓ} → Dict String V → List String
keys [] = []
keys ((k, v) ∷ d) = k ∷ keys d

-- `[step.next] if step.next else []`: an empty name is no name.
unfoldable pub next_targets : Option String → List String
next_targets none = []
next_targets (some name) = if name == "" then [] else name ∷ []

unfoldable pub step_targets : StepDef → List String
unfolding next_targets
step_targets (agent step) = next_targets step.next
step_targets (review_loop step) = []
step_targets (route step) = values step.branches

unfoldable pub explore : Dict String StepDef → ℕ → List String → List String → Option (List String)
explore steps zero visited frontier = none
explore steps (suc fuel) visited [] = some visited
explore steps (suc fuel) visited (current ∷ frontier) =
    let skip = explore steps fuel visited frontier in
    elim (Dict.lookup current steps) [
      | none ↦ skip
      | some step ↦
          let go =
            explore steps fuel (current ∷ visited) (reverse (step_targets step) ++ frontier) in
          if contains visited current then skip else go
    ]

-- All the edges of the graph.
unfoldable pub edge_count : Dict String StepDef → ℕ
edge_count [] = 0
edge_count ((_, step) ∷ steps) = length (step_targets step) + edge_count steps

unfoldable pub reachable_steps : WorkflowDef → Option (List String)
reachable_steps d = explore d.steps (edge_count d.steps + 2) [] (d.entry ∷ [])

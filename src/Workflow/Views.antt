-- ===== src/Workflow/Views.antt =====
-- What the service and the registry read from a definition and the store: `entry_prompt` and
-- `entry_prompt_or_none` of backend/app/workflows/schema.py, and `workflow_graph`, `is_available` and
-- `resolve_version_for_test` of backend/app/services/workflow_service.py.
use eaistack.Base.{
  ℕ, String, Bool, not, Option, none, some, List, [], ◌∷◌, ◌++◌, if◌then◌else◌, ◌==◌, string_eq,
  ◌≡◌, All, In, Bool-cases, inl, inr,
}
use eaistack.Base.Dict
use eaistack.Base.Dict.{Dict}
use eaistack.Base.Result.{Result, ok, err, ◌>>=◌}
use eaistack.Workflow.Schema.{StepDef, agent, review_loop, route, WorkflowDef, Fields}
use eaistack.Workflow.Schema.Targets.{keys, values, next_targets, step_targets}
use eaistack.Workflow.Schema.Suite.{validate_definition}
use eaistack.Workflow.Schema.Accepted.{IsSoundStep, validate_definition-ok_iff}
use eaistack.Workflow.Versions.{Platform, WorkflowVersion}
use eaistack.Workflow.Service.{
  Parsing, Store, ServiceError, parse_draft_yaml, get_active_version_id,
}
use eaistack.Workflow.Service.Operations.{get_version_of, is_none}
use eaistack.Workflow.Service.Resolve.{ensure_builtins_recorded}

pub data PromptError : Type 0 where
  missing_entry not_an_agent : String → PromptError

abbrev entry_or_none : String → Option StepDef → Result PromptError (Option String)
entry_or_none entry none = err (missing_entry entry)
entry_or_none entry (some (agent step)) = ok (some step.prompt)
entry_or_none entry (some (review_loop step)) = ok none
entry_or_none entry (some (route step)) = ok none

unfoldable pub entry_prompt_or_none : WorkflowDef → Result PromptError (Option String)
entry_prompt_or_none d = entry_or_none d.entry (Dict.lookup d.entry d.steps)

abbrev entry_or_raise : String → Option StepDef → Result PromptError String
entry_or_raise entry none = err (missing_entry entry)
entry_or_raise entry (some (agent step)) = ok step.prompt
entry_or_raise entry (some (review_loop step)) = err (not_an_agent entry)
entry_or_raise entry (some (route step)) = err (not_an_agent entry)

unfoldable pub entry_prompt : WorkflowDef → Result PromptError String
entry_prompt d = entry_or_raise d.entry (Dict.lookup d.entry d.steps)

pub record Edge : Type 0 where
  pub source : String
  pub target : String
  pub label : Option String

unfoldable pub next_edges : String → Option String → List Edge
next_edges name none = []
next_edges name (some target) =
    if target == "" then [] else record { source = name; target = target; label = none } ∷ []

unfoldable pub branch_edges : String → Dict String String → List Edge
branch_edges name [] = []
branch_edges name ((label, target) ∷ branches) =
    record { source = name; target = target; label = some label } ∷ branch_edges name branches

unfoldable pub step_edges : String → StepDef → List Edge
step_edges name (agent step) = next_edges name step.next
step_edges name (review_loop step) = []
step_edges name (route step) = branch_edges name step.branches

-- The edges of the diagram; its nodes are the names of the steps.
unfoldable pub graph_edges : Dict String StepDef → List Edge
graph_edges [] = []
graph_edges ((name, step) ∷ steps) = step_edges name step ++ graph_edges steps

unfoldable pub is_available : Platform → ℕ → List (String × String) → String → Store → Bool × Store
is_available p now sources name s =
    let ready = ensure_builtins_recorded p now sources s in
    (not (is_none (get_active_version_id name ready)), ready)

-- The version and its definition; the store is only read.
unfoldable pub resolve_version_for_test :
    Parsing → String → String → Store → Result ServiceError (WorkflowVersion × WorkflowDef)
resolve_version_for_test q name id s = do
  version ← get_version_of name id s
  definition ← parse_draft_yaml q name version.yaml_text
  ok (version, definition)

-- The target of an edge is a step.
abbrev LeadsTo : List String → Edge → Type 0
LeadsTo names e = In e.target names

next-LeadsTo :
    (names : List String) (name : String) (next : Option String)
    → All (λ target. In target names) (next_targets next)
    → All (LeadsTo names) (next_edges name next)
unfolding next_targets next_edges
next-LeadsTo names name none h = tt
next-LeadsTo names name (some target) h = elim (Bool-cases (target == "")) [
  | inl blank ↦ rw blank tt
  | inr named ↦ rw named (rw named at h)
]

branch-LeadsTo :
    (names : List String) (name : String) (branches : Dict String String)
    → All (λ target. In target names) (values branches)
    → All (LeadsTo names) (branch_edges name branches)
unfolding branch_edges
branch-LeadsTo names name [] h = tt
branch-LeadsTo names name ((label, target) ∷ branches) h =
    (h.0, branch-LeadsTo names name branches h.1)

step-LeadsTo :
    (names : List String) (name : String) (step : StepDef)
    → All (λ target. In target names) (step_targets step)
    → All (LeadsTo names) (step_edges name step)
unfolding step_targets step_edges
step-LeadsTo names name (agent step) h = next-LeadsTo names name step.next h
step-LeadsTo names name (review_loop step) h = tt
step-LeadsTo names name (route step) h = branch-LeadsTo names name step.branches h

All-append :
    (names : List String) (es fs : List Edge)
    → All (LeadsTo names) es
    → All (LeadsTo names) fs
    → All (LeadsTo names) (es ++ fs)
All-append names [] fs h k = k
All-append names (e ∷ es) fs h k = (h.0, All-append names es fs h.1 k)

graph-LeadsTo :
    (names : List String) (steps : Dict String StepDef)
    → All (λ (entry : String × StepDef). IsSoundStep names entry.1) steps
    → All (LeadsTo names) (graph_edges steps)
unfolding graph_edges
graph-LeadsTo names [] h = tt
graph-LeadsTo names ((name, step) ∷ steps) h =
    All-append names (step_edges name step) (graph_edges steps) (step-LeadsTo names name step h.0.1)
      (graph-LeadsTo names steps h.1)

-- In the diagram of a definition that the validation accepts, every edge ends at a step.
graph_edges-of_valid :
    (schema_error : Fields → Bool) (d : WorkflowDef)
    → validate_definition schema_error d ≡ ok tt
    → All (LeadsTo (keys d.steps)) (graph_edges d.steps)
graph_edges-of_valid schema_error d h =
    graph-LeadsTo (keys d.steps) d.steps
      ((validate_definition-ok_iff schema_error d).0 h).0.steps_sound

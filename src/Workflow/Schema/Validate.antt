-- ===== src/Workflow/Schema/Validate.antt =====
-- `_validate_definition` of backend/app/workflows/schema.py, up to the eval cases.
use eaistack.Base.{ℕ, String, Bool, not, none, some, List, [], ◌∷◌, select, contains, string_eq}
use eaistack.Base.Dict.{Dict}
use eaistack.Base.Int.{pos, leb_ℤ}
use eaistack.Base.Result.{Result, ok, err, raise_if, ◌>>◌}
use eaistack.Workflow.Schema.{StepDef, agent, review_loop, route, WorkflowDef}
use eaistack.Workflow.Schema.Errors.{
  ValidationError, unknown_tool, unknown_worker_tool, too_many_iterations, undefined_target,
  unreachable_steps,
}
use eaistack.Workflow.Schema.Targets.{keys, step_targets, reachable_steps}

-- A check that may reject.
abbrev pub Check : Type 0
Check = Result ValidationError Unit

-- backend/app/workflows/tool_registry.py: the names of `_TOOL_REGISTRY`.
abbrev pub tool_registry : List String
tool_registry = "search_knowledge_base" ∷ []

unfoldable pub is_registered_tool : String → Bool
is_registered_tool name = contains tool_registry name

abbrev pub review_loop_max_iterations_ceiling : ℕ
review_loop_max_iterations_ceiling = 10

-- `for x in xs: if bad(x): raise error(x)`
unfoldable pub reject_first : (String → Bool) → (String → ValidationError) → List String → Check
reject_first bad error [] = ok tt
reject_first bad error (x ∷ xs) = do raise_if (bad x) (error x); reject_first bad error xs

unfoldable pub check_tools : (String → ValidationError) → List String → Check
check_tools error tools = reject_first (λ tool. not (is_registered_tool tool)) error tools

unfoldable pub check_step_body : String → StepDef → Check
check_step_body name (agent step) = check_tools (unknown_tool name) step.tools
check_step_body name (review_loop step) = do
  raise_if (not (leb_ℤ step.max_iterations (pos review_loop_max_iterations_ceiling)))
      (too_many_iterations name)
  check_tools (unknown_worker_tool name) step.worker_tools
check_step_body name (route step) = ok tt

unfoldable pub check_step : List String → String → StepDef → Check
check_step names name step = do
  check_step_body name step
  reject_first (λ target. not (contains names target)) (undefined_target name) (step_targets step)

unfoldable pub check_steps : List String → Dict String StepDef → Check
check_steps names [] = ok tt
check_steps names ((name, step) ∷ steps) = do check_step names name step; check_steps names steps

-- `sorted` orders the names in the message only.
unfoldable pub check_reachable : List String → List String → Check
check_reachable names reachable = elim (select (λ name. not (contains reachable name)) names) [
  | [] ↦ ok tt
  | name ∷ more ↦ err (unreachable_steps (name ∷ more))
]

-- The search always ends (Fuel); what stands for its end without a result is never reached.
unfoldable pub check_all_reachable : WorkflowDef → Check
check_all_reachable d = elim (reachable_steps d) [
  | none ↦ err (unreachable_steps (keys d.steps))
  | some reachable ↦ check_reachable (keys d.steps) reachable
]

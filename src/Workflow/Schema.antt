-- ===== src/Workflow/Schema.antt =====
-- backend/app/workflows/schema.py: the definition of a workflow as Pydantic has parsed it. What is a
-- Python int without a lower bound is a ℤ; `runs` and `min_passes` have one (`ge=1`).
pub mod Errors
pub mod Targets
pub mod Validate
pub mod Suite
pub mod Parse
pub mod Reachable
pub mod Fuel
pub mod Accepted
use eaistack.Base.{ℕ, ◌++◌, String, Bool, true, false, ◌&&◌, Option, none, some, List, [], ◌∷◌}
use eaistack.Base.Dict.{Dict}
use eaistack.Base.Int.{ℤ}

pub data OutputField : Type 0 where
  task : OutputField

pub record AgentStepDef : Type 0 where
  pub prompt : String
  pub tools : List String
  pub next : Option String
  pub output_field : Option OutputField

pub record ReviewLoopStepDef : Type 0 where
  pub worker_step : String
  pub reviewer_step : String
  pub worker_prompt : String
  pub worker_tools : List String
  pub reviewer_prompt : String
  pub max_iterations : ℤ

pub record RouteStepDef : Type 0 where
  pub prompt : String
  pub branches : Dict String String

pub data StepDef : Type 0 where
  agent : AgentStepDef → StepDef
  review_loop : ReviewLoopStepDef → StepDef
  route : RouteStepDef → StepDef

pub record RouteExpectation : Type 0 where
  pub step : String
  pub branch : String

pub record ReviewRoundsExpectation : Type 0 where
  pub step : String
  pub rounds : ℤ

-- A value of `dict[str, Any]` as far as the schema walks it: every other value is a scalar.
mutual
  pub data Json : Type 0 where
    scalar : String → Json
    array : Items → Json
    object : Fields → Json

  pub data Items : Type 0 where
    nil : Items
    item : Json → Items → Items

  pub data Fields : Type 0 where
    end : Fields
    field : String → Json → Fields → Fields

pub record EvalExpectations : Type 0 where
  pub route : Option RouteExpectation
  pub review_rounds_at_most : Option ReviewRoundsExpectation
  pub tool_called : Option String
  pub reply_contains : List String
  pub reply_json_schema : Option Fields

abbrev pub is_none {ℓ} : {A : Type ℓ} → Option A → Bool
is_none none = true
is_none (some a) = false

abbrev pub is_nil {ℓ} : {A : Type ℓ} → List A → Bool
is_nil [] = true
is_nil (x ∷ xs) = false

unfoldable pub is_empty : EvalExpectations → Bool
is_empty e =
    is_none e.route
    && is_none e.review_rounds_at_most
    && is_none e.tool_called
    && is_nil e.reply_contains
    && is_none e.reply_json_schema

pub record EvalCaseDef : Type 0 where
  pub name : String
  pub input : String
  pub runs : ℕ
  pub min_passes : Option ℕ
  pub expect : EvalExpectations

unfoldable pub required_passes : EvalCaseDef → ℕ
required_passes c = elim c.min_passes [ none ↦ c.runs | some n ↦ n ]

pub record WorkflowDef : Type 0 where
  pub name : String
  pub version : ℤ
  pub description : String
  pub entry : String
  pub steps : Dict String StepDef
  pub tests : List EvalCaseDef

-- The parts that `guarded_prompt_text` joins with a blank line.
unfoldable pub guarded_prompts : Dict String StepDef → List String
guarded_prompts [] = []
guarded_prompts ((_, agent step) ∷ steps) = step.prompt ∷ guarded_prompts steps
guarded_prompts ((_, review_loop step) ∷ steps) =
    step.worker_prompt ∷ step.reviewer_prompt ∷ guarded_prompts steps
guarded_prompts ((_, route step) ∷ steps) = step.prompt ∷ guarded_prompts steps

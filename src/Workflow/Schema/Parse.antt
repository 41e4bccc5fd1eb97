-- ===== src/Workflow/Schema/Parse.antt =====
-- `parse_workflow_definition` of backend/app/workflows/schema.py. Pydantic's `model_validate` is a
-- parameter: on a mapping it gives a definition, or the location and message of its first error.
use eaistack.Base.{String, Bool}
use eaistack.Base.Result.{Result, ok, err, ◌>>=◌, ◌>>◌}
use eaistack.Workflow.Schema.{WorkflowDef, Fields}
use eaistack.Workflow.Schema.Errors.{ValidationError, malformed}
use eaistack.Workflow.Schema.Suite.{validate_definition}

-- The two libraries that parsing calls.
pub record Pydantic : Type 0 where
  pub model_validate : Fields → Result (String × String) WorkflowDef
  pub schema_error : Fields → Bool

unfoldable pub as_validation_error :
    Result (String × String) WorkflowDef → Result ValidationError WorkflowDef
as_validation_error (ok d) = ok d
as_validation_error (err (location, message)) = err (malformed location message)

unfoldable pub parse_workflow_definition : Pydantic → Fields → Result ValidationError WorkflowDef
parse_workflow_definition p raw = do
  d ← as_validation_error (p.model_validate raw)
  validate_definition p.schema_error d
  ok d

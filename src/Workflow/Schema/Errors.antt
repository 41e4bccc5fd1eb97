-- ===== src/Workflow/Schema/Errors.antt =====
-- The errors of backend/app/workflows/schema.py: a constructor for each `raise`, with the names that
-- its field and message quote.
use eaistack.Base.{String, List}

pub data ValidationError : Type 0 where
  -- Pydantic refused the shape: the field and the message of its first error.
  malformed : String → String → ValidationError
  undefined_entry : String → ValidationError
  unknown_tool unknown_worker_tool : String → String → ValidationError
  too_many_iterations : String → ValidationError
  undefined_target : String → String → ValidationError
  unreachable_steps : List String → ValidationError
  duplicate_case too_many_runs too_many_passes no_checks : String → ValidationError
  not_a_route_step not_a_branch not_a_review_loop : String → String → ValidationError
  rounds_out_of_range : String → ValidationError
  unknown_tool_called : String → String → ValidationError
  regex_in_schema bad_json_schema : String → ValidationError
  suite_too_long : ValidationError

-- ===== src/Guardrails/Turn.antt =====
-- `filter_agent_response` of backend/app/services/chat_guardrail_service.py and `run_chat_turn` of
-- backend/app/services/chat_turn_service.py. What the workflow's graph answers is an argument.
use eaistack.Base.{ℕ, String, Bool, true, false, not, none, some, List, [], ◌∷◌, if◌then◌else◌}
use eaistack.Base.Dict.{Dict}
use eaistack.Base.Text.{Text, codes}
use eaistack.Settings.Trail.{AuditLog, record_entry, change}
use eaistack.Threads.{Threads, touch}
use eaistack.Workflow.Versions.Turns.{ChatTurnVersion, NewTurn, record_turn}
use eaistack.Workflow.Primitives.Review.{Message, human, ai, tool, Source}
use eaistack.Workflow.Primitives.Turn.{extract_sources_from_messages, tools_called_in_current_turn}
use eaistack.Guardrails.Input.{GuardrailConfig}
use eaistack.Guardrails.Output.{Python, OutputGuardrailResult, filter_output}

-- The result with the log after it.
unfoldable pub filter_agent_response :
    Python
    → GuardrailConfig
    → Text
    → Text
    → String
    → String
    → ℕ
    → List AuditLog
    → OutputGuardrailResult × List AuditLog
filter_agent_response py config final_text system_prompt actor thread_id now log =
    let result = filter_output py final_text (some system_prompt) in
    let entry = change "guardrail.output_redacted" actor now "response" none (some thread_id) in
    if not config.output_enabled
    then (record { text = final_text; was_modified = false }, log)
    else if result.was_modified
    then (result, record_entry entry log)
    else (result, log)

pub data RunKind : Type 0 where
  production test eval : RunKind

abbrev pub is_production : RunKind → Bool
is_production production = true
is_production test = false
is_production eval = false

-- What the graph's run leaves.
pub record AgentResult : Type 0 where
  pub thread_id : String
  pub messages : List Message
  pub step_outputs : Dict String String

pub record ResolvedWorkflow : Type 0 where
  pub workflow_name : String
  pub version_id : String
  pub guarded_prompt_text : String

pub record ChatTurnOutcome : Type 0 where
  pub text : Text
  pub thread_id : String
  pub sources : List Source
  pub was_modified : Bool
  pub step_outputs : Dict String String
  pub tools_called : List String

pub record TurnTables : Type 0 where
  pub log : List AuditLog
  pub threads : Threads
  pub turns : List ChatTurnVersion

abbrev pub text_of : Message → Text
text_of (human content) = codes content
text_of (ai content calls) = codes content
text_of (tool content sources) = codes content

-- `result["messages"][-1]`; a run leaves at least the message it was given.
abbrev pub last_text : List Message → Text
last_text [] = []
last_text (m ∷ []) = text_of m
last_text (m ∷ n ∷ messages) = last_text (n ∷ messages)

-- `id` is drawn for the row of the turn.
unfoldable pub run_chat_turn :
    Python
    → GuardrailConfig
    → String
    → String
    → String
    → ResolvedWorkflow
    → RunKind
    → ℕ
    → AgentResult
    → TurnTables
    → ChatTurnOutcome × TurnTables
run_chat_turn py config id user_id thread_id workflow run_kind now result s =
    let filtered =
      filter_agent_response py config (last_text result.messages)
        (codes workflow.guarded_prompt_text) user_id thread_id now s.log in
    let new : NewTurn = record {
      user_id = user_id;
      thread_id = thread_id;
      workflow_name = workflow.workflow_name;
      workflow_version_id = workflow.version_id;
      is_test_run = not (is_production run_kind);
      now = now;
    } in
    (
      record {
        text = filtered.0.text;
        thread_id = result.thread_id;
        sources = extract_sources_from_messages result.messages;
        was_modified = filtered.0.was_modified;
        step_outputs = result.step_outputs;
        tools_called = tools_called_in_current_turn result.messages;
      },
      record {
        log = filtered.1;
        threads = touch thread_id now s.threads;
        turns = (record_turn id new s.turns).1;
      },
    )

-- ===== src/Settings/Trail.antt =====
-- The audit entries of a change of settings, backend/app/api/settings.py and
-- backend/app/repositories/audit_log_repository.py. The log is kept newest first. `str` of a number is a
-- parameter.
use eaistack.Base.{
  ℕ, String, Bool, true, false, Option, none, some, List, [], ◌∷◌, ◌==◌, string_eq, option_eq,
  if◌then◌else◌,
}
use eaistack.Base.Dict
use eaistack.Base.Dict.{Dict}
use eaistack.Workflow.Primitives.{Numerals}
use eaistack.Settings.Row.{SystemSettings}

pub record AuditLog : Type 0 where
  pub actor_user_id : String
  pub action : String
  pub field_name : String
  pub old_value : Option String
  pub new_value : Option String
  pub created_at : ℕ

-- `AuditLogRepository.record`
unfoldable pub record_entry : AuditLog → List AuditLog → List AuditLog
record_entry entry log = entry ∷ log

abbrev pub str_bool : Bool → String
str_bool true = "True"
str_bool false = "False"

-- `None if x is None else str(x)`
abbrev pub shown {ℓ} : {A : Type ℓ} → (A → String) → Option A → Option String
shown str none = none
shown str (some x) = some (str x)

-- A name of `fields` with what `getattr` and `str` give for it.
abbrev pub Column : Type 0
Column = String × (SystemSettings → Option String)

abbrev pub value_of : (SystemSettings → Option String) → Option SystemSettings → Option String
value_of get none = none
value_of get (some row) = get row

-- `_*_override_values`
unfoldable pub override_values : List Column → Option SystemSettings → Dict String (Option String)
override_values [] row = []
override_values ((field, get) ∷ columns) row =
    (field, value_of get row) ∷ override_values columns row

abbrev pub retention_columns : Numerals → List Column
retention_columns n =
    ("conversation_retention_hours", λ r. shown n.str r.conversation_retention_hours)
    ∷ ("cleanup_on_logout", λ r. shown str_bool r.cleanup_on_logout)
    ∷ ("knowledge_base_purge_days", λ r. shown n.str r.knowledge_base_purge_days)
    ∷ ("api_key_purge_days", λ r. shown n.str r.api_key_purge_days)
    ∷ ("chat_turn_version_retention_days", λ r. shown n.str r.chat_turn_version_retention_days)
    ∷ []

abbrev pub guardrail_columns : Numerals → List Column
guardrail_columns n =
    ("max_input_length", λ r. shown n.str r.max_input_length)
    ∷ ("guardrails_input_enabled", λ r. shown str_bool r.guardrails_input_enabled)
    ∷ ("guardrails_output_enabled", λ r. shown str_bool r.guardrails_output_enabled)
    ∷ []

abbrev pub tracing_columns : Numerals → List Column
tracing_columns n = ("tracing_enabled", λ r. shown str_bool r.tracing_enabled) ∷ []

abbrev pub rate_limit_columns : Numerals → List Column
rate_limit_columns n =
    ("rate_limit_enabled", λ r. shown str_bool r.rate_limit_enabled)
    ∷ ("rate_limit_chat_capacity", λ r. shown n.str r.rate_limit_chat_capacity)
    ∷ ("rate_limit_chat_refill_per_minute", λ r. shown n.str r.rate_limit_chat_refill_per_minute)
    ∷ ("rate_limit_auth_capacity", λ r. shown n.str r.rate_limit_auth_capacity)
    ∷ ("rate_limit_auth_refill_per_minute", λ r. shown n.str r.rate_limit_auth_refill_per_minute)
    ∷ []

abbrev pub audit_log_ui_columns : Numerals → List Column
audit_log_ui_columns n = ("audit_log_ui_enabled", λ r. shown str_bool r.audit_log_ui_enabled) ∷ []

abbrev pub retention_notice_columns : Numerals → List Column
retention_notice_columns n =
    ("retention_notice_enabled", λ r. shown str_bool r.retention_notice_enabled) ∷ []

abbrev pub rag_config_columns : Numerals → List Column
rag_config_columns n =
    ("rag_similarity_threshold", λ r. shown (λ x. x.repr) r.rag_similarity_threshold)
    ∷ ("rag_max_results", λ r. shown n.str r.rag_max_results)
    ∷ ("rag_min_chunk_size", λ r. shown n.str r.rag_min_chunk_size)
    ∷ ("rag_chunk_size", λ r. shown n.str r.rag_chunk_size)
    ∷ ("rag_chunk_overlap_ratio", λ r. shown (λ x. x.repr) r.rag_chunk_overlap_ratio)
    ∷ ("rag_max_excerpt_chars", λ r. shown n.str r.rag_max_excerpt_chars)
    ∷ []

abbrev pub eval_config_columns : Numerals → List Column
eval_config_columns n =
    ("eval_case_run_timeout_seconds", λ r. shown n.str r.eval_case_run_timeout_seconds) ∷ []

abbrev pub change : String → String → ℕ → String → Option String → Option String → AuditLog
change action actor now field old_value new_value = record {
  actor_user_id = actor;
  action = action;
  field_name = field;
  old_value = old_value;
  new_value = new_value;
  created_at = now;
}

-- `_record_*_changes` for one action; `none` is the KeyError of `previous[field]`.
unfoldable pub record_changes :
    String
    → String
    → ℕ
    → Dict String (Option String)
    → Dict String (Option String)
    → List AuditLog
    → Option (List AuditLog)
record_changes action actor now previous [] log = some log
record_changes action actor now previous ((field, new_value) ∷ current) log =
    elim (Dict.lookup field previous) [
      | none ↦ none
      | some old_value ↦
          let unchanged = record_changes action actor now previous current log in
          let changed =
            record_changes action actor now previous current
              (record_entry (change action actor now field old_value new_value) log) in
          if old_value == new_value then unchanged else changed
    ]

-- The actions with the columns that each of them records, in the order of the handler.
abbrev pub families : Numerals → List (String × List Column)
families n =
    ("retention.update", retention_columns n)
    ∷ ("guardrail.config_update", guardrail_columns n)
    ∷ ("tracing.config_update", tracing_columns n)
    ∷ ("rate_limit.config_update", rate_limit_columns n)
    ∷ ("audit_log_ui.config_update", audit_log_ui_columns n)
    ∷ ("retention_notice.config_update", retention_notice_columns n)
    ∷ ("rag_config.config_update", rag_config_columns n)
    ∷ ("eval_config.config_update", eval_config_columns n)
    ∷ []

-- The handler's calls of `_record_*_changes`, one family after the other.
unfoldable pub record_families :
    String
    → ℕ
    → Option SystemSettings
    → SystemSettings
    → List (String × List Column)
    → List AuditLog
    → Option (List AuditLog)
record_families actor now before after [] log = some log
record_families actor now before after ((action, columns) ∷ rest) log =
    elim (record_changes action actor now (override_values columns before)
      (override_values columns (some after)) log) [
        | none ↦ none
        | some logged ↦ record_families actor now before after rest logged
      ]

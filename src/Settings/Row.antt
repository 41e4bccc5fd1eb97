-- ===== src/Settings/Row.antt =====
-- The settings row of backend/app/db/models.py, what an administrator sends to change it
-- (backend/app/api/schemas.py), and backend/app/repositories/system_settings_repository.py. A column is
-- `none` where nothing is set. The request's bounds are checked before the handler and are not modelled.
use eaistack.Base.{ℕ, String, Bool, Option}

-- A float is its shortest decimal, which is all that the program reads of it here.
pub record Float : Type 0 where
  pub repr : String

pub record SystemSettings : Type 0 where
  pub llm_provider : Option String
  pub llm_url : Option String
  pub llm_model : Option String
  pub embedding_provider : Option String
  pub embedding_url : Option String
  pub embedding_model : Option String
  pub conversation_retention_hours : Option ℕ
  pub cleanup_on_logout : Option Bool
  pub knowledge_base_purge_days : Option ℕ
  pub api_key_purge_days : Option ℕ
  pub chat_turn_version_retention_days : Option ℕ
  pub max_input_length : Option ℕ
  pub guardrails_input_enabled : Option Bool
  pub guardrails_output_enabled : Option Bool
  pub tracing_enabled : Option Bool
  pub rate_limit_enabled : Option Bool
  pub rate_limit_chat_capacity : Option ℕ
  pub rate_limit_chat_refill_per_minute : Option ℕ
  pub rate_limit_auth_capacity : Option ℕ
  pub rate_limit_auth_refill_per_minute : Option ℕ
  pub audit_log_ui_enabled : Option Bool
  pub retention_notice_enabled : Option Bool
  pub rag_similarity_threshold : Option Float
  pub rag_max_results : Option ℕ
  pub rag_min_chunk_size : Option ℕ
  pub rag_chunk_size : Option ℕ
  pub rag_chunk_overlap_ratio : Option Float
  pub rag_max_excerpt_chars : Option ℕ
  pub eval_case_run_timeout_seconds : Option ℕ
  pub updated_by : String

pub record UpdateSettingsRequest : Type 0 where
  pub llm_provider : Option String
  pub llm_url : Option String
  pub llm_model : Option String
  pub embedding_provider : Option String
  pub embedding_url : Option String
  pub embedding_model : Option String
  pub conversation_retention_hours : Option ℕ
  pub cleanup_on_logout : Option Bool
  pub knowledge_base_purge_days : Option ℕ
  pub api_key_purge_days : Option ℕ
  pub chat_turn_version_retention_days : Option ℕ
  pub max_input_length : Option ℕ
  pub guardrails_input_enabled : Option Bool
  pub guardrails_output_enabled : Option Bool
  pub tracing_enabled : Option Bool
  pub rate_limit_enabled : Option Bool
  pub rate_limit_chat_capacity : Option ℕ
  pub rate_limit_chat_refill_per_minute : Option ℕ
  pub rate_limit_auth_capacity : Option ℕ
  pub rate_limit_auth_refill_per_minute : Option ℕ
  pub audit_log_ui_enabled : Option Bool
  pub retention_notice_enabled : Option Bool
  pub rag_similarity_threshold : Option Float
  pub rag_max_results : Option ℕ
  pub rag_min_chunk_size : Option ℕ
  pub rag_chunk_size : Option ℕ
  pub rag_chunk_overlap_ratio : Option Float
  pub rag_max_excerpt_chars : Option ℕ
  pub eval_case_run_timeout_seconds : Option ℕ

-- Every column is written, whether the row exists or not.
unfoldable pub upsert : UpdateSettingsRequest → String → SystemSettings
upsert payload updated_by = record {
  llm_provider = payload.llm_provider;
  llm_url = payload.llm_url;
  llm_model = payload.llm_model;
  embedding_provider = payload.embedding_provider;
  embedding_url = payload.embedding_url;
  embedding_model = payload.embedding_model;
  conversation_retention_hours = payload.conversation_retention_hours;
  cleanup_on_logout = payload.cleanup_on_logout;
  knowledge_base_purge_days = payload.knowledge_base_purge_days;
  api_key_purge_days = payload.api_key_purge_days;
  chat_turn_version_retention_days = payload.chat_turn_version_retention_days;
  max_input_length = payload.max_input_length;
  guardrails_input_enabled = payload.guardrails_input_enabled;
  guardrails_output_enabled = payload.guardrails_output_enabled;
  tracing_enabled = payload.tracing_enabled;
  rate_limit_enabled = payload.rate_limit_enabled;
  rate_limit_chat_capacity = payload.rate_limit_chat_capacity;
  rate_limit_chat_refill_per_minute = payload.rate_limit_chat_refill_per_minute;
  rate_limit_auth_capacity = payload.rate_limit_auth_capacity;
  rate_limit_auth_refill_per_minute = payload.rate_limit_auth_refill_per_minute;
  audit_log_ui_enabled = payload.audit_log_ui_enabled;
  retention_notice_enabled = payload.retention_notice_enabled;
  rag_similarity_threshold = payload.rag_similarity_threshold;
  rag_max_results = payload.rag_max_results;
  rag_min_chunk_size = payload.rag_min_chunk_size;
  rag_chunk_size = payload.rag_chunk_size;
  rag_chunk_overlap_ratio = payload.rag_chunk_overlap_ratio;
  rag_max_excerpt_chars = payload.rag_max_excerpt_chars;
  eval_case_run_timeout_seconds = payload.eval_case_run_timeout_seconds;
  updated_by = updated_by;
}

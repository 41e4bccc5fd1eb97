-- ===== src/Settings/Tests.antt =====
-- Witnesses: an administrator who sets both chunk sizes, then inverts them.
use eaistack.Base.{ℕ, none, some, [], ◌∷◌, ◌≡◌, refl, string_eq, arith}
use eaistack.Base.Dict
use eaistack.Base.Result.{ok}
use eaistack.RateLimit.Config.{resolve_field}
use eaistack.Workflow.Primitives.{Numerals}
use eaistack.Settings.Row.{UpdateSettingsRequest, upsert}
use eaistack.Settings.Trail.{override_values, record_changes, record_entry, record_families}
use eaistack.Settings.Update.{
  Environment, Store, Request, update_settings, update_all, handled, llm_options, embedding_options,
  provider_option, check_known, check_url, check_chunk_bounds, resolve_llm_config,
  resolve_embedding_config, resolve_rag_config,
}
use eaistack.Settings.Audited.{IsReplayed, unset, unset-IsReplayed, update_all-IsReplayed}
use eaistack.Settings.Configured.{
  IsAnswer, IsConfigured, IsOrdered, update_settings-answers, update_settings-IsOrdered,
}

abbrev numerals : Numerals
numerals = record { str = λ k. "1"; int = λ s. some 1 }

abbrev env : Environment
env = record {
  llm = record { provider = "fake"; url = ""; model = "m"; api_key = none; timeout = 60 };
  embedding = record { provider = "fake"; url = ""; model = "e"; timeout = 60 };
  rag = record {
    similarity_threshold = none;
    max_results = 5;
    min_chunk_size = 100;
    chunk_size = 1000;
    chunk_overlap_ratio = record { repr = "0.1" };
    max_excerpt_chars = 400;
  };
}

abbrev sizes : ℕ → ℕ → UpdateSettingsRequest
sizes smallest largest = record {
  llm_provider = some "llama-cpp";
  llm_url = none;
  llm_model = none;
  embedding_provider = none;
  embedding_url = none;
  embedding_model = none;
  conversation_retention_hours = some 0;
  cleanup_on_logout = none;
  knowledge_base_purge_days = none;
  api_key_purge_days = none;
  chat_turn_version_retention_days = none;
  max_input_length = none;
  guardrails_input_enabled = none;
  guardrails_output_enabled = none;
  tracing_enabled = none;
  rate_limit_enabled = none;
  rate_limit_chat_capacity = none;
  rate_limit_chat_refill_per_minute = none;
  rate_limit_auth_capacity = none;
  rate_limit_auth_refill_per_minute = none;
  audit_log_ui_enabled = none;
  retention_notice_enabled = none;
  rag_similarity_threshold = none;
  rag_max_results = none;
  rag_min_chunk_size = some smallest;
  rag_chunk_size = some largest;
  rag_chunk_overlap_ratio = none;
  rag_max_excerpt_chars = none;
  eval_case_run_timeout_seconds = none;
}

abbrev asked : ℕ → ℕ → ℕ → Request
asked smallest largest now = record { payload = sizes smallest largest; actor = "ada"; now = now }

update_all-IsReplayed_example :
    IsReplayed numerals (update_all numerals env (asked 200 400 1 ∷ asked 400 200 2 ∷ []) unset)
update_all-IsReplayed_example =
    update_all-IsReplayed numerals env (asked 200 400 1 ∷ asked 400 200 2 ∷ []) unset
      (unset-IsReplayed numerals)

defaults-IsConfigured : IsConfigured env none
unfolding resolve_llm_config resolve_embedding_config llm_options embedding_options provider_option
    Dict.lookup resolve_field
defaults-IsConfigured = (refl, refl)

update_settings-answers_example :
    IsAnswer (
      handled numerals env (asked 400 200 2) (update_all numerals env (asked 200 400 1 ∷ []) unset))
update_settings-answers_example =
    update_settings-answers numerals env (asked 200 400 1 ∷ []) (asked 400 200 2) unset
      defaults-IsConfigured defaults-IsConfigured (unset-IsReplayed numerals)

-- What the first change makes.
abbrev changed : Store
changed = update_all numerals env (asked 200 400 1 ∷ []) unset

accepted : update_settings numerals env (sizes 200 400) "ada" 1 unset ≡ ok changed
unfolding update_settings update_all check_known check_url check_chunk_bounds resolve_llm_config
    resolve_embedding_config resolve_rag_config llm_options embedding_options provider_option
    Dict.lookup resolve_field override_values record_changes record_entry record_families upsert
accepted = refl

update_settings-IsOrdered_example : IsOrdered (resolve_rag_config env.rag changed.row)
update_settings-IsOrdered_example =
    update_settings-IsOrdered numerals env (sizes 200 400) "ada" 1 unset changed (omega arith) refl
      accepted

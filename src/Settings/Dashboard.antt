-- ===== src/Settings/Dashboard.antt =====
-- The read-only views of the settings and of the audit log: the remaining `*_config_service` modules of
-- backend/app/services, `list_recent` and `count_by_action_and_value_since` of
-- backend/app/repositories/audit_log_repository.py, backend/app/services/dashboard_service.py and the
-- retention notice of backend/app/api/settings.py. An instant is a number of microseconds here.
use eaistack.Base.{
  ℕ, suc, ◌+◌, ◌-◌, ◌*◌, String, Bool, ◌&&◌, Option, none, some, List, [], ◌∷◌, take, select,
  length, leb, ◌==◌, string_eq, option_eq, if◌then◌else◌,
}
use eaistack.Base.Dict
use eaistack.Base.Dict.{Dict}
use eaistack.RateLimit.Config.{resolve_field, column, RateLimitConfig, resolve_rate_limit_config}
use eaistack.RateLimit.Limiter.{Buckets}
use eaistack.Retention.{RetentionConfig}
use eaistack.Guardrails.Input.{limits_of}
use eaistack.Settings.Row.{SystemSettings}
use eaistack.Settings.Trail.{AuditLog}

-- The defaults of the process.
pub record Defaults : Type 0 where
  pub audit_log_ui_enabled : Bool
  pub retention_notice_enabled : Bool
  pub tracing_enabled : Bool
  pub eval_case_run_timeout_seconds : ℕ
  pub rate_limit : RateLimitConfig
  pub tracing_ui_url : String

pub record AuditLogUiConfig : Type 0 where
  pub enabled : Bool

unfoldable pub resolve_audit_log_ui_config : Defaults → Option SystemSettings → AuditLogUiConfig
resolve_audit_log_ui_config env row = record {
  enabled = resolve_field (column (λ r. r.audit_log_ui_enabled) row) env.audit_log_ui_enabled;
}

pub record RetentionNoticeConfig : Type 0 where
  pub enabled : Bool

unfoldable pub resolve_retention_notice_config :
    Defaults → Option SystemSettings → RetentionNoticeConfig
resolve_retention_notice_config env row = record {
  enabled =
      resolve_field (column (λ r. r.retention_notice_enabled) row) env.retention_notice_enabled;
}

pub record TracingConfig : Type 0 where
  pub enabled : Bool

unfoldable pub resolve_tracing_config : Defaults → Option SystemSettings → TracingConfig
resolve_tracing_config env row = record {
  enabled = resolve_field (column (λ r. r.tracing_enabled) row) env.tracing_enabled;
}

pub record EvalConfig : Type 0 where
  pub case_run_timeout_seconds : ℕ

unfoldable pub resolve_eval_config : Defaults → Option SystemSettings → EvalConfig
resolve_eval_config env row = record {
  case_run_timeout_seconds =
      resolve_field (column (λ r. r.eval_case_run_timeout_seconds) row)
        env.eval_case_run_timeout_seconds;
}

pub record RetentionNoticeResponse : Type 0 where
  pub conversation_retention_hours : Option ℕ
  pub cleanup_on_logout : Bool
  pub notice_enabled : Bool

-- The retention policy is resolved by `resolve_retention_config`.
unfoldable pub get_retention_notice :
    Defaults → RetentionConfig → Option SystemSettings → RetentionNoticeResponse
get_retention_notice env retention row = record {
  conversation_retention_hours = retention.conversation_retention_hours;
  cleanup_on_logout = retention.cleanup_on_logout;
  notice_enabled = (resolve_retention_notice_config env row).enabled;
}

-- The log is kept newest first.
unfoldable pub list_recent : ℕ → List AuditLog → List AuditLog
list_recent limit log = take limit log

abbrev pub is_counted : String → ℕ → AuditLog → Bool
is_counted action since e = e.action == action && leb since e.created_at

abbrev pub one_more : Option ℕ → ℕ
one_more none = 1
one_more (some n) = suc n

-- `group_by(AuditLog.new_value)` with the count of each group; the first group is that of the last entry.
unfoldable pub group_counts : List AuditLog → Dict (Option String) ℕ
group_counts [] = []
group_counts (e ∷ log) =
    let groups = group_counts log in
    Dict.insert e.new_value (one_more (Dict.lookup e.new_value groups)) groups

-- `new_value or "unknown"`
abbrev pub name_of : Option String → String
name_of none = "unknown"
name_of (some value) = if value == "" then "unknown" else value

-- A name that comes again takes the later count.
unfoldable pub by_name : Dict (Option String) ℕ → Dict String ℕ → Dict String ℕ
by_name [] counts = counts
by_name ((value, count) ∷ groups) counts = by_name groups (Dict.insert (name_of value) count counts)

unfoldable pub count_by_action_and_value_since : String → ℕ → List AuditLog → Dict String ℕ
count_by_action_and_value_since action since log =
    by_name (group_counts (select (is_counted action since) log)) []

abbrev pub recent_window : ℕ
recent_window = 24 * 3600 * 1000000

pub record RateLimitStatus : Type 0 where
  pub enabled : Bool
  pub active_bucket_count : ℕ

pub record GuardrailStatus : Type 0 where
  pub input_rejected_counts_by_pattern : Dict String ℕ
  pub output_redacted_count : ℕ

pub record TracingStatus : Type 0 where
  pub db_desired_enabled : Bool
  pub process_actually_configured : Bool
  pub phoenix_ui_url : String

pub record DashboardStatus : Type 0 where
  pub rate_limit : RateLimitStatus
  pub guardrails : GuardrailStatus
  pub tracing : TracingStatus

abbrev pub sum_values : Dict String ℕ → ℕ
sum_values [] = 0
sum_values ((k, n) ∷ counts) = n + sum_values counts

-- `configured` is what the tracing library says of the process.
unfoldable pub resolve_dashboard_status :
    Defaults → Bool → Option SystemSettings → Buckets → List AuditLog → ℕ → DashboardStatus
resolve_dashboard_status env configured row buckets log now =
    let since = now - recent_window in
    record {
      rate_limit = record {
        enabled = (resolve_rate_limit_config env.rate_limit (limits_of row)).enabled;
        active_bucket_count = length buckets;
      };
      guardrails = record {
        input_rejected_counts_by_pattern =
            count_by_action_and_value_since "guardrail.input_rejected" since log;
        output_redacted_count =
            sum_values (count_by_action_and_value_since "guardrail.output_redacted" since log);
      };
      tracing = record {
        db_desired_enabled = (resolve_tracing_config env row).enabled;
        process_actually_configured = configured;
        phoenix_ui_url = env.tracing_ui_url;
      };
    }

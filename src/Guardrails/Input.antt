-- ===== src/Guardrails/Input.antt =====
-- backend/app/guardrails/input_guardrail.py, the configuration that it runs under
-- (backend/app/services/guardrail_config_service.py), its audit entry
-- (backend/app/services/chat_guardrail_service.py) and the admission of a chat message
-- (backend/app/services/chat_turn_service.py). `str.lower`, the built-in patterns' `re.search` and the
-- database's order on ids are parameters.
use eaistack.Base.{
  ℕ, String, Bool, true, false, not, ◌&&◌, ◌||◌, Option, none, some, List, [], ◌∷◌, map, contains,
  select, any, ltb, length, string_eq, if◌then◌else◌,
}
use eaistack.Base.Dict.{Dict}
use eaistack.Base.Result.{Result, ok, err}
use eaistack.Base.Text.{Text, codes, strip}
use eaistack.RateLimit.Config.{
  RateLimitConfig, RateLimitSettings, resolve_rate_limit_config, resolve_field, column,
}
use eaistack.RateLimit.Bucket.{BucketError}
use eaistack.RateLimit.Limiter.{Buckets, RateLimitCheckResult, check_chat_rate_limit}
use eaistack.Settings.Row.{SystemSettings}
use eaistack.Settings.Trail.{AuditLog, record_entry, change}
use eaistack.Workflow.Primitives.{occurs}
use eaistack.Guardrails.Patterns.{
  is_custom, GuardrailPattern, Patterns, Store, ensure_built_ins_seeded, existing_built_in_ids,
}

pub record Python : Type 0 where
  pub lower : Text → Text
  -- Whether the built-in pattern of an id is found in a message.
  pub search : String → Text → Bool
  -- Whether an id comes before another one.
  pub precedes : String → String → Bool

pub data GuardrailVerdict : Type 0 where
  allowed rejected : GuardrailVerdict

pub record InputGuardrailResult : Type 0 where
  pub verdict : GuardrailVerdict
  pub reason : Option String
  pub message : Option String

-- The ids of `_PROMPT_INJECTION_PATTERNS` with their labels.
abbrev pub built_in_pattern_labels : Dict String String
built_in_pattern_labels =
    ("instruction_override", "Instruction override (ignore/disregard previous instructions)")
    ∷ (
      "instruction_override_forget_everything",
      "Instruction override (forget everything you were told)",
    )
    ∷ ("role_reassignment_dan", "Role reassignment (DAN / unrestricted persona)")
    ∷ ("role_reassignment_unrestricted", "Role reassignment (act as an unrestricted AI)")
    ∷ ("developer_mode", "Developer mode / no-restrictions claim")
    ∷ ("system_prefix_injection", "SYSTEM: prefix injection")
    ∷ ("system_prompt_exfiltration", "System prompt exfiltration (reveal/print/repeat)")
    ∷ ("system_prompt_exfiltration_reversed", "System prompt exfiltration (object-first phrasing)")
    ∷ []

abbrev pub prompt_injection_patterns : List String
prompt_injection_patterns = map (λ (p : String × String). p.0) built_in_pattern_labels

unfoldable pub is_prompt_injection : Python → Text → List String → List Text → Bool
is_prompt_injection py message enabled_pattern_ids custom_phrases =
    any (λ pattern_id. contains enabled_pattern_ids pattern_id && py.search pattern_id message)
      prompt_injection_patterns
    || any (λ phrase. occurs (py.lower phrase) (py.lower message)) custom_phrases

abbrev pub rejection : String → String → InputGuardrailResult
rejection reason message = record {
  verdict = rejected;
  reason = some reason;
  message = some message;
}

abbrev pub allowance : InputGuardrailResult
allowance = record { verdict = allowed; reason = none; message = none }

abbrev pub is_blank : Text → Bool
is_blank [] = true
is_blank (c ∷ s) = false

unfoldable pub check_input : Python → Text → ℕ → List String → List Text → InputGuardrailResult
check_input py message max_input_length enabled_pattern_ids custom_phrases =
    if is_blank (strip message)
    then rejection "input_empty" "That message couldn't be sent. Please enter a question."
    else if ltb max_input_length (length message)
    then rejection "input_too_long" "That message is too long. Please shorten it and try again."
    else if is_prompt_injection py message enabled_pattern_ids custom_phrases
    then rejection "prompt_injection_suspected"
        "That message couldn't be sent. Please rephrase your question."
    else allowance

pub record GuardrailConfig : Type 0 where
  pub max_input_length : ℕ
  pub input_enabled : Bool
  pub output_enabled : Bool
  pub enabled_pattern_ids : List String
  pub custom_phrases : List Text

-- The defaults of the process.
pub record GuardrailDefaults : Type 0 where
  pub max_input_length : ℕ
  pub guardrails_input_enabled : Bool
  pub guardrails_output_enabled : Bool

abbrev pub place : (String → String → Bool) → GuardrailPattern → Patterns → Patterns
place precedes row [] = row ∷ []
place precedes row (r ∷ rows) =
    let rest = place precedes row rows in if precedes row.id r.id then row ∷ r ∷ rows else r ∷ rest

-- `list_all`: the rows in the order of their ids.
unfoldable pub list_all : (String → String → Bool) → Patterns → Patterns
list_all precedes [] = []
list_all precedes (r ∷ rows) = place precedes r (list_all precedes rows)

abbrev pub is_enabled_built_in : GuardrailPattern → Bool
is_enabled_built_in r = not (is_custom r.source) && r.enabled

abbrev pub enabled_ids : Patterns → List String
enabled_ids rows = map (λ (r : GuardrailPattern). r.id) (select is_enabled_built_in rows)

abbrev pub phrase_before : Option String → List Text → List Text
phrase_before none phrases = phrases
phrase_before (some text) phrases = codes text ∷ phrases

unfoldable pub enabled_phrases : Patterns → List Text
enabled_phrases [] = []
enabled_phrases (r ∷ rows) =
    let rest = enabled_phrases rows in
    if is_custom r.source && r.enabled then phrase_before r.pattern_text rest else rest

unfoldable pub seeded : Patterns → Patterns
seeded rows =
    ensure_built_ins_seeded built_in_pattern_labels
      (existing_built_in_ids prompt_injection_patterns rows) rows

unfoldable pub resolve_guardrail_config :
    Python → GuardrailDefaults → Option SystemSettings → Patterns → GuardrailConfig
resolve_guardrail_config py env db_settings rows =
    let patterns = list_all py.precedes rows in
    record {
      max_input_length =
          resolve_field (column (λ r. r.max_input_length) db_settings) env.max_input_length;
      input_enabled =
          resolve_field (column (λ r. r.guardrails_input_enabled) db_settings)
            env.guardrails_input_enabled;
      output_enabled =
          resolve_field (column (λ r. r.guardrails_output_enabled) db_settings)
            env.guardrails_output_enabled;
      enabled_pattern_ids = enabled_ids patterns;
      custom_phrases = enabled_phrases patterns;
    }

abbrev pub is_rejected : GuardrailVerdict → Bool
is_rejected rejected = true
is_rejected allowed = false

abbrev pub audited_rejection : String → ℕ → InputGuardrailResult → List AuditLog → List AuditLog
audited_rejection actor now result log =
    if is_rejected result.verdict
    then record_entry (change "guardrail.input_rejected" actor now "message" none result.reason) log
    else log

-- The verdict with the log after it.
unfoldable pub check_input_guardrail :
    Python
    → GuardrailConfig
    → Text
    → String
    → ℕ
    → List AuditLog
    → InputGuardrailResult × List AuditLog
check_input_guardrail py config message actor now log =
    let result =
      check_input py message config.max_input_length config.enabled_pattern_ids
        config.custom_phrases in
    if config.input_enabled
    then (result, audited_rejection actor now result log)
    else (allowance, log)

pub record ChatAdmission : Type 0 where
  pub rate_limit : RateLimitCheckResult
  pub guardrail : Option InputGuardrailResult
  pub guardrail_config : GuardrailConfig

abbrev pub admitted_by : Option InputGuardrailResult → Bool
admitted_by none = false
admitted_by (some result) = not (is_rejected result.verdict)

abbrev pub admitted : ChatAdmission → Bool
admitted a = admitted_by a.guardrail

-- The tables that an admission reads and writes, and the buckets of the process.
pub record ChatState : Type 0 where
  pub patterns : Store
  pub buckets : Buckets

-- What follows a rate limit's answer.
abbrev pub after_rate_limit :
    Python
    → GuardrailConfig
    → String
    → Text
    → ℕ
    → Patterns
    → List AuditLog
    → Result BucketError RateLimitCheckResult × Buckets
    → Result BucketError ChatAdmission × ChatState
after_rate_limit py config user_id message now rows log (err e, buckets) =
    (err e, record { patterns = record { rows = rows; log = log }; buckets = buckets })
after_rate_limit py config user_id message now rows log (ok rate_limit, buckets) =
    let checked = check_input_guardrail py config message user_id now log in
    if rate_limit.allowed
    then (
      ok (record {
        rate_limit = rate_limit;
        guardrail = some checked.0;
        guardrail_config = config;
      }),
      record { patterns = record { rows = rows; log = checked.1 }; buckets = buckets },
    )
    else (
      ok (record { rate_limit = rate_limit; guardrail = none; guardrail_config = config }),
      record { patterns = record { rows = rows; log = log }; buckets = buckets },
    )

-- `limits` of the settings row are the columns that concern rate limiting.
abbrev pub limits : SystemSettings → RateLimitSettings
limits r = record {
  rate_limit_enabled = r.rate_limit_enabled;
  rate_limit_chat_capacity = r.rate_limit_chat_capacity;
  rate_limit_chat_refill_per_minute = r.rate_limit_chat_refill_per_minute;
  rate_limit_auth_capacity = r.rate_limit_auth_capacity;
  rate_limit_auth_refill_per_minute = r.rate_limit_auth_refill_per_minute;
}

abbrev pub limits_of : Option SystemSettings → Option RateLimitSettings
limits_of none = none
limits_of (some r) = some (limits r)

unfoldable pub admit_chat_message :
    Python
    → GuardrailDefaults
    → RateLimitConfig
    → Option SystemSettings
    → String
    → Text
    → ℕ
    → ChatState
    → Result BucketError ChatAdmission × ChatState
admit_chat_message py env limits_env db_settings user_id message now s =
    let rows = seeded s.patterns.rows in
    let config = resolve_guardrail_config py env db_settings rows in
    let limits_config = resolve_rate_limit_config limits_env (limits_of db_settings) in
    after_rate_limit py config user_id message now rows s.patterns.log (
      check_chat_rate_limit limits_env (limits_of db_settings) user_id now (some limits_config)
        s.buckets)

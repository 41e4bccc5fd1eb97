-- ===== src/Guardrails/Admission.antt =====
-- When a chat message is admitted, in terms of the rows of the pattern table and not of the lists that
-- the configuration makes of them.
use eaistack.Base.{
  ℕ, ◌≤◌, String, Bool, true, false, not, Option, none, some, List, ◌∷◌, any, ltb, length,
  string_eq, ◌≡◌, ◌↔◌, ◌⊎◌, refl, sym, ◌∙◌, ap, subst, arith, Bool-cases, inl, inr,
}
use eaistack.Base.Result.{Result, ok, err, ok-injective}
use eaistack.Base.Text.{Text, strip}
use eaistack.RateLimit.Config.{RateLimitConfig, resolve_field, column}
use eaistack.RateLimit.Bucket.{BucketError}
use eaistack.RateLimit.Limiter.{Buckets, RateLimitCheckResult}
use eaistack.Settings.Row.{SystemSettings}
use eaistack.Settings.Trail.{AuditLog, change, record_entry}
use eaistack.Guardrails.Patterns.{Patterns}
use eaistack.Guardrails.Input.{
  Python, is_prompt_injection, is_blank, check_input, GuardrailConfig, GuardrailDefaults, seeded,
  resolve_guardrail_config, is_rejected, check_input_guardrail, GuardrailVerdict, ChatAdmission,
  admitted, ChatState, after_rate_limit, admit_chat_message,
}
use eaistack.Guardrails.Trips.{
  if_true, if_false, not-false, not-true, trips, is_prompt_injection-trips,
}

-- The message is not refused: it is no blank, not too long, and no row refuses it.
abbrev pub IsClean : Python → ℕ → Patterns → Text → Type 0
IsClean py max_input_length rows message =
    (is_blank (strip message) ≡ false)
    × (length message ≤ max_input_length)
    × (any (trips py message) rows ≡ false)

not_over : (most n : ℕ) → (ltb most n ≡ false) ↔ (n ≤ most)
not_over most n = ground arith

check_input-allowed_iff :
    (py : Python) (message : Text) (most : ℕ) (ids : List String) (phrases : List Text)
    → (not (is_rejected (check_input py message most ids phrases).verdict) ≡ true) ↔ (
        (is_blank (strip message) ≡ false)
        × (length message ≤ most)
        × (is_prompt_injection py message ids phrases ≡ false))
unfolding check_input
check_input-allowed_iff py message most ids phrases = ground (arith, not_over most (length message))

guarded_iff :
    (py : Python) (config : GuardrailConfig) (message : Text) (actor : String) (now : ℕ)
    (log : List AuditLog)
    → (not (is_rejected (check_input_guardrail py config message actor now log).0.verdict) ≡ true)
      ↔ ((config.input_enabled ≡ false)
          ⊎ (not (
                is_rejected
                  (check_input py message config.max_input_length config.enabled_pattern_ids
                    config.custom_phrases).verdict)
              ≡ true))
unfolding check_input_guardrail
guarded_iff py config message actor now log = elim (Bool-cases config.input_enabled) [
  | inl on ↦ rw on ((λ h. inr h), λ h. elim h [ inl off ↦ absurd (cc (off)) | inr fine ↦ fine ])
  | inr off ↦ rw off ((λ h. inl refl), λ h. refl)
]

-- The log after an admission: one entry of a refusal with its reason, and none otherwise.
abbrev pub IsLogged : String → ℕ → ChatAdmission → List AuditLog → List AuditLog → Type 0
IsLogged actor now a before after =
    ((admitted a ≡ true) ⊎ (a.rate_limit.allowed ≡ false) → after ≡ before)
    × (a.rate_limit.allowed ≡ true
        → admitted a ≡ false
        → (reason : String) × (after
            ≡ change "guardrail.input_rejected" actor now "message" none (some reason) ∷ before))

check_input-reason :
    (py : Python) (message : Text) (most : ℕ) (ids : List String) (phrases : List Text)
    → is_rejected (check_input py message most ids phrases).verdict ≡ true
    → (reason : String) × ((check_input py message most ids phrases).reason ≡ some reason)
unfolding check_input
check_input-reason py message most ids phrases h = elim (Bool-cases (is_blank (strip message))) [
  | inl blank ↦ ("input_empty", rw blank refl)
  | inr text ↦ elim (Bool-cases (ltb most (length message))) [
    | inl long ↦ ("input_too_long", rw (text, long) refl)
    | inr short ↦ elim (Bool-cases (is_prompt_injection py message ids phrases)) [
      | inl trip ↦ ("prompt_injection_suspected", rw (text, short, trip) refl)
      | inr clean ↦ absurd (cc (rw (text, short, clean) at h))
    ]
  ]
]

module _ (py : Python) (config : GuardrailConfig) (message : Text) (actor : String) (now : ℕ)
    (log : List AuditLog) where
  abbrev verdict : GuardrailVerdict
  verdict = (check_input_guardrail py config message actor now log).0.verdict

  guarded_log :
      (is_rejected verdict ≡ false
        → (check_input_guardrail py config message actor now log).1 ≡ log)
      × (is_rejected verdict ≡ true
          → (reason : String) × ((check_input_guardrail py config message actor now log).1
              ≡ change "guardrail.input_rejected" actor now "message" none (some reason) ∷ log))
  unfolding check_input_guardrail record_entry
  guarded_log = elim (Bool-cases config.input_enabled) [
    | inr off ↦ rw off ((λ h. refl), λ h. cc)
    | inl on ↦
        let result =
          check_input py message config.max_input_length config.enabled_pattern_ids
            config.custom_phrases in
        elim (Bool-cases (is_rejected result.verdict)) [
          | inr fine ↦ rw (on, fine) ((λ h. refl), λ h. cc)
          | inl refused ↦
              let (reason, e) =
                check_input-reason py message config.max_input_length config.enabled_pattern_ids
                  config.custom_phrases refused in
              rw (on, refused, e) ((λ h. cc), λ h. (reason, refl))
        ]
  ]

abbrev Admits : Python → GuardrailConfig → Patterns → Text → ChatAdmission → Type 0
Admits py config rows message a = (admitted a ≡ true) ↔ (
    (a.rate_limit.allowed ≡ true)
    × ((config.input_enabled ≡ false) ⊎ IsClean py config.max_input_length rows message))

module _ (py : Python) (config : GuardrailConfig) (rows : Patterns) (message : Text)
    (actor : String) (now : ℕ) (log : List AuditLog) where
  abbrev Admitted : ChatAdmission → List AuditLog → Type 0
  Admitted a after = Admits py config rows message a × IsLogged actor now a log after

  abbrev limited : RateLimitCheckResult → ChatAdmission
  limited rate_limit = record {
    rate_limit = rate_limit;
    guardrail = none;
    guardrail_config = config;
  }

  abbrev checked : RateLimitCheckResult → ChatAdmission
  checked rate_limit = record {
    rate_limit = rate_limit;
    guardrail = some (check_input_guardrail py config message actor now log).0;
    guardrail_config = config;
  }

  Admitted-limited :
      (rate_limit : RateLimitCheckResult)
      → rate_limit.allowed ≡ false
      → Admitted (limited rate_limit) log
  Admitted-limited rate_limit h = (((λ x. cc), λ x. cc), ((λ x. refl), λ x. cc))

  Admitted-checked :
      (rate_limit : RateLimitCheckResult)
      → rate_limit.allowed ≡ true
      → is_prompt_injection py message config.enabled_pattern_ids config.custom_phrases
        ≡ any (trips py message) rows
      → Admitted (checked rate_limit) (check_input_guardrail py config message actor now log).1
  Admitted-checked rate_limit h same =
      let guarded = guarded_iff py config message actor now log in
      let clean =
        check_input-allowed_iff py message config.max_input_length config.enabled_pattern_ids
          config.custom_phrases in
      let logged = guarded_log py config message actor now log in
      (
        ground (arith, guarded, clean, same, h),
        (
          (λ x. elim x [
            | inl fine ↦ logged.0 (not-false _ fine)
            | inr late ↦ absurd (cc (late, h))
          ]),
          λ x refused. logged.1 (not-true _ refused),
        ),
      )

  after_rate_limit-Admitted :
      (answer : Result BucketError RateLimitCheckResult × Buckets) (a : ChatAdmission)
      (after : ChatState)
      → is_prompt_injection py message config.enabled_pattern_ids config.custom_phrases
        ≡ any (trips py message) rows
      → after_rate_limit py config actor message now rows log answer ≡ (ok a, after)
      → Admitted a after.patterns.log
  after_rate_limit-Admitted (err e, buckets) a after same h = cc (ap (λ p. p.0) h)
  after_rate_limit-Admitted (ok rate_limit, buckets) a after same h =
      elim (Bool-cases rate_limit.allowed) [
        | inl free ↦
            let made = sym (if_true rate_limit.allowed _ _ free) ∙ h in
            subst (λ x. Admitted x after.patterns.log) (ok-injective _ a (ap (λ p. p.0) made))
              (subst (λ l. Admitted (checked rate_limit) l) (ap (λ p. p.1.patterns.log) made)
                (Admitted-checked rate_limit free same))
        | inr late ↦
            let made = sym (if_false rate_limit.allowed _ _ late) ∙ h in
            subst (λ x. Admitted x after.patterns.log) (ok-injective _ a (ap (λ p. p.0) made))
              (subst (λ l. Admitted (limited rate_limit) l) (ap (λ p. p.1.patterns.log) made)
                (Admitted-limited rate_limit late))
      ]

abbrev pub input_limit : GuardrailDefaults → Option SystemSettings → ℕ
input_limit env db_settings =
    resolve_field (column (λ r. r.max_input_length) db_settings) env.max_input_length

abbrev pub input_checked : GuardrailDefaults → Option SystemSettings → Bool
input_checked env db_settings =
    resolve_field (column (λ r. r.guardrails_input_enabled) db_settings)
      env.guardrails_input_enabled

-- An admission that is answered admits the message exactly if the rate limit allows it and, unless the
-- input guardrail is off, the message is not blank, is within the limit in effect, and neither a built-in
-- pattern nor a phrase that is on in the seeded table is found in it. A refusal by the guardrail adds
-- one entry with its reason to the audit log, and no other admission adds one.
pub admit_chat_message-admitted_iff :
    (py : Python) (env : GuardrailDefaults) (limits_env : RateLimitConfig)
    (db_settings : Option SystemSettings) (user_id : String) (message : Text) (now : ℕ)
    (s after : ChatState) (a : ChatAdmission)
    → admit_chat_message py env limits_env db_settings user_id message now s ≡ (ok a, after)
    → ((admitted a ≡ true) ↔ (
        (a.rate_limit.allowed ≡ true)
        × ((input_checked env db_settings ≡ false)
            ⊎ IsClean py (input_limit env db_settings) (seeded s.patterns.rows) message)))
      × IsLogged user_id now a s.patterns.log after.patterns.log
unfolding admit_chat_message resolve_guardrail_config
admit_chat_message-admitted_iff py env limits_env db_settings user_id message now s after a h =
    let rows = seeded s.patterns.rows in
    after_rate_limit-Admitted py (resolve_guardrail_config py env db_settings rows) rows message
      user_id now s.patterns.log _ a after (is_prompt_injection-trips py message py.precedes rows) h

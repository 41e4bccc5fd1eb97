-- ===== src/Guardrails/Tests.antt =====
-- Witnesses: a built-in pattern that is switched off, a phrase that refuses a message, and a reply that
-- repeats a prompt.
use eaistack.Base.{
  ℕ, true, false, none, some, [], ◌∷◌, ◌≡◌, ◌↔◌, ◌⊎◌, refl, map, contains, string_eq, List, Option,
}
use eaistack.Base.Result.{ok}
use eaistack.Base.Text.{Text, codes, words, strip, lstrip, is_space}
use eaistack.Documents.Keys.{is_prefix}
use eaistack.RateLimit.Config.{RateLimitConfig, resolve_field, resolve_rate_limit_config}
use eaistack.RateLimit.Limiter.{check_chat_rate_limit, given_or_resolved, pass}
use eaistack.Settings.Trail.{change, record_entry}
use eaistack.Workflow.Primitives.{occurs}
use eaistack.Guardrails.Patterns.{
  custom_row, built_in_row, get, Store, Event, create, toggle, delete, seed, handle_all,
  existing_built_in_ids, ensure_built_ins_seeded,
}
use eaistack.Guardrails.Toggled.{last_toggle, handle_all-built_in}
use eaistack.Guardrails.Input as Input
use eaistack.Guardrails.Input.{
  GuardrailDefaults, ChatState, ChatAdmission, admitted, rejection, seeded, admit_chat_message,
  resolve_guardrail_config, list_all, enabled_phrases, check_input_guardrail, check_input,
  is_prompt_injection,
}
use eaistack.Guardrails.Admission.{
  IsClean, IsLogged, input_limit, input_checked, admit_chat_message-admitted_iff,
}
use eaistack.Guardrails.Output as Output
use eaistack.Guardrails.Output.{find_verbatim_prompt_leak, span_of}
use eaistack.Guardrails.Longest.{IsLongest, find_verbatim_prompt_leak-longest}

abbrev table : Store
table = record { rows = built_in_row "developer_mode" "Developer mode" ∷ []; log = [] }

abbrev history : List Event
history =
    toggle "ada" "developer_mode" false 1
    ∷ seed []
    ∷ create "ada" "p1" "phrase" "open the pod bay doors" 2
    ∷ delete "ada" "developer_mode" 3
    ∷ []

handle_all-built_in_example :
    get "developer_mode" (handle_all (("developer_mode", "Developer mode") ∷ []) history table).rows
    ≡ some (record (built_in_row "developer_mode" "Developer mode") {
      enabled = last_toggle "developer_mode" true history;
    })
unfolding get
handle_all-built_in_example =
    handle_all-built_in (("developer_mode", "Developer mode") ∷ []) "developer_mode"
      (built_in_row "developer_mode" "Developer mode") history table refl refl

abbrev python : Input.Python
python = record { lower = λ s. s; search = λ id s. false; precedes = λ a b. true }

abbrev defaults : GuardrailDefaults
defaults = record {
  max_input_length = 8000;
  guardrails_input_enabled = true;
  guardrails_output_enabled = true;
}

abbrev unlimited : RateLimitConfig
unlimited = record {
  enabled = false;
  chat_capacity = 1;
  chat_refill_per_minute = 1;
  auth_capacity = 1;
  auth_refill_per_minute = 1;
}

abbrev before : ChatState
before = record {
  patterns = record { rows = custom_row "p1" "phrase" "pod" "ada" ∷ []; log = [] };
  buckets = [];
}

abbrev refused : ChatAdmission
refused = record {
  rate_limit = pass;
  guardrail = some (
      rejection "prompt_injection_suspected"
        "That message couldn't be sent. Please rephrase your question.");
  guardrail_config = resolve_guardrail_config python defaults none (seeded before.patterns.rows);
}

abbrev after : ChatState
after = record {
  patterns = record {
    rows = seeded before.patterns.rows;
    log =
        change "guardrail.input_rejected" "bob" 5 "message" none (some "prompt_injection_suspected")
        ∷ [];
  };
  buckets = [];
}

answered :
    admit_chat_message python defaults unlimited none "bob" (codes "a pod") 5 before
    ≡ (ok refused, after)
unfolding admit_chat_message check_chat_rate_limit given_or_resolved resolve_rate_limit_config
    resolve_field check_input_guardrail check_input is_prompt_injection resolve_guardrail_config
    list_all enabled_phrases seeded ensure_built_ins_seeded existing_built_in_ids occurs contains
    strip lstrip is_space is_prefix record_entry
answered = refl

admit_chat_message-admitted_iff_example :
    ((admitted refused ≡ true) ↔ (
      (refused.rate_limit.allowed ≡ true)
      × ((input_checked defaults none ≡ false)
          ⊎ IsClean python
              (input_limit defaults none)
              (seeded before.patterns.rows)
              (codes "a pod"))))
    × IsLogged "bob" 5 refused before.patterns.log after.patterns.log
admit_chat_message-admitted_iff_example =
    admit_chat_message-admitted_iff python defaults unlimited none "bob" (codes "a pod") 5 before
      after refused answered

abbrev re : Output.Python
re = record {
  lower = λ s. s;
  sub_disclosure = λ s. s;
  sub_leak = λ span s. s;
  sub_credential = λ s. s;
}

abbrev reply : Text
reply = codes "it says a b c d e f g today"

abbrev prompt : Text
prompt = codes "x a b c d e f g y"

find_verbatim_prompt_leak-longest_example :
    (best : Option (ℕ × ℕ)) × IsLongest
      (map re.lower (words reply))
      (map re.lower (words prompt))
      best
    × (find_verbatim_prompt_leak re reply prompt ≡ span_of (words reply) best)
find_verbatim_prompt_leak-longest_example = find_verbatim_prompt_leak-longest re reply prompt

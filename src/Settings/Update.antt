-- ===== src/Settings/Update.antt =====
-- `update_settings` of backend/app/api/settings.py, the provider catalog and the resolution of the
-- providers (backend/app/services/system_settings_service.py) and of the retrieval settings
-- (backend/app/services/rag_config_service.py). `env` holds the defaults of the process.
use Prim.Native.String.{◌++◌ as ◌<>◌}
use eaistack.Base.{
  ℕ, String, Bool, true, false, ◌&&◌, Option, none, some, List, [], ◌∷◌, map, leb, ◌==◌, string_eq,
  option_eq, if◌then◌else◌,
}
use eaistack.Base.Dict
use eaistack.Base.Dict.{Dict}
use eaistack.Base.Result.{Result, ok, err, raise_if, ◌>>◌}
use eaistack.RateLimit.Config.{resolve_field, column}
use eaistack.Workflow.Primitives.{Numerals}
use eaistack.Workflow.Schema.{is_none}
use eaistack.Settings.Row.{SystemSettings, UpdateSettingsRequest, Float, upsert}
use eaistack.Settings.Trail.{AuditLog, families, record_families}

pub record LlmConfig : Type 0 where
  pub provider : String
  pub url : String
  pub model : String
  pub api_key : Option String
  pub timeout : ℕ

pub record EmbeddingConfig : Type 0 where
  pub provider : String
  pub url : String
  pub model : String
  pub timeout : ℕ

pub record RagConfig : Type 0 where
  pub similarity_threshold : Option Float
  pub max_results : ℕ
  pub min_chunk_size : ℕ
  pub chunk_size : ℕ
  pub chunk_overlap_ratio : Float
  pub max_excerpt_chars : ℕ

pub record Environment : Type 0 where
  pub llm : LlmConfig
  pub embedding : EmbeddingConfig
  pub rag : RagConfig

abbrev pub override {ℓ} : {A : Type ℓ} → (SystemSettings → Option A) → Option SystemSettings → A → A
override get row env_default = resolve_field (column get row) env_default

unfoldable pub resolve_llm_config : LlmConfig → Option SystemSettings → LlmConfig
resolve_llm_config env row = record {
  provider = override (λ r. r.llm_provider) row env.provider;
  url = override (λ r. r.llm_url) row env.url;
  model = override (λ r. r.llm_model) row env.model;
  api_key = env.api_key;
  timeout = env.timeout;
}

unfoldable pub resolve_embedding_config : EmbeddingConfig → Option SystemSettings → EmbeddingConfig
resolve_embedding_config env row = record {
  provider = override (λ r. r.embedding_provider) row env.provider;
  url = override (λ r. r.embedding_url) row env.url;
  model = override (λ r. r.embedding_model) row env.model;
  timeout = env.timeout;
}

-- The threshold's default may be none, and a row cannot set none.
abbrev pub or_default {ℓ} : {A : Type ℓ} → Option A → Option A → Option A
or_default none env_default = env_default
or_default (some a) env_default = some a

unfoldable pub resolve_rag_config : RagConfig → Option SystemSettings → RagConfig
resolve_rag_config env row = record {
  similarity_threshold =
      or_default (column (λ r. r.rag_similarity_threshold) row) env.similarity_threshold;
  max_results = override (λ r. r.rag_max_results) row env.max_results;
  min_chunk_size = override (λ r. r.rag_min_chunk_size) row env.min_chunk_size;
  chunk_size = override (λ r. r.rag_chunk_size) row env.chunk_size;
  chunk_overlap_ratio = override (λ r. r.rag_chunk_overlap_ratio) row env.chunk_overlap_ratio;
  max_excerpt_chars = override (λ r. r.rag_max_excerpt_chars) row env.max_excerpt_chars;
}

pub record ProviderOption : Type 0 where
  pub provider : String
  pub url : String
  pub label : String
  pub requires_manual_entry : Bool

unfoldable pub provider_option : String → String → String → String → ProviderOption
provider_option provider label configured_provider configured_url =
    let is_configured = provider == configured_provider in
    if provider == "fake"
    then record { provider = provider; url = ""; label = label; requires_manual_entry = false }
    else record {
      provider = provider;
      url = if is_configured then configured_url else "";
      label = if is_configured then label <> " (detected)" else label;
      requires_manual_entry = true;
    }

-- `_provider_options_by_category` for the two categories of `available_provider_options`.
abbrev pub Catalog : Type 0
Catalog = Dict String ProviderOption

abbrev pub by_provider : List ProviderOption → Catalog
by_provider options = map (λ (o : ProviderOption). (o.provider, o)) options

unfoldable pub llm_options : Environment → Catalog
llm_options env = by_provider (
    provider_option "fake" "Fake (mocked, for testing)" env.llm.provider env.llm.url
    ∷ provider_option "llama-cpp" "llama-cpp (local llama-server)" env.llm.provider env.llm.url
    ∷ provider_option "openai-compatible" "OpenAI-compatible (hosted endpoint)" env.llm.provider
        env.llm.url
    ∷ [])

unfoldable pub embedding_options : Environment → Catalog
embedding_options env = by_provider (
    provider_option "fake" "Fake (mocked, for testing)" env.embedding.provider env.embedding.url
    ∷ provider_option "llama-cpp" "llama-cpp (local embedding-server)" env.embedding.provider
        env.embedding.url
    ∷ [])

pub data SettingsError : Type 0 where
  unknown_provider : String → SettingsError
  url_required : String → SettingsError
  rag_chunk_size_bounds_inverted : ℕ → ℕ → SettingsError
  -- A KeyError of the catalog or of `previous[field]`, which is no answer of the handler.
  key_error : SettingsError

-- `if provider is not None and provider not in options`
unfoldable pub check_known : Catalog → Option String → Result SettingsError (Unit {0})
check_known options none = ok tt
check_known options (some provider) =
    raise_if (is_none (Dict.lookup provider options)) (unknown_provider provider)

-- `provider or resolved`
abbrev pub or_resolved : Option String → String → String
or_resolved none resolved = resolved
or_resolved (some provider) resolved = if provider == "" then resolved else provider

unfoldable pub check_url : Catalog → String → Option String → Result SettingsError (Unit {0})
check_url options provider url = elim (Dict.lookup provider options) [
  | none ↦ err key_error
  | some option ↦ raise_if (option.requires_manual_entry && url == some "") (url_required provider)
]

unfoldable pub check_chunk_bounds :
    RagConfig → UpdateSettingsRequest → Result SettingsError (Unit {0})
check_chunk_bounds current payload =
    let smallest = resolve_field payload.rag_min_chunk_size current.min_chunk_size in
    let largest = resolve_field payload.rag_chunk_size current.chunk_size in
    raise_if (leb largest smallest) (rag_chunk_size_bounds_inverted smallest largest)

-- The row, which may not exist yet, and the log.
pub record Store : Type 0 where
  pub row : Option SystemSettings
  pub log : List AuditLog

abbrev pub committed : SystemSettings → Option (List AuditLog) → Result SettingsError Store
committed row none = err key_error
committed row (some log) = ok (record { row = some row; log = log })

unfoldable pub update_settings :
    Numerals → Environment → UpdateSettingsRequest → String → ℕ → Store → Result SettingsError Store
update_settings n env payload actor now s = do
  check_known (llm_options env) payload.llm_provider
  check_known (embedding_options env) payload.embedding_provider
  check_url (llm_options env)
      (or_resolved payload.llm_provider (resolve_llm_config env.llm s.row).provider) payload.llm_url
  check_url (embedding_options env)
      (or_resolved payload.embedding_provider
        (resolve_embedding_config env.embedding s.row).provider)
      payload.embedding_url
  check_chunk_bounds (resolve_rag_config env.rag s.row) payload
  committed (upsert payload actor)
      (record_families actor now s.row (upsert payload actor) (families n) s.log)

pub record Request : Type 0 where
  pub payload : UpdateSettingsRequest
  pub actor : String
  pub now : ℕ

abbrev pub handled : Numerals → Environment → Request → Store → Result SettingsError Store
handled n env r s = update_settings n env r.payload r.actor r.now s

-- A refused request leaves the committed rows.
abbrev pub settled : Store → Result SettingsError Store → Store
settled s (ok after) = after
settled s (err e) = s

unfoldable pub update_all : Numerals → Environment → List Request → Store → Store
update_all n env [] s = s
update_all n env (r ∷ requests) s = update_all n env requests (settled s (handled n env r s))

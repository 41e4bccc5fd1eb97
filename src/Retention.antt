-- ===== src/Retention.antt =====
-- backend/app/services/retention_service.py: the purges of the retention sweep, over the tables that they
-- read. A time is the number of seconds since the first one that a datetime can hold. The object store is
-- the list of its keys, and a deletion that it refuses is not modelled.
pub mod Batches
pub mod Sweep
pub mod Rows
pub mod Spec
pub mod Cutoffs
pub mod Purges
pub mod Exact
pub mod Orphans
mod Tests
use eaistack.Base.{
  ℕ, ◌-◌, ◌*◌, if◌then◌else◌, String, Bool, false, Option, none, some, List, [], ltb, ◌==◌,
  string_eq,
}
use eaistack.RateLimit.Config.{resolve_field, column}
use eaistack.ApiKeys.{ApiKey}
use eaistack.Documents.{KnowledgeBase, Embedding}
use eaistack.Threads.{ConversationThread, Threads}
use eaistack.Workflow.Versions.Turns.{ChatTurnVersion}

pub record RetentionConfig : Type 0 where
  pub conversation_retention_hours : Option ℕ
  pub cleanup_on_logout : Bool
  pub knowledge_base_purge_days : Option ℕ
  pub api_key_purge_days : Option ℕ
  pub chat_turn_version_retention_days : Option ℕ

-- The columns of the settings row that concern retention; `none` where nothing is set.
pub record RetentionSettings : Type 0 where
  pub conversation_retention_hours : Option ℕ
  pub cleanup_on_logout : Option Bool
  pub knowledge_base_purge_days : Option ℕ
  pub api_key_purge_days : Option ℕ
  pub chat_turn_version_retention_days : Option ℕ

-- A window that was set replaces the default, which may keep forever.
unfoldable pub resolve_window : Option ℕ → Option ℕ → Option ℕ
unfolding resolve_field
resolve_window none env_default = env_default
resolve_window (some window) env_default = some window

unfoldable pub resolve_retention_config :
    RetentionConfig → Option RetentionSettings → RetentionConfig
unfolding resolve_window resolve_field
resolve_retention_config env db_settings = record {
  conversation_retention_hours =
      resolve_window (column (λ r. r.conversation_retention_hours) db_settings)
        env.conversation_retention_hours;
  cleanup_on_logout =
      resolve_field (column (λ r. r.cleanup_on_logout) db_settings) env.cleanup_on_logout;
  knowledge_base_purge_days =
      resolve_window (column (λ r. r.knowledge_base_purge_days) db_settings)
        env.knowledge_base_purge_days;
  api_key_purge_days =
      resolve_window (column (λ r. r.api_key_purge_days) db_settings) env.api_key_purge_days;
  chat_turn_version_retention_days =
      resolve_window (column (λ r. r.chat_turn_version_retention_days) db_settings)
        env.chat_turn_version_retention_days;
}

-- One checkpoint of a conversation; what it holds is opaque.
pub record ConversationCheckpoint : Type 0 where
  pub thread_id : String
  pub checkpoint : String
  pub checkpoint_metadata : String

-- The tables that a sweep reads, and the keys of the stored objects.
pub record Tables : Type 0 where
  pub threads : Threads
  pub checkpoints : List ConversationCheckpoint
  pub documents : List KnowledgeBase
  pub embeddings : List Embedding
  pub api_keys : List ApiKey
  pub turns : List ChatTurnVersion
  pub objects : List String

-- The unit is a second.
abbrev pub hour : ℕ
hour = 3600

abbrev pub day : ℕ
day = 24 * hour

-- `now - timedelta(...)`; `none` is an OverflowError.
unfoldable pub cutoff : ℕ → ℕ → Option ℕ
cutoff window now = if ltb now window then none else some (now - window)

-- A column that may be NULL compares as false then.
unfoldable pub is_set_before : ℕ → Option ℕ → Bool
is_set_before cutoff none = false
is_set_before cutoff (some at) = ltb at cutoff

unfoldable pub thread_expired : ℕ → ConversationThread → Bool
thread_expired cutoff t = ltb t.updated_at cutoff

unfoldable pub document_expired : ℕ → KnowledgeBase → Bool
document_expired cutoff d = is_set_before cutoff d.deleted_at

unfoldable pub api_key_expired : ℕ → ApiKey → Bool
api_key_expired cutoff k = is_set_before cutoff k.revoked_at

unfoldable pub turn_expired : ℕ → ChatTurnVersion → Bool
turn_expired cutoff t = ltb t.created_at cutoff

unfoldable pub owned : String → ConversationThread → Bool
owned user_id t = t.user_id == user_id

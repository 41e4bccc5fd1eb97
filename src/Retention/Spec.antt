-- ===== src/Retention/Spec.antt =====
-- What a sweep is meant to leave, by the rows alone: no ids, no batches, no early returns.
use eaistack.Base.{
  IsKey, ℕ, ◌+◌, ◌*◌, ltb, ◌||◌, false, String, Bool, not, Option, none, some, List, [], map,
  select, length, if◌then◌else◌, string_eq,
}
use eaistack.Threads.{ConversationThread}
use eaistack.Workflow.Versions.Turns.{ChatTurnVersion}
use eaistack.ApiKeys.{ApiKey}
use eaistack.Documents.{KnowledgeBase, Embedding}
use eaistack.Retention.{RetentionConfig, Tables, ConversationCheckpoint, hour, day}
use eaistack.Retention.Batches.{delete_in}
use eaistack.Retention.Sweep.{Purged, storage_keys}

abbrev pub is_older : ℕ → ℕ → Option ℕ → Bool
is_older window now none = false
is_older window now (some at) = ltb (at + window) now

-- Not changed for longer than the window.
abbrev pub thread_old : ℕ → ℕ → ConversationThread → Bool
thread_old hours now t = is_older (hours * hour) now (some t.updated_at)

-- Deleted, and for longer than the window.
abbrev pub document_old : ℕ → ℕ → KnowledgeBase → Bool
document_old days now d = is_older (days * day) now d.deleted_at

-- Revoked, and for longer than the window.
abbrev pub api_key_old : ℕ → ℕ → ApiKey → Bool
api_key_old days now k = is_older (days * day) now k.revoked_at

abbrev pub turn_old : ℕ → ℕ → ChatTurnVersion → Bool
turn_old days now t = is_older (days * day) now (some t.created_at)

-- The rows that a window keeps and how many it drops; no window keeps all.
abbrev pub kept : {R : Type 0} → (ℕ → ℕ → R → Bool) → Option ℕ → ℕ → List R → List R
kept expired none now rows = rows
kept expired (some window) now rows = select (λ r. not (expired window now r)) rows

abbrev pub expired_rows : {R : Type 0} → (ℕ → ℕ → R → Bool) → Option ℕ → ℕ → List R → List R
expired_rows expired none now rows = []
expired_rows expired (some window) now rows = select (expired window now) rows

-- The primary keys of the tables.
pub record IsKeyed (s : Tables) : Type 0 where
  pub threads_keyed : IsKey (λ (t : ConversationThread). t.id) s.threads
  pub documents_keyed : IsKey (λ (d : KnowledgeBase). d.id) s.documents
  pub api_keys_keyed : IsKey (λ (k : ApiKey). k.id) s.api_keys
  pub turns_keyed : IsKey (λ (t : ChatTurnVersion). t.id) s.turns

-- The tables after a sweep: each without its expired rows, checkpoints without those of an expired
-- conversation, embeddings without those of an expired document, and, where there is an object store,
-- its objects without those of an expired document.
abbrev pub swept : RetentionConfig → Bool → ℕ → Tables → Tables
swept config has_store now s =
    let threads = expired_rows thread_old config.conversation_retention_hours now s.threads in
    let documents = expired_rows document_old config.knowledge_base_purge_days now s.documents in
    record {
      threads = kept thread_old config.conversation_retention_hours now s.threads;
      checkpoints =
          delete_in (λ (c : ConversationCheckpoint). c.thread_id)
            (map (λ (t : ConversationThread). t.id) threads) s.checkpoints;
      documents = kept document_old config.knowledge_base_purge_days now s.documents;
      embeddings =
          delete_in (λ (e : Embedding). e.doc_id) (map (λ (d : KnowledgeBase). d.id) documents)
            s.embeddings;
      api_keys = kept api_key_old config.api_key_purge_days now s.api_keys;
      turns = kept turn_old config.chat_turn_version_retention_days now s.turns;
      objects =
          if has_store
          then delete_in (λ (key : String). key) (storage_keys documents) s.objects
          else s.objects;
    }

abbrev pub counted : RetentionConfig → ℕ → Tables → Purged
counted config now s = record {
  conversations =
      length (expired_rows thread_old config.conversation_retention_hours now s.threads);
  knowledge_base =
      length (expired_rows document_old config.knowledge_base_purge_days now s.documents);
  api_keys = length (expired_rows api_key_old config.api_key_purge_days now s.api_keys);
  chat_turn_versions =
      length (expired_rows turn_old config.chat_turn_version_retention_days now s.turns);
}

-- Whether a window reaches before the first time, so that its cutoff cannot be computed.
abbrev pub overflows : ℕ → Option ℕ → ℕ → Bool
overflows unit none now = false
overflows unit (some window) now = ltb now (window * unit)

-- How a sweep ends. A window that reaches too far back stops it and every row stays; that of the API keys or
-- of the turn records does so after the objects of the expired documents are deleted.
abbrev pub outcome : RetentionConfig → Bool → ℕ → Tables → Option Purged × Tables
outcome config has_store now s =
    if overflows hour config.conversation_retention_hours now
      || overflows day config.knowledge_base_purge_days now
    then (none, s)
    else if overflows day config.api_key_purge_days now
        || overflows day config.chat_turn_version_retention_days now
    then (none, record s { objects = (swept config has_store now s).objects })
    else (some (counted config now s), swept config has_store now s)

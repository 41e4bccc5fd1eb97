-- ===== src/Retention/Sweep.antt =====
-- The purges of backend/app/services/retention_service.py and the sweep that runs them, with the rollback
-- of its caller, backend/app/cli/retention_sweep.py. `more` is one less than the size of a batch. `none` is
-- the OverflowError of a cutoff.
use eaistack.Base.{
  ℕ, ◌*◌, String, Bool, Option, none, some, List, [], ◌∷◌, map, select, if◌then◌else◌,
}
use eaistack.Threads.{ConversationThread}
use eaistack.Workflow.Versions.Turns.{ChatTurnVersion}
use eaistack.ApiKeys.{ApiKey}
use eaistack.Documents.{KnowledgeBase, Embedding}
use eaistack.Retention.{
  cutoff, hour, day, RetentionConfig, Tables, ConversationCheckpoint, thread_expired,
  document_expired, api_key_expired, turn_expired, owned,
}
use eaistack.Retention.Batches.{delete_in_batches}

abbrev pub default_more : ℕ
default_more = 499

unfoldable pub purge_threads_by_id : ℕ → List String → Tables → ℕ × Tables
purge_threads_by_id more ids s =
    let (_, checkpoints) =
      delete_in_batches (λ (c : ConversationCheckpoint). c.thread_id) more ids s.checkpoints in
    let (purged, threads) =
      delete_in_batches (λ (t : ConversationThread). t.id) more ids s.threads in
    (purged, record s { checkpoints = checkpoints; threads = threads })

-- `if not ids: return 0`
unfoldable pub purge_threads_if_any : ℕ → List String → Tables → ℕ × Tables
purge_threads_if_any more [] s = (0, s)
purge_threads_if_any more (id ∷ ids) s = purge_threads_by_id more (id ∷ ids) s

abbrev pub thread_ids : (ConversationThread → Bool) → Tables → List String
thread_ids p s = map (λ (t : ConversationThread). t.id) (select p s.threads)

unfoldable pub purge_expired_conversations : ℕ → Option ℕ → ℕ → Tables → Option (ℕ × Tables)
purge_expired_conversations more none now s = some (0, s)
purge_expired_conversations more (some hours) now s = elim (cutoff (hours * hour) now) [
  | none ↦ none
  | some cutoff ↦ some (purge_threads_if_any more (thread_ids (thread_expired cutoff) s) s)
]

unfoldable pub purge_user_conversations : ℕ → String → Tables → ℕ × Tables
purge_user_conversations more user_id s = purge_threads_if_any more (thread_ids (owned user_id) s) s

-- `[row.storage_key for row in expired if row.storage_key is not None]`
unfoldable pub storage_keys : List KnowledgeBase → List String
storage_keys [] = []
storage_keys (d ∷ ds) = elim d.storage_key [
  | none ↦ storage_keys ds
  | some key ↦ key ∷ storage_keys ds
]

-- Every batch is one call of `delete_many`.
unfoldable pub delete_objects : ℕ → List String → List String → List String
delete_objects more keys objects = (delete_in_batches (λ (key : String). key) more keys objects).1

unfoldable pub purge_documents : ℕ → Bool → List KnowledgeBase → Tables → ℕ × Tables
purge_documents more has_store [] s = (0, s)
purge_documents more has_store (d ∷ ds) s =
    let expired = d ∷ ds in
    let ids = map (λ (e : KnowledgeBase). e.id) expired in
    let (_, embeddings) = delete_in_batches (λ (e : Embedding). e.doc_id) more ids s.embeddings in
    let (purged, documents) =
      delete_in_batches (λ (e : KnowledgeBase). e.id) more ids s.documents in
    let objects =
      if has_store then delete_objects more (storage_keys expired) s.objects else s.objects in
    (purged, record s { embeddings = embeddings; documents = documents; objects = objects })

unfoldable pub purge_expired_knowledge_base : ℕ → Bool → Option ℕ → ℕ → Tables → Option (ℕ × Tables)
purge_expired_knowledge_base more has_store none now s = some (0, s)
purge_expired_knowledge_base more has_store (some days) now s = elim (cutoff (days * day) now) [
  | none ↦ none
  | some cutoff ↦
      some (purge_documents more has_store (select (document_expired cutoff) s.documents) s)
]

unfoldable pub purge_api_keys : ℕ → List String → Tables → ℕ × Tables
purge_api_keys more [] s = (0, s)
purge_api_keys more (id ∷ ids) s =
    let (purged, api_keys) = delete_in_batches (λ (k : ApiKey). k.id) more (id ∷ ids) s.api_keys in
    (purged, record s { api_keys = api_keys })

unfoldable pub purge_expired_api_keys : ℕ → Option ℕ → ℕ → Tables → Option (ℕ × Tables)
purge_expired_api_keys more none now s = some (0, s)
purge_expired_api_keys more (some days) now s = elim (cutoff (days * day) now) [
  | none ↦ none
  | some cutoff ↦ some (
      purge_api_keys more (map (λ (k : ApiKey). k.id) (select (api_key_expired cutoff) s.api_keys))
        s)
]

unfoldable pub purge_turns : ℕ → List String → Tables → ℕ × Tables
purge_turns more [] s = (0, s)
purge_turns more (id ∷ ids) s =
    let (purged, turns) =
      delete_in_batches (λ (t : ChatTurnVersion). t.id) more (id ∷ ids) s.turns in
    (purged, record s { turns = turns })

unfoldable pub purge_expired_chat_turn_versions : ℕ → Option ℕ → ℕ → Tables → Option (ℕ × Tables)
purge_expired_chat_turn_versions more none now s = some (0, s)
purge_expired_chat_turn_versions more (some days) now s = elim (cutoff (days * day) now) [
  | none ↦ none
  | some cutoff ↦ some (
      purge_turns more (map (λ (t : ChatTurnVersion). t.id) (select (turn_expired cutoff) s.turns))
        s)
]

pub record Purged : Type 0 where
  pub conversations : ℕ
  pub knowledge_base : ℕ
  pub api_keys : ℕ
  pub chat_turn_versions : ℕ

-- A purge that raises ends the sweep. The caller rolls the rows back to those before the sweep; objects that
-- an earlier purge deleted are gone.
abbrev pub or_abort :
    Tables
    → Tables
    → Option (ℕ × Tables)
    → (ℕ → Tables → Option Purged × Tables)
    → Option Purged × Tables
or_abort start before none later = (none, record start { objects = before.objects })
or_abort start before (some (count, after)) later = later count after

unfoldable pub run_retention_sweep : RetentionConfig → Bool → ℕ → Tables → Option Purged × Tables
run_retention_sweep config has_store now s =
    or_abort s s
      (purge_expired_conversations default_more config.conversation_retention_hours now s)
      λ conversations s1.
        or_abort s s1
          (purge_expired_knowledge_base default_more has_store config.knowledge_base_purge_days now
            s1)
          λ knowledge_base s2.
            or_abort s s2 (purge_expired_api_keys default_more config.api_key_purge_days now s2)
              λ api_keys s3.
                or_abort s s3
                  (purge_expired_chat_turn_versions default_more
                    config.chat_turn_version_retention_days now s3)
                  λ turns s4. (
                    some (record {
                      conversations = conversations;
                      knowledge_base = knowledge_base;
                      api_keys = api_keys;
                      chat_turn_versions = turns;
                    }),
                    s4,
                  )

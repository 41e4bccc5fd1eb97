-- ===== src/Retention/Tests.antt =====
-- The theorems on retention at concrete tables: an hour, a day and never.
use eaistack.Base.{
  String, true, not, none, some, [], ◌∷◌, select, length, ◌≡◌, refl, string_eq, contains,
}
use eaistack.ApiKeys.{new_key}
use eaistack.Documents.{KnowledgeBase, Embedding}
use eaistack.Threads.{new_thread}
use eaistack.Retention.{RetentionConfig, Tables, owned}
use eaistack.Retention.Batches.{delete_in}
use eaistack.Retention.Spec.{IsKeyed, outcome}
use eaistack.Retention.Sweep.{storage_keys, run_retention_sweep, purge_user_conversations}
use eaistack.Retention.Exact.{run_retention_sweep_lem}
use eaistack.Retention.Orphans.{
  IsRooted, run_retention_sweep-IsRooted, purge_user_conversations_lem,
}

abbrev config : RetentionConfig
config = record {
  conversation_retention_hours = some 1;
  cleanup_on_logout = true;
  knowledge_base_purge_days = some 1;
  api_key_purge_days = none;
  chat_turn_version_retention_days = some 1;
}

abbrev document : String → String → KnowledgeBase
document id key = record {
  id = id;
  user_id = "ann";
  title = "one";
  content = "text";
  storage_key = some key;
  original_filename = some "one.txt";
  content_type = some "text/plain";
  doc_metadata = "";
  updated_at = 0;
  deleted_at = none;
}

abbrev chunk : String → String → Embedding
chunk id doc = record {
  id = id;
  doc_id = doc;
  chunk_index = 0;
  chunk_text = "text";
  heading_path = none;
  deleted_at = none;
}

abbrev tables : Tables
tables = record {
  threads = new_thread "t1" "ann" "chat" none 0 ∷ new_thread "t2" "bob" "chat" none 99000 ∷ [];
  checkpoints =
      record { thread_id = "t1"; checkpoint = "a"; checkpoint_metadata = "" }
      ∷ record { thread_id = "t2"; checkpoint = "b"; checkpoint_metadata = "" }
      ∷ [];
  documents = record (document "d1" "k1") { deleted_at = some 0 } ∷ document "d2" "k2" ∷ [];
  embeddings = chunk "e1" "d1" ∷ chunk "e2" "d2" ∷ [];
  api_keys = record (new_key "k" "ann" "key" "custom" "secret" 0) { revoked_at = some 0 } ∷ [];
  turns = [];
  objects = "k1" ∷ "k2" ∷ [];
}

tables-IsKeyed : IsKeyed tables
unfolding contains
tables-IsKeyed = record {
  threads_keyed = (refl, (refl, tt));
  documents_keyed = (refl, (refl, tt));
  api_keys_keyed = (refl, tt);
  turns_keyed = tt;
}

tables-IsRooted : IsRooted tables
unfolding contains
tables-IsRooted = ((refl, (refl, tt)), (refl, (refl, tt)))

run_retention_sweep_lem_example :
    run_retention_sweep config true 100000 tables ≡ outcome config true 100000 tables
run_retention_sweep_lem_example = run_retention_sweep_lem config true 100000 tables tables-IsKeyed

run_retention_sweep-IsRooted_example : IsRooted (run_retention_sweep config true 100000 tables).1
run_retention_sweep-IsRooted_example =
    run_retention_sweep-IsRooted config true 100000 tables tables-IsKeyed tables-IsRooted

purge_user_conversations_lem_example :
    let (purged, after) = purge_user_conversations 0 "bob" tables in
    (purged ≡ length (select (owned "bob") tables.threads))
    × (after ≡ record tables {
      threads = select (λ t. not (owned "bob" t)) tables.threads;
      checkpoints = after.checkpoints;
    })
    × IsRooted after
purge_user_conversations_lem_example =
    purge_user_conversations_lem 0 "bob" tables tables-IsKeyed tables-IsRooted

-- The window of the API keys reaches before the first date: the expired document's object is gone.
stopped_sweep :
    run_retention_sweep (record config { api_key_purge_days = some 2 }) true 100000 tables
    ≡ (none, record tables { objects = "k2" ∷ [] })
unfolding delete_in contains storage_keys
stopped_sweep =
    run_retention_sweep_lem (record config { api_key_purge_days = some 2 }) true 100000 tables
      tables-IsKeyed

-- ===== src/Retention/Purges.antt =====
-- Each purge of the sweep leaves and counts what the description by rows says.
use eaistack.Base.{
  IsKey, ℕ, String, Bool, true, false, Option, none, some, List, [], ◌∷◌, map, select, length,
  if◌then◌else◌, ◌≡◌, refl, ap, ◌∙◌, string_eq,
}
use eaistack.Threads.{ConversationThread}
use eaistack.Workflow.Versions.Turns.{ChatTurnVersion}
use eaistack.ApiKeys.{ApiKey}
use eaistack.Documents.{KnowledgeBase, Embedding}
use eaistack.Retention.{Tables, ConversationCheckpoint, hour, day}
use eaistack.Retention.Batches.{
  delete_in, deleted_in, delete_in_batches_lem, delete_none, deleted_none,
}
use eaistack.Retention.Sweep.{
  purge_threads_by_id, purge_threads_if_any, thread_ids, purge_expired_conversations, storage_keys,
  delete_objects, purge_documents, purge_expired_knowledge_base, purge_api_keys,
  purge_expired_api_keys, purge_turns, purge_expired_chat_turn_versions,
}
use eaistack.Retention.Rows.{delete_selected}
use eaistack.Retention.Spec.{
  kept, expired_rows, thread_old, document_old, api_key_old, turn_old, overflows,
}
use eaistack.Retention.Cutoffs.{conversations_in, documents_in, api_keys_in, turns_in}

-- The effect of the purge of conversations with the given ids, empty or not.
pub threads_if_any :
    (more : ℕ) (ids : List String) (s : Tables)
    → purge_threads_if_any more ids s ≡ (
      deleted_in (λ (t : ConversationThread). t.id) ids s.threads,
      record s {
        checkpoints = delete_in (λ (c : ConversationCheckpoint). c.thread_id) ids s.checkpoints;
        threads = delete_in (λ (t : ConversationThread). t.id) ids s.threads;
      },
    )
unfolding purge_threads_if_any purge_threads_by_id
threads_if_any more [] s = cc (
  delete_none (λ (t : ConversationThread). t.id) s.threads,
  delete_none (λ (c : ConversationCheckpoint). c.thread_id) s.checkpoints,
  deleted_none (λ (t : ConversationThread). t.id) s.threads,
)
threads_if_any more (id ∷ ids) s =
    rw
      (
        delete_in_batches_lem (λ (c : ConversationCheckpoint). c.thread_id) more (id ∷ ids)
            s.checkpoints,
        delete_in_batches_lem (λ (t : ConversationThread). t.id) more (id ∷ ids) s.threads,
      )
      refl

pub conversations_lem :
    (more : ℕ) (hours : Option ℕ) (now : ℕ) (s : Tables)
    → IsKey (λ (t : ConversationThread). t.id) s.threads
    → overflows hour hours now ≡ false
    → purge_expired_conversations more hours now s
      ≡ some (
        length (expired_rows thread_old hours now s.threads),
        record s {
          checkpoints =
              delete_in
                (λ (c : ConversationCheckpoint). c.thread_id)
                (map
                  (λ (t : ConversationThread). t.id)
                  (expired_rows thread_old hours now s.threads))
                s.checkpoints;
          threads = kept thread_old hours now s.threads;
        },
      )
unfolding purge_expired_conversations
conversations_lem more none now s h fits =
    ap some (cc (delete_none (λ (c : ConversationCheckpoint). c.thread_id) s.checkpoints))
conversations_lem more (some hours) now s h fits =
    let (rows, count) =
      delete_selected (λ (t : ConversationThread). t.id) (thread_old hours now) s.threads h in
    conversations_in more hours now s fits
    ∙ ap some (threads_if_any more (thread_ids (thread_old hours now) s) s ∙ cc (rows, count))

objects_lem :
    (more : ℕ) (keys objects : List String)
    → delete_objects more keys objects ≡ delete_in (λ (key : String). key) keys objects
unfolding delete_objects
objects_lem more keys objects =
    ap (λ (r : ℕ × List String). r.1)
      (delete_in_batches_lem (λ (key : String). key) more keys objects)

no_objects :
    (has_store : Bool) (objects : List String)
    → (if has_store then delete_in (λ (key : String). key) (storage_keys []) objects else objects)
      ≡ objects
unfolding storage_keys
no_objects true objects = delete_none (λ (key : String). key) objects
no_objects false objects = refl

documents_if_any :
    (more : ℕ) (has_store : Bool) (ds : List KnowledgeBase) (s : Tables)
    → purge_documents more has_store ds s ≡ (
      deleted_in (λ (d : KnowledgeBase). d.id) (map (λ (d : KnowledgeBase). d.id) ds) s.documents,
      record s {
        embeddings =
            delete_in
              (λ (e : Embedding). e.doc_id)
              (map (λ (d : KnowledgeBase). d.id) ds)
              s.embeddings;
        documents =
            delete_in
              (λ (d : KnowledgeBase). d.id)
              (map (λ (d : KnowledgeBase). d.id) ds)
              s.documents;
        objects =
            if has_store
            then delete_in (λ (key : String). key) (storage_keys ds) s.objects
            else s.objects;
      },
    )
unfolding purge_documents
documents_if_any more has_store [] s =
    rw
      (
        delete_none (λ (d : KnowledgeBase). d.id) s.documents,
        delete_none (λ (e : Embedding). e.doc_id) s.embeddings,
        deleted_none (λ (d : KnowledgeBase). d.id) s.documents,
        no_objects has_store s.objects,
      )
      refl
documents_if_any more has_store (d ∷ ds) s =
    rw
      (
        delete_in_batches_lem (λ (e : Embedding). e.doc_id) more
            (map (λ (e : KnowledgeBase). e.id) (d ∷ ds)) s.embeddings,
        delete_in_batches_lem (λ (e : KnowledgeBase). e.id) more
            (map (λ (e : KnowledgeBase). e.id) (d ∷ ds)) s.documents,
        objects_lem more (storage_keys (d ∷ ds)) s.objects,
      )
      refl

pub documents_lem :
    (more : ℕ) (has_store : Bool) (days : Option ℕ) (now : ℕ) (s : Tables)
    → IsKey (λ (d : KnowledgeBase). d.id) s.documents
    → overflows day days now ≡ false
    → purge_expired_knowledge_base more has_store days now s
      ≡ some (
        length (expired_rows document_old days now s.documents),
        record s {
          embeddings =
              delete_in
                (λ (e : Embedding). e.doc_id)
                (map (λ (d : KnowledgeBase). d.id) (expired_rows document_old days now s.documents))
                s.embeddings;
          documents = kept document_old days now s.documents;
          objects =
              if has_store
              then delete_in
                  (λ (key : String). key)
                  (storage_keys (expired_rows document_old days now s.documents))
                  s.objects
              else s.objects;
        },
      )
unfolding purge_expired_knowledge_base
documents_lem more has_store none now s h fits =
    rw (delete_none (λ (e : Embedding). e.doc_id) s.embeddings, no_objects has_store s.objects) refl
documents_lem more has_store (some days) now s h fits =
    let (rows, count) =
      delete_selected (λ (d : KnowledgeBase). d.id) (document_old days now) s.documents h in
    documents_in more days now s has_store fits
    ∙ ap some (
        documents_if_any more has_store (select (document_old days now) s.documents) s
        ∙ cc (rows, count))

api_keys_if_any :
    (more : ℕ) (ids : List String) (s : Tables)
    → purge_api_keys more ids s ≡ (
      deleted_in (λ (k : ApiKey). k.id) ids s.api_keys,
      record s { api_keys = delete_in (λ (k : ApiKey). k.id) ids s.api_keys },
    )
unfolding purge_api_keys
api_keys_if_any more [] s =
    cc (
      delete_none (λ (k : ApiKey). k.id) s.api_keys,
      deleted_none (λ (k : ApiKey). k.id) s.api_keys,
    )
api_keys_if_any more (id ∷ ids) s =
    rw (delete_in_batches_lem (λ (k : ApiKey). k.id) more (id ∷ ids) s.api_keys) refl

pub api_keys_lem :
    (more : ℕ) (days : Option ℕ) (now : ℕ) (s : Tables)
    → IsKey (λ (k : ApiKey). k.id) s.api_keys
    → overflows day days now ≡ false
    → purge_expired_api_keys more days now s
      ≡ some (
        length (expired_rows api_key_old days now s.api_keys),
        record s { api_keys = kept api_key_old days now s.api_keys },
      )
unfolding purge_expired_api_keys
api_keys_lem more none now s h fits = refl
api_keys_lem more (some days) now s h fits =
    let (rows, count) =
      delete_selected (λ (k : ApiKey). k.id) (api_key_old days now) s.api_keys h in
    api_keys_in more days now s fits
    ∙ ap some (
        api_keys_if_any more (map (λ (k : ApiKey). k.id) (select (api_key_old days now) s.api_keys))
          s
        ∙ cc (rows, count))

turns_if_any :
    (more : ℕ) (ids : List String) (s : Tables)
    → purge_turns more ids s ≡ (
      deleted_in (λ (t : ChatTurnVersion). t.id) ids s.turns,
      record s { turns = delete_in (λ (t : ChatTurnVersion). t.id) ids s.turns },
    )
unfolding purge_turns
turns_if_any more [] s = cc (
  delete_none (λ (t : ChatTurnVersion). t.id) s.turns,
  deleted_none (λ (t : ChatTurnVersion). t.id) s.turns,
)
turns_if_any more (id ∷ ids) s =
    rw (delete_in_batches_lem (λ (t : ChatTurnVersion). t.id) more (id ∷ ids) s.turns) refl

pub turns_lem :
    (more : ℕ) (days : Option ℕ) (now : ℕ) (s : Tables)
    → IsKey (λ (t : ChatTurnVersion). t.id) s.turns
    → overflows day days now ≡ false
    → purge_expired_chat_turn_versions more days now s
      ≡ some (
        length (expired_rows turn_old days now s.turns),
        record s { turns = kept turn_old days now s.turns },
      )
unfolding purge_expired_chat_turn_versions
turns_lem more none now s h fits = refl
turns_lem more (some days) now s h fits =
    let (rows, count) =
      delete_selected (λ (t : ChatTurnVersion). t.id) (turn_old days now) s.turns h in
    turns_in more days now s fits
    ∙ ap some (
        turns_if_any more (map (λ (t : ChatTurnVersion). t.id) (select (turn_old days now) s.turns))
          s
        ∙ cc (rows, count))

-- ===== src/Retention/Orphans.antt =====
-- A sweep and the clean-up at logout leave no orphans, and the clean-up touches one user only.
use eaistack.Base.{
  ℕ, ◌||◌, String, Bool, true, false, not, Option, none, some, List, [], ◌∷◌, map, select, length,
  All, contains, ◌≡◌, refl, arith, string_eq, Bool-cases, inl, inr,
}
use eaistack.Threads.{ConversationThread}
use eaistack.Documents.{KnowledgeBase, Embedding}
use eaistack.Retention.{RetentionConfig, Tables, ConversationCheckpoint, owned, hour, day}
use eaistack.Retention.Batches.{delete_in, delete_none}
use eaistack.Retention.Rows.{delete_selected}
use eaistack.Retention.Spec.{
  kept, expired_rows, IsKeyed, thread_old, document_old, swept, outcome, overflows,
}
use eaistack.Retention.Sweep.{run_retention_sweep, purge_user_conversations, thread_ids}
use eaistack.Retention.Purges.{threads_if_any}
use eaistack.Retention.Exact.{run_retention_sweep_lem}

-- Every child names a parent that is stored.
abbrev pub HaveParents : {R C : Type 0} → (R → String) → (C → String) → List R → List C → Type 0
HaveParents key parent rows children = All (λ c. contains (map key rows) (parent c) ≡ true) children

-- A checkpoint has its conversation and an embedding its document.
abbrev pub IsRooted : Tables → Type 0
IsRooted s =
    HaveParents (λ (t : ConversationThread). t.id) (λ (c : ConversationCheckpoint). c.thread_id)
      s.threads s.checkpoints
    × HaveParents (λ (d : KnowledgeBase). d.id) (λ (e : Embedding). e.doc_id) s.documents
        s.embeddings

module _ {R C : Type 0} (key : R → String) (parent : C → String) (p : R → Bool) where
  parent_stays :
      (rows : List R) (id : String)
      → contains (map key rows) id ≡ true
      → contains (map key (select p rows)) id ≡ false
      → contains (map key (select (λ r. not (p r)) rows)) id ≡ true
  unfolding contains
  parent_stays [] id h k = h
  parent_stays (r ∷ rows) id h k = ground (arith, parent_stays rows id)

  selected-HaveParents :
      (rows : List R) (children : List C)
      → HaveParents key parent rows children
      → HaveParents key parent
          (select (λ r. not (p r)) rows)
          (delete_in parent (map key (select p rows)) children)
  unfolding delete_in
  selected-HaveParents rows [] h = tt
  selected-HaveParents rows (c ∷ children) h =
      elim (Bool-cases (contains (map key (select p rows)) (parent c))) [
        | inl gone ↦ rw gone (selected-HaveParents rows children h.1)
        | inr stays ↦
            rw stays
              (parent_stays rows (parent c) h.0 stays, selected-HaveParents rows children h.1)
      ]

window-HaveParents :
    {R C : Type 0} (key : R → String) (parent : C → String) (expired : ℕ → ℕ → R → Bool)
    (window : Option ℕ) (now : ℕ) (rows : List R) (children : List C)
    → HaveParents key parent rows children
    → HaveParents key parent
        (kept expired window now rows)
        (delete_in parent (map key (expired_rows expired window now rows)) children)
window-HaveParents key parent expired none now rows children h = rw (delete_none parent children) h
window-HaveParents key parent expired (some window) now rows children h =
    selected-HaveParents key parent (expired window now) rows children h

swept-IsRooted :
    (config : RetentionConfig) (has_store : Bool) (now : ℕ) (s : Tables)
    → IsRooted s
    → IsRooted (swept config has_store now s)
swept-IsRooted config has_store now s rooted = (
  window-HaveParents (λ (t : ConversationThread). t.id)
      (λ (c : ConversationCheckpoint). c.thread_id) thread_old config.conversation_retention_hours
      now s.threads s.checkpoints rooted.0,
  window-HaveParents (λ (d : KnowledgeBase). d.id) (λ (e : Embedding). e.doc_id) document_old
      config.knowledge_base_purge_days now s.documents s.embeddings rooted.1,
)

outcome-IsRooted :
    (config : RetentionConfig) (has_store : Bool) (now : ℕ) (s : Tables)
    → IsRooted s
    → IsRooted (outcome config has_store now s).1
outcome-IsRooted config has_store now s rooted =
    elim (Bool-cases (
      overflows hour config.conversation_retention_hours now
      || overflows day config.knowledge_base_purge_days now)) [
        | inl over ↦ rw over rooted
        | inr early ↦
            elim (Bool-cases (
              overflows day config.api_key_purge_days now
              || overflows day config.chat_turn_version_retention_days now)) [
                | inl over ↦ rw (early, over) rooted
                | inr late ↦ rw (early, late) (swept-IsRooted config has_store now s rooted)
              ]
      ]

-- Where ids are unique, a sweep leaves no checkpoint without its conversation and no embedding without
-- its document, if there was none before.
pub run_retention_sweep-IsRooted :
    (config : RetentionConfig) (has_store : Bool) (now : ℕ) (s : Tables)
    → IsKeyed s
    → IsRooted s
    → IsRooted (run_retention_sweep config has_store now s).1
run_retention_sweep-IsRooted config has_store now s keyed rooted =
    rw (run_retention_sweep_lem config has_store now s keyed)
      (outcome-IsRooted config has_store now s rooted)

-- Where ids are unique, the clean-up at a user's logout deletes and counts exactly the user's
-- conversations, keeps every other conversation and every other table but the checkpoints, and leaves
-- no checkpoint without its conversation, if there was none before.
pub purge_user_conversations_lem :
    (more : ℕ) (user_id : String) (s : Tables)
    → IsKeyed s
    → IsRooted s
    → let (purged, after) = purge_user_conversations more user_id s in
      (purged ≡ length (select (owned user_id) s.threads))
      × (after ≡ record s {
        threads = select (λ t. not (owned user_id t)) s.threads;
        checkpoints = after.checkpoints;
      })
      × IsRooted after
unfolding purge_user_conversations
purge_user_conversations_lem more user_id s keyed rooted =
    let ids = thread_ids (owned user_id) s in
    let (rows, count) =
      delete_selected (λ (t : ConversationThread). t.id) (owned user_id) s.threads
        keyed.threads_keyed in
    rw (threads_if_any more ids s, rows, count)
      (
        refl,
        refl,
        (
          selected-HaveParents (λ (t : ConversationThread). t.id)
              (λ (c : ConversationCheckpoint). c.thread_id) (owned user_id) s.threads s.checkpoints
              rooted.0,
          rooted.1,
        ),
      )

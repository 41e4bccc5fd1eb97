-- ===== src/Retention/Cutoffs.antt =====
-- A cutoff that can be computed selects the rows that the description by rows calls old; one that cannot
-- stops its purge.
use eaistack.Base.{
  ℕ, ◌-◌, ◌*◌, Bool, true, false, Option, none, some, List, [], ◌∷◌, map, select, ltb, ◌≡◌, refl,
  arith,
}
use eaistack.ApiKeys.{ApiKey}
use eaistack.Workflow.Versions.Turns.{ChatTurnVersion}
use eaistack.Retention.{
  Tables, hour, day, cutoff, is_set_before, thread_expired, document_expired, api_key_expired,
  turn_expired,
}
use eaistack.Retention.Sweep.{
  purge_threads_if_any, thread_ids, purge_expired_conversations, purge_documents,
  purge_expired_knowledge_base, purge_api_keys, purge_expired_api_keys, purge_turns,
  purge_expired_chat_turn_versions,
}
use eaistack.Retention.Spec.{is_older, thread_old, document_old, api_key_old, turn_old, overflows}

select_same :
    {R : Type 0} (p q : R → Bool)
    → ((r : R) → p r ≡ q r)
    → (rows : List R) → select p rows ≡ select q rows
select_same p q same [] = refl
select_same p q same (r ∷ rows) = ground (arith, same r, select_same p q same rows)

cutoff_in : (window now : ℕ) → ltb now window ≡ false → cutoff window now ≡ some (now - window)
unfolding cutoff
cutoff_in window now fits = rw fits refl

cutoff_over : (window now : ℕ) → ltb now window ≡ true → cutoff window now ≡ none
unfolding cutoff
cutoff_over window now over = rw over refl

before-older :
    (window now at : ℕ)
    → ltb now window ≡ false
    → ltb at (now - window) ≡ is_older window now (some at)
before-older window now at fits = ground arith

set_before-older :
    (window now : ℕ)
    → ltb now window ≡ false
    → (at : Option ℕ) → is_set_before (now - window) at ≡ is_older window now at
unfolding is_set_before
set_before-older window now fits none = refl
set_before-older window now fits (some at) = before-older window now at fits

module _ (more window now : ℕ) (s : Tables) where
  pub conversations_in :
      overflows hour (some window) now ≡ false
      → purge_expired_conversations more (some window) now s
        ≡ some (purge_threads_if_any more (thread_ids (thread_old window now) s) s)
  unfolding purge_expired_conversations thread_expired
  conversations_in fits =
      rw
        (
          purge_expired_conversations,
          cutoff_in (window * hour) now fits,
          select_same (thread_expired (now - window * hour)) (thread_old window now)
              (λ t. before-older (window * hour) now t.updated_at fits) s.threads,
        )
        refl

  pub documents_in :
      (has_store : Bool)
      → overflows day (some window) now ≡ false
      → purge_expired_knowledge_base more has_store (some window) now s
        ≡ some (purge_documents more has_store (select (document_old window now) s.documents) s)
  unfolding purge_expired_knowledge_base document_expired
  documents_in has_store fits =
      rw
        (
          purge_expired_knowledge_base,
          cutoff_in (window * day) now fits,
          select_same (document_expired (now - window * day)) (document_old window now)
              (λ d. set_before-older (window * day) now fits d.deleted_at) s.documents,
        )
        refl

  pub api_keys_in :
      overflows day (some window) now ≡ false
      → purge_expired_api_keys more (some window) now s
        ≡ some (
            purge_api_keys more
              (map (λ (k : ApiKey). k.id) (select (api_key_old window now) s.api_keys))
              s)
  unfolding purge_expired_api_keys api_key_expired
  api_keys_in fits =
      rw
        (
          purge_expired_api_keys,
          cutoff_in (window * day) now fits,
          select_same (api_key_expired (now - window * day)) (api_key_old window now)
              (λ k. set_before-older (window * day) now fits k.revoked_at) s.api_keys,
        )
        refl

  pub turns_in :
      overflows day (some window) now ≡ false
      → purge_expired_chat_turn_versions more (some window) now s
        ≡ some (
            purge_turns more
              (map (λ (t : ChatTurnVersion). t.id) (select (turn_old window now) s.turns))
              s)
  unfolding purge_expired_chat_turn_versions turn_expired
  turns_in fits =
      rw
        (
          purge_expired_chat_turn_versions,
          cutoff_in (window * day) now fits,
          select_same (turn_expired (now - window * day)) (turn_old window now)
              (λ t. before-older (window * day) now t.created_at fits) s.turns,
        )
        refl

module _ (more now : ℕ) (s : Tables) where
  pub conversations_over :
      (window : Option ℕ)
      → overflows hour window now ≡ true
      → purge_expired_conversations more window now s ≡ none
  unfolding purge_expired_conversations
  conversations_over none over = cc
  conversations_over (some window) over =
      rw (purge_expired_conversations, cutoff_over (window * hour) now over) refl

  pub documents_over :
      (has_store : Bool) (window : Option ℕ)
      → overflows day window now ≡ true
      → purge_expired_knowledge_base more has_store window now s ≡ none
  unfolding purge_expired_knowledge_base
  documents_over has_store none over = cc
  documents_over has_store (some window) over =
      rw (purge_expired_knowledge_base, cutoff_over (window * day) now over) refl

  pub api_keys_over :
      (window : Option ℕ)
      → overflows day window now ≡ true
      → purge_expired_api_keys more window now s ≡ none
  unfolding purge_expired_api_keys
  api_keys_over none over = cc
  api_keys_over (some window) over =
      rw (purge_expired_api_keys, cutoff_over (window * day) now over) refl

  pub turns_over :
      (window : Option ℕ)
      → overflows day window now ≡ true
      → purge_expired_chat_turn_versions more window now s ≡ none
  unfolding purge_expired_chat_turn_versions
  turns_over none over = cc
  turns_over (some window) over =
      rw (purge_expired_chat_turn_versions, cutoff_over (window * day) now over) refl

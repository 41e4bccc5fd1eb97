-- ===== src/Retention/Exact.antt =====
-- The sweep refines the description by rows.
use eaistack.Base.{ℕ, Bool, false, some, ◌≡◌, refl, string_eq, Bool-cases, inl, inr}
use eaistack.Retention.{RetentionConfig, Tables, hour, day}
use eaistack.Retention.Sweep.{
  run_retention_sweep, default_more, purge_expired_conversations, purge_expired_knowledge_base,
  purge_expired_api_keys, purge_expired_chat_turn_versions,
}
use eaistack.Retention.Spec.{IsKeyed, swept, counted, outcome, overflows}
use eaistack.Retention.Cutoffs.{conversations_over, documents_over, api_keys_over, turns_over}
use eaistack.Retention.Purges.{conversations_lem, documents_lem, api_keys_lem, turns_lem}

-- The tables between the purges.
abbrev after_conversations : RetentionConfig → ℕ → Tables → Tables
after_conversations config now s = record s {
  checkpoints = (swept config false now s).checkpoints;
  threads = (swept config false now s).threads;
}

abbrev after_documents : RetentionConfig → Bool → ℕ → Tables → Tables
after_documents config has_store now s = record (after_conversations config now s) {
  embeddings = (swept config has_store now s).embeddings;
  documents = (swept config has_store now s).documents;
  objects = (swept config has_store now s).objects;
}

abbrev after_api_keys : RetentionConfig → Bool → ℕ → Tables → Tables
after_api_keys config has_store now s = record (after_documents config has_store now s) {
  api_keys = (swept config has_store now s).api_keys;
}

module _ (config : RetentionConfig) (has_store : Bool) (now : ℕ) (s : Tables)
    (keyed : IsKeyed s) where
  conversations_done :
      overflows hour config.conversation_retention_hours now ≡ false
      → purge_expired_conversations default_more config.conversation_retention_hours now s
        ≡ some ((counted config now s).conversations, after_conversations config now s)
  conversations_done fits =
      conversations_lem default_more config.conversation_retention_hours now s keyed.threads_keyed
        fits

  documents_done :
      overflows day config.knowledge_base_purge_days now ≡ false
      → purge_expired_knowledge_base default_more has_store config.knowledge_base_purge_days now
          (after_conversations config now s)
        ≡ some ((counted config now s).knowledge_base, after_documents config has_store now s)
  documents_done fits =
      documents_lem default_more has_store config.knowledge_base_purge_days now
        (after_conversations config now s) keyed.documents_keyed fits

  api_keys_done :
      overflows day config.api_key_purge_days now ≡ false
      → purge_expired_api_keys default_more config.api_key_purge_days now
          (after_documents config has_store now s)
        ≡ some ((counted config now s).api_keys, after_api_keys config has_store now s)
  api_keys_done fits =
      api_keys_lem default_more config.api_key_purge_days now
        (after_documents config has_store now s) keyed.api_keys_keyed fits

  turns_done :
      overflows day config.chat_turn_version_retention_days now ≡ false
      → purge_expired_chat_turn_versions default_more config.chat_turn_version_retention_days now
          (after_api_keys config has_store now s)
        ≡ some ((counted config now s).chat_turn_versions, swept config has_store now s)
  turns_done fits =
      turns_lem default_more config.chat_turn_version_retention_days now
        (after_api_keys config has_store now s) keyed.turns_keyed fits

  -- The last two purges, once the first two are done.
  later_lem :
      overflows hour config.conversation_retention_hours now ≡ false
      → overflows day config.knowledge_base_purge_days now ≡ false
      → run_retention_sweep config has_store now s ≡ outcome config has_store now s
  unfolding run_retention_sweep
  later_lem a b =
      let first = conversations_done a in
      let second = documents_done b in
      elim (Bool-cases (overflows day config.api_key_purge_days now)) [
        | inl over ↦
            rw
              (
                run_retention_sweep,
                first,
                second,
                a,
                b,
                over,
                api_keys_over default_more now (after_documents config has_store now s)
                    config.api_key_purge_days over,
              )
              refl
        | inr fits ↦ elim (Bool-cases (overflows day config.chat_turn_version_retention_days now)) [
          | inl over ↦
              rw
                (
                  run_retention_sweep,
                  first,
                  second,
                  api_keys_done fits,
                  a,
                  b,
                  fits,
                  over,
                  turns_over default_more now (after_api_keys config has_store now s)
                      config.chat_turn_version_retention_days over,
                )
                refl
          | inr within ↦
              rw
                (
                  run_retention_sweep,
                  first,
                  second,
                  api_keys_done fits,
                  turns_done within,
                  a,
                  b,
                  fits,
                  within,
                )
                refl
        ]
      ]

-- A sweep refines the description by rows: where ids are unique and every cutoff can be computed, it leaves
-- and counts exactly what the windows of the configuration say, whatever the batches; a table without a
-- window keeps every row. A window that reaches before the first date a datetime can hold stops the sweep:
-- once its caller has rolled back every row stays, but where the first such window is that of the API keys
-- or of the turn records, the objects of the expired documents are gone.
pub run_retention_sweep_lem :
    (config : RetentionConfig) (has_store : Bool) (now : ℕ) (s : Tables)
    → IsKeyed s
    → run_retention_sweep config has_store now s ≡ outcome config has_store now s
unfolding run_retention_sweep
run_retention_sweep_lem config has_store now s keyed =
    elim (Bool-cases (overflows hour config.conversation_retention_hours now)) [
      | inl over ↦
          rw
            (
              run_retention_sweep,
              over,
              conversations_over default_more now s config.conversation_retention_hours over,
            )
            refl
      | inr a ↦ elim (Bool-cases (overflows day config.knowledge_base_purge_days now)) [
        | inl over ↦
            rw
              (
                run_retention_sweep,
                a,
                over,
                conversations_done config has_store now s keyed a,
                documents_over default_more now (after_conversations config now s) has_store
                    config.knowledge_base_purge_days over,
              )
              refl
        | inr b ↦ later_lem config has_store now s keyed a b
      ]
    ]

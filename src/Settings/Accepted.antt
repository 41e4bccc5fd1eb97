-- ===== src/Settings/Accepted.antt =====
-- What the handler has checked of a change that it accepts.
use eaistack.Base.{ℕ, String, List, [], ◌∷◌, ◌≡◌, refl}
use eaistack.Base.Result.{Result, ok, err, >>-ok_iff}
use eaistack.Workflow.Primitives.{Numerals}
use eaistack.Settings.Row.{UpdateSettingsRequest, upsert}
use eaistack.Settings.Trail.{families, record_families}
use eaistack.Settings.Update.{
  Environment, Store, llm_options, embedding_options, check_known, check_url, check_chunk_bounds,
  or_resolved, resolve_llm_config, resolve_embedding_config, resolve_rag_config, committed,
  update_settings, settled, handled, Request, update_all, SettingsError,
}

pub record IsAccepted (n : Numerals) (env : Environment) (payload : UpdateSettingsRequest)
    (actor : String) (now : ℕ) (s after : Store) : Type 0 where
  pub llm_known : check_known (llm_options env) payload.llm_provider ≡ ok tt
  pub embedding_known : check_known (embedding_options env) payload.embedding_provider ≡ ok tt
  pub bounded : check_chunk_bounds (resolve_rag_config env.rag s.row) payload ≡ ok tt
  pub written :
      committed
        (upsert payload actor)
        (record_families actor now s.row (upsert payload actor) (families n) s.log)
      ≡ ok after

pub update_settings-eq-ok :
    (n : Numerals) (env : Environment) (payload : UpdateSettingsRequest) (actor : String) (now : ℕ)
    (s after : Store)
    → update_settings n env payload actor now s ≡ ok after
    → IsAccepted n env payload actor now s after
unfolding update_settings
update_settings-eq-ok n env payload actor now s after made =
    let llm = (resolve_llm_config env.llm s.row).provider in
    let embedding = (resolve_embedding_config env.embedding s.row).provider in
    let known = (>>-ok_iff (check_known (llm_options env) payload.llm_provider) _ after).0 made in
    let both =
      (>>-ok_iff (check_known (embedding_options env) payload.embedding_provider) _ after).0
        known.1 in
    let llm_url =
      (>>-ok_iff
          (check_url (llm_options env) (or_resolved payload.llm_provider llm) payload.llm_url) _
          after).0
        both.1 in
    let embedding_url =
      (>>-ok_iff
          (check_url (embedding_options env) (or_resolved payload.embedding_provider embedding)
            payload.embedding_url)
          _ after).0
        llm_url.1 in
    let bounds =
      (>>-ok_iff (check_chunk_bounds (resolve_rag_config env.rag s.row) payload) _ after).0
        embedding_url.1 in
    record { llm_known = known.0; embedding_known = both.0; bounded = bounds.0; written = bounds.1 }

settled-kept :
    (P : Store → Type 0) (s : Store) (answer : Result SettingsError Store)
    → P s
    → ((after : Store) → answer ≡ ok after → P after)
    → P (settled s answer)
settled-kept P s (ok after) h accepted = accepted after refl
settled-kept P s (err e) h accepted = h

-- What every accepted change keeps, any sequence of requests keeps.
pub update_all-kept :
    (n : Numerals) (env : Environment) (P : Store → Type 0)
    → ((r : Request) (s after : Store) → P s → handled n env r s ≡ ok after → P after)
    → (requests : List Request) (s : Store) → P s
    → P (update_all n env requests s)
unfolding update_all
update_all-kept n env P keeps [] s h = h
update_all-kept n env P keeps (r ∷ requests) s h =
    update_all-kept n env P keeps requests (settled s (handled n env r s))
      (settled-kept P s (handled n env r s) h (λ after made. keeps r s after h made))

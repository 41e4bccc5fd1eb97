-- ===== src/Settings/Configured.antt =====
-- The providers in use are in the catalog, so that a change never meets a KeyError, and the bounds of the
-- chunk sizes.
use eaistack.Base.{
  ℕ, ◌<◌, String, Bool, true, false, Option, none, some, List, ◌==◌, string_eq, option_eq, leb, ◌≡◌,
  refl, sym, ap, subst, arith, Bool-cases, Option-cases, inl, inr,
}
use eaistack.Base.Dict
use eaistack.Base.Result.{Result, ok, err, raise_if, ◌>>◌, raise_if-ok_iff, ok-injective}
use eaistack.RateLimit.Config.{resolve_field}
use eaistack.Workflow.Primitives.{Numerals}
use eaistack.Workflow.Schema.{is_none}
use eaistack.Settings.Row.{SystemSettings, UpdateSettingsRequest, upsert}
use eaistack.Settings.Trail.{AuditLog, families}
use eaistack.Settings.Update.{
  Environment, Store, SettingsError, unknown_provider, url_required, rag_chunk_size_bounds_inverted,
  key_error, Catalog, llm_options, embedding_options, check_known, check_url, check_chunk_bounds,
  or_resolved, RagConfig, resolve_llm_config, resolve_embedding_config, resolve_rag_config,
  committed, update_settings, Request, handled, update_all,
}
use eaistack.Settings.Audited.{IsReplayed, AllRecorded, recorded, update_settings-IsReplayed}
use eaistack.Settings.Accepted.{update_settings-eq-ok, update_all-kept}

-- An answer that is not a KeyError.
abbrev pub IsAnswer {ℓ} : {A : Type ℓ} → Result SettingsError A → Type 0
IsAnswer (err key_error) = ⊥
IsAnswer _ = Unit

abbrev IsListed : Catalog → String → Type 0
IsListed options provider = is_none (Dict.lookup provider options) ≡ false

-- The providers that are in effect are in the catalog.
abbrev pub IsConfigured : Environment → Option SystemSettings → Type 0
IsConfigured env row =
    IsListed (llm_options env) (resolve_llm_config env.llm row).provider
    × IsListed (embedding_options env) (resolve_embedding_config env.embedding row).provider

>>-IsAnswer {ℓ} :
    {A : Type ℓ} (check : Result SettingsError (Unit {0})) (rest : Result SettingsError A)
    → IsAnswer check
    → (check ≡ ok tt → IsAnswer rest)
    → IsAnswer (check >> rest)
>>-IsAnswer (ok u) rest h more = more refl
>>-IsAnswer (err key_error) rest h more = h
>>-IsAnswer (err (unknown_provider p)) rest h more = tt
>>-IsAnswer (err (url_required p)) rest h more = tt
>>-IsAnswer (err (rag_chunk_size_bounds_inverted a b)) rest h more = tt

raise_if-IsAnswer :
    (b : Bool) (e : SettingsError) → IsAnswer {A = Unit {0}} (err e) → IsAnswer (raise_if b e)
raise_if-IsAnswer true e h = h
raise_if-IsAnswer false e h = tt

check_known-IsAnswer :
    (options : Catalog) (provider : Option String) → IsAnswer (check_known options provider)
unfolding check_known
check_known-IsAnswer options none = tt
check_known-IsAnswer options (some provider) = ground arith

check_url-IsAnswer :
    (options : Catalog) (provider : String) (url : Option String)
    → IsListed options provider
    → IsAnswer (check_url options provider url)
unfolding check_url
check_url-IsAnswer options provider url h = elim (Option-cases (Dict.lookup provider options)) [
  | inl gone ↦ cc (rw gone at h)
  | inr (o, found) ↦ rw (check_url, found) (raise_if-IsAnswer _ (url_required provider) tt)
]

check_chunk_bounds-IsAnswer :
    (current : RagConfig) (payload : UpdateSettingsRequest)
    → IsAnswer (check_chunk_bounds current payload)
unfolding check_chunk_bounds
check_chunk_bounds-IsAnswer current payload =
    raise_if-IsAnswer _ (rag_chunk_size_bounds_inverted _ _) tt

committed-IsAnswer :
    (n : Numerals) (row : SystemSettings) (log : List AuditLog) (logged : Option (List AuditLog))
    → AllRecorded (families n) row log logged
    → IsAnswer (committed row logged)
committed-IsAnswer n row log none h = h
committed-IsAnswer n row log (some logged) h = tt

or_resolved-IsListed :
    (options : Catalog) (given : Option String) (resolved : String)
    → check_known options given ≡ ok tt
    → IsListed options resolved
    → IsListed options (or_resolved given resolved)
unfolding check_known
or_resolved-IsListed options none resolved known h = h
or_resolved-IsListed options (some p) resolved known h = elim (Bool-cases (p == "")) [
  | inl blank ↦ rw blank h
  | inr named ↦ rw named ((raise_if-ok_iff _ _).0 known)
]

upsert-IsListed :
    (options : Catalog) (given : Option String) (env_default : String)
    → check_known options given ≡ ok tt
    → IsListed options env_default
    → IsListed options (resolve_field given env_default)
unfolding check_known resolve_field
upsert-IsListed options none env_default known h = h
upsert-IsListed options (some p) env_default known h = (raise_if-ok_iff _ _).0 known

update_settings-IsAnswer :
    (n : Numerals) (env : Environment) (payload : UpdateSettingsRequest) (actor : String) (now : ℕ)
    (s : Store)
    → IsReplayed n s
    → IsConfigured env s.row
    → IsAnswer (update_settings n env payload actor now s)
unfolding update_settings
update_settings-IsAnswer n env payload actor now s replayed configured =
    >>-IsAnswer _ _ (check_known-IsAnswer (llm_options env) payload.llm_provider) λ llm.
      >>-IsAnswer _ _ (check_known-IsAnswer (embedding_options env) payload.embedding_provider)
        λ embedding.
          >>-IsAnswer _ _
            (check_url-IsAnswer (llm_options env) _ payload.llm_url
              (or_resolved-IsListed (llm_options env) payload.llm_provider _ llm configured.0))
            λ llm_url.
              >>-IsAnswer _ _
                (check_url-IsAnswer (embedding_options env) _ payload.embedding_url (
                  or_resolved-IsListed (embedding_options env) payload.embedding_provider _
                    embedding configured.1))
                λ embedding_url.
                  >>-IsAnswer _ _
                    (check_chunk_bounds-IsAnswer (resolve_rag_config env.rag s.row) payload)
                    λ bounds.
                      committed-IsAnswer n (upsert payload actor) s.log _
                        (recorded n payload actor now s replayed)

-- The row that a change leaves is the one that it wrote.
committed-row :
    (row : SystemSettings) (logged : Option (List AuditLog)) (after : Store)
    → committed row logged ≡ ok after
    → after.row ≡ some row
committed-row row none after h = cc
committed-row row (some log) after h = ap Store.row (sym (ok-injective _ after h))

update_settings-IsConfigured :
    (n : Numerals) (env : Environment) (payload : UpdateSettingsRequest) (actor : String) (now : ℕ)
    (s after : Store)
    → IsConfigured env none
    → update_settings n env payload actor now s ≡ ok after
    → IsConfigured env after.row
unfolding resolve_llm_config resolve_embedding_config upsert resolve_field
update_settings-IsConfigured n env payload actor now s after defaults made =
    let accepted = update_settings-eq-ok n env payload actor now s after made in
    subst (IsConfigured env) (sym (committed-row (upsert payload actor) _ after accepted.written)) (
      upsert-IsListed (llm_options env) payload.llm_provider env.llm.provider accepted.llm_known
          defaults.0,
      upsert-IsListed (embedding_options env) payload.embedding_provider env.embedding.provider
          accepted.embedding_known defaults.1,
    )

-- Where the providers of the process are in its catalog and the providers in effect are, and the trail
-- replays the settings, no request that follows any sequence of requests ends in a KeyError: it is
-- accepted or refused for an unknown provider, a missing URL or inverted chunk sizes.
pub update_settings-answers :
    (n : Numerals) (env : Environment) (requests : List Request) (r : Request) (s : Store)
    → IsConfigured env none
    → IsConfigured env s.row
    → IsReplayed n s
    → IsAnswer (handled n env r (update_all n env requests s))
update_settings-answers n env requests r s defaults configured replayed =
    let (sound, kept) =
      update_all-kept n env (λ t. IsConfigured env t.row × IsReplayed n t)
        (λ q before after h made. (
          update_settings-IsConfigured n env q.payload q.actor q.now before after defaults made,
          update_settings-IsReplayed n env q.payload q.actor q.now before after h.1 made,
        ))
        requests s (configured, replayed) in
    update_settings-IsAnswer n env r.payload r.actor r.now (update_all n env requests s) kept sound

abbrev pub IsOrdered : RagConfig → Type 0
IsOrdered config = config.min_chunk_size < config.chunk_size

above : (a b : ℕ) → leb b a ≡ false → a < b
above a b checked = ground arith

resolved_IsOrdered :
    (smallest largest : Option ℕ) (now_min now_max env_min env_max : ℕ)
    → env_min < env_max
    → is_none smallest ≡ is_none largest
    → leb (resolve_field largest now_max) (resolve_field smallest now_min) ≡ false
    → resolve_field smallest env_min < resolve_field largest env_max
unfolding resolve_field
resolved_IsOrdered none none now_min now_max env_min env_max ordered both checked = ordered
resolved_IsOrdered none (some b) now_min now_max env_min env_max ordered both checked = cc
resolved_IsOrdered (some a) none now_min now_max env_min env_max ordered both checked = cc
resolved_IsOrdered (some a) (some b) now_min now_max env_min env_max ordered both checked =
    above a b checked

-- Where the defaults of the process are ordered, a change that is accepted and sets both chunk sizes or
-- neither of them leaves a minimum in effect that is below the maximum in effect.
pub update_settings-IsOrdered :
    (n : Numerals) (env : Environment) (payload : UpdateSettingsRequest) (actor : String) (now : ℕ)
    (s after : Store)
    → IsOrdered env.rag
    → is_none payload.rag_min_chunk_size ≡ is_none payload.rag_chunk_size
    → update_settings n env payload actor now s ≡ ok after
    → IsOrdered (resolve_rag_config env.rag after.row)
unfolding resolve_rag_config upsert check_chunk_bounds
update_settings-IsOrdered n env payload actor now s after ordered both made =
    let accepted = update_settings-eq-ok n env payload actor now s after made in
    subst (λ row. IsOrdered (resolve_rag_config env.rag row))
      (sym (committed-row (upsert payload actor) _ after accepted.written))
      (resolved_IsOrdered payload.rag_min_chunk_size payload.rag_chunk_size _ _ _ _ ordered both
        ((raise_if-ok_iff _ _).0 accepted.bounded))

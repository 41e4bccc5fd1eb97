-- ===== src/ApiKeys/Tests.antt =====
-- The theorem on API keys at a concrete table.
use eaistack.Base.{[], ◌∷◌, ◌≡◌, refl, contains, IsKey, string_eq}
use eaistack.Base.Result.{ok}
use eaistack.ApiKeys.{ApiKey, ApiKeys, new_key, handle, delete, get_by_id, delete_found, revoke}
use eaistack.ApiKeys.Isolation.{others, handle-others}

abbrev two_keys : ApiKeys
two_keys = new_key "k1" "ann" "one" "custom" "a" 0 ∷ new_key "k2" "bob" "two" "custom" "b" 0 ∷ []

two_keys-IsKey : IsKey (λ (k : ApiKey). k.id) two_keys
unfolding contains
two_keys-IsKey = (refl, (refl, tt))

deleted : handle "bob" 5 (delete "k2") two_keys ≡ ok (revoke "k2" 5 two_keys)
unfolding handle get_by_id delete_found
deleted = refl

handle-others_example : others "bob" (revoke "k2" 5 two_keys) ≡ others "bob" two_keys
handle-others_example =
    handle-others "bob" 5 (delete "k2") two_keys (revoke "k2" 5 two_keys) two_keys-IsKey deleted

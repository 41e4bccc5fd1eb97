-- ===== src/ApiKeys.antt =====
-- backend/app/repositories/api_key_repository.py and the endpoints of backend/app/api/apikeys.py. The id
-- of a new key and the time are arguments. The endpoints' responses without the secret are not modelled.
pub mod Isolation
mod Tests
use eaistack.Base.{
  ℕ, String, Bool, true, false, ◌&&◌, Option, none, some, List, [], ◌∷◌, select, first,
  if◌then◌else◌, ◌==◌, string_eq,
}
use eaistack.Base.Result.{Result, ok, err}

pub record ApiKey : Type 0 where
  pub id : String
  pub user_id : String
  pub name : String
  pub provider : String
  pub secret_value : String
  pub created_at : ℕ
  pub updated_at : ℕ
  pub revoked_at : Option ℕ

abbrev pub ApiKeys : Type 0
ApiKeys = List ApiKey

-- `key.revoked_at is None`
unfoldable pub is_active : ApiKey → Bool
is_active k = elim k.revoked_at [ none ↦ true | some at ↦ false ]

unfoldable pub get_by_user : String → ApiKeys → ApiKeys
get_by_user user_id keys = select (λ (k : ApiKey). k.user_id == user_id && is_active k) keys

unfoldable pub get_by_id : String → String → ApiKeys → Option ApiKey
get_by_id id user_id keys = first (λ (k : ApiKey). k.id == id && k.user_id == user_id) keys

abbrev pub new_key : String → String → String → String → String → ℕ → ApiKey
new_key id user_id name provider secret_value now = record {
  id = id;
  user_id = user_id;
  name = name;
  provider = provider;
  secret_value = secret_value;
  created_at = now;
  updated_at = now;
  revoked_at = none;
}

-- The rows after the first one with the id is written again.
unfoldable pub rewrite : String → (ApiKey → ApiKey) → ApiKeys → ApiKeys
rewrite id f [] = []
rewrite id f (k ∷ keys) =
    let rest = rewrite id f keys in if k.id == id then f k ∷ keys else k ∷ rest

unfoldable pub renamed : String → String → ℕ → ApiKey → ApiKey
unfolding is_active
renamed name provider now k =
    if is_active k then record k { name = name; provider = provider; updated_at = now } else k

unfoldable pub revoked : ℕ → ApiKey → ApiKey
revoked now k = record k { revoked_at = some now }

unfoldable pub update : String → String → String → ℕ → ApiKeys → ApiKeys
update id name provider now keys = rewrite id (renamed name provider now) keys

unfoldable pub revoke : String → ℕ → ApiKeys → ApiKeys
revoke id now keys = rewrite id (revoked now) keys

-- The status codes of the endpoints.
pub data ApiKeyError : Type 0 where
  not_found gone : ApiKeyError

pub data ApiKeyRequest : Type 0 where
  -- The id that the database draws, the name, the provider and the secret.
  create : String → String → String → String → ApiKeyRequest
  rename : String → String → String → ApiKeyRequest
  delete : String → ApiKeyRequest

unfoldable pub rename_found :
    String → String → String → ℕ → Option ApiKey → ApiKeys → Result ApiKeyError ApiKeys
rename_found id name provider now none keys = err not_found
rename_found id name provider now (some k) keys =
    if is_active k then ok (update id name provider now keys) else err gone

unfoldable pub delete_found : String → ℕ → Option ApiKey → ApiKeys → Result ApiKeyError ApiKeys
delete_found id now none keys = err not_found
delete_found id now (some k) keys = ok (revoke id now keys)

-- `create_apikey`, `update_apikey` and `revoke_apikey` for the caller.
unfoldable pub handle : String → ℕ → ApiKeyRequest → ApiKeys → Result ApiKeyError ApiKeys
handle user_id now (create id name provider secret_value) keys =
    ok (new_key id user_id name provider secret_value now ∷ keys)
handle user_id now (rename id name provider) keys =
    rename_found id name provider now (get_by_id id user_id keys) keys
handle user_id now (delete id) keys = delete_found id now (get_by_id id user_id keys) keys

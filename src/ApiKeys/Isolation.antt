-- ===== src/ApiKeys/Isolation.antt =====
-- No request reaches another user's keys, and a revoked key stays revoked.
use eaistack.Base.{
  ℕ, String, Bool, true, false, not, ◌&&◌, Option, none, some, [], ◌∷◌, select, contains, map,
  IsKey, ◌==◌, string_eq, ◌≡◌, refl, sym, ◌∙◌, ap, arith, Bool-cases, eq_of_beq, beq_self, subst,
  inl, inr,
}
use eaistack.Base.Result.{ok}
use eaistack.ApiKeys.{
  ApiKey, ApiKeys, is_active, get_by_id, new_key, rewrite, renamed, revoked, update, revoke,
  ApiKeyRequest, create, rename, delete, rename_found, delete_found, handle,
}

abbrev pub others : String → ApiKeys → ApiKeys
others user_id keys = select (λ (k : ApiKey). not (k.user_id == user_id)) keys

get_by_id-contains :
    (id user_id : String) (keys : ApiKeys) (k : ApiKey)
    → get_by_id id user_id keys ≡ some k
    → contains (map (λ (r : ApiKey). r.id) keys) id ≡ true
unfolding get_by_id contains
get_by_id-contains id user_id [] k h = cc
get_by_id-contains id user_id (r ∷ keys) k h =
    elim (Bool-cases (r.id == id && r.user_id == user_id)) [
      | inl here ↦ ground arith
      | inr later ↦ ground (arith, get_by_id-contains id user_id keys k (rw later at h))
    ]

not_both : (b : Bool) → b ≡ true → b ≡ false → ⊥
not_both b h k = cc

rewrite-others :
    (id user_id : String) (f : ApiKey → ApiKey) (keys : ApiKeys) (k : ApiKey)
    → ((r : ApiKey) → (f r).user_id ≡ r.user_id)
    → IsKey (λ (r : ApiKey). r.id) keys
    → get_by_id id user_id keys ≡ some k
    → others user_id (rewrite id f keys) ≡ others user_id keys
unfolding get_by_id rewrite
rewrite-others id user_id f [] k same keyed h = refl
rewrite-others id user_id f (r ∷ keys) k same keyed h = elim (Bool-cases (r.id == id)) [
  | inl here ↦ elim (Bool-cases (r.user_id == user_id)) [
    | inl own ↦ rw (here, same r, own) refl
    | inr other ↦
        let found = get_by_id-contains id user_id keys k (rw (here, other) at h) in
        let same_id = eq_of_beq r.id id here in
        let missing = keyed.0 in
        elim (not_both (contains (map (λ (x : ApiKey). x.id) keys) id) found
          (subst (λ i. contains (map (λ (x : ApiKey). x.id) keys) i ≡ false) same_id missing)) [ ]
  ]
  | inr later ↦
      let rest = rewrite-others id user_id f keys k same keyed.1 (rw later at h) in
      rw (later, rest) refl
]

renamed-user :
    (name provider : String) (now : ℕ) (r : ApiKey)
    → (renamed name provider now r).user_id ≡ r.user_id
unfolding renamed
renamed-user name provider now r = ground arith

revoked-user : (now : ℕ) (r : ApiKey) → (revoked now r).user_id ≡ r.user_id
unfolding revoked
revoked-user now r = refl

rename-others :
    (id name provider user_id : String) (now : ℕ) (o : Option ApiKey) (keys after : ApiKeys)
    → o ≡ get_by_id id user_id keys
    → IsKey (λ (r : ApiKey). r.id) keys
    → rename_found id name provider now o keys ≡ ok after
    → others user_id after ≡ others user_id keys
unfolding rename_found update
rename-others id name provider user_id now none keys after e keyed h = cc
rename-others id name provider user_id now (some k) keys after e keyed h =
    elim (Bool-cases (is_active k)) [
      | inl active ↦
          let written : rewrite id (renamed name provider now) keys ≡ after = cc (rw active at h) in
          ap (others user_id) (sym written)
          ∙ rewrite-others id user_id (renamed name provider now) keys k
              (renamed-user name provider now) keyed (sym e)
      | inr gone' ↦ cc (rw gone' at h)
    ]

delete-others :
    (id user_id : String) (now : ℕ) (o : Option ApiKey) (keys after : ApiKeys)
    → o ≡ get_by_id id user_id keys
    → IsKey (λ (r : ApiKey). r.id) keys
    → delete_found id now o keys ≡ ok after
    → others user_id after ≡ others user_id keys
unfolding delete_found revoke
delete-others id user_id now none keys after e keyed h = cc
delete-others id user_id now (some k) keys after e keyed h =
    let written : rewrite id (revoked now) keys ≡ after = cc in
    ap (others user_id) (sym written)
    ∙ rewrite-others id user_id (revoked now) keys k (revoked-user now) keyed (sym e)

-- Where ids are unique, a request of a user that succeeds leaves every other user's keys as they were.
pub handle-others :
    (user_id : String) (now : ℕ) (request : ApiKeyRequest) (keys after : ApiKeys)
    → IsKey (λ (k : ApiKey). k.id) keys
    → handle user_id now request keys ≡ ok after
    → others user_id after ≡ others user_id keys
unfolding handle
handle-others user_id now (create id name provider secret_value) keys after keyed h =
    let written : new_key id user_id name provider secret_value now ∷ keys ≡ after = cc in
    ap (others user_id) (sym written) ∙ rw (beq_self user_id) refl
handle-others user_id now (rename id name provider) keys after keyed h =
    rename-others id name provider user_id now (get_by_id id user_id keys) keys after refl keyed h
handle-others user_id now (delete id) keys after keyed h =
    delete-others id user_id now (get_by_id id user_id keys) keys after refl keyed h

-- ===== src/Auth/Keys.antt =====
-- API keys: who they let in, and that a new key works and a revoked one does not.
use gpu_relay.Common.{
  ℕ, String, str_eq, eq_iff, eq_refl, ◌≡◌, refl, ◌⊎◌, inl, inr, Bool, true, none, some, List, [],
  ◌∷◌, find, filter, map, All, startswith, ok, err, http, arith, Bool-cases, Option-cases,
}
use gpu_relay.Models.{User, ApiKey}
use gpu_relay.Auth.{
  Db, Crypto, AuthMethod, api_key, jwt, api_key_prefix, get_user, selected, with_hash, matching_row,
  lookup_api_key, get_current_user, create_api_key, revoke_api_key, revoke, active,
}

-- What `find` answers satisfies the test.
find-holds {ℓ} : {A : Type ℓ} (p : A → Bool) (xs : List A) (x : A) → find p xs ≡ some x → p x ≡ true
find-holds p [] x e = cc
find-holds p (y ∷ xs) x e = ground (arith, find-holds p xs x)

find-filter {ℓ} :
    {A : Type ℓ} (p q : A → Bool) (xs : List A) (x : A)
    → find p (filter q xs) ≡ some x
    → (p x ≡ true) × (q x ≡ true)
find-filter p q [] x e = cc
find-filter p q (y ∷ xs) x e = ground (arith, find-filter p q xs x)

-- The row that a token is matched with.
matching-fits :
    (c : Crypto) (db : Db) (token : String) (row : ApiKey)
    → matching_row c db token ≡ some row
    → (row.revoked_at ≡ none)
      × (row.key_hash ≡ c.sha256_hex token)
      × (active (get_user db.users row.user_id) ≡ true)
unfolding matching_row selected
matching-fits c db token row e =
    let (hash, sel) =
      find-filter (with_hash (c.sha256_hex token)) (selected db.users token) db.api_keys row e in
    ground (arith, hash, sel, eq_iff row.key_hash (c.sha256_hex token))

-- Whoever is let in is an active user of the table: by a key, there is a row that is not revoked,
-- has the token's hash and belongs to the user; otherwise the JWT library has decoded the token to
-- the user's id.
pub get_current_user-active :
    (c : Crypto) (now : ℕ) (token : String) (db : Db) (u : User) (m : AuthMethod)
    → (get_current_user c now (some token) db).0 ≡ ok (u, m)
    → (u.is_active ≡ true)
      × (((m ≡ api_key)
            × (row : ApiKey) × (matching_row c db token ≡ some row)
            × (row.revoked_at ≡ none)
            × (row.key_hash ≡ c.sha256_hex token)
            × (get_user db.users row.user_id ≡ some u))
          ⊎ ((m ≡ jwt)
              × (id : String) × (c.decode_jwt token ≡ some id)
              × (get_user db.users id ≡ some u)))
unfolding get_current_user lookup_api_key
get_current_user-active c now token db u m e = elim (Bool-cases (startswith api_key_prefix token)) [
  | inl key ↦ elim (Option-cases (matching_row c db token)) [
    | inl missing ↦ cc (rw (key, missing, lookup_api_key) at e)
    | inr (row, found) ↦
        let fits = matching-fits c db token row found in
        ground (arith, rw (key, found, lookup_api_key) at e, fits)
  ]
  | inr other ↦ elim (Option-cases (c.decode_jwt token)) [
    | inl missing ↦ cc (rw (other, missing) at e)
    | inr (id, found) ↦ ground (arith, rw (other, found) at e)
  ]
]

-- A new key lets its user in: with the user found under its id and active, the request that shows
-- the plaintext is answered with that user.
pub create-authenticates :
    (c : Crypto) (now : ℕ) (secret id : String) (u : User) (db : Db)
    → get_user db.users u.id ≡ some u
    → u.is_active ≡ true
    → let made = create_api_key c secret id u db in
      (get_current_user c now (some made.0) made.1).0 ≡ ok (u, api_key)
unfolding create_api_key get_current_user lookup_api_key matching_row selected get_user
create-authenticates c now secret id u db known on = simp (known, on, eq_refl)

revoked-unmatched :
    (users : List User) (token h id : String) (now : ℕ) (keys : List ApiKey)
    → All (λ (r : ApiKey). (r.key_hash ≡ h) → (r.id ≡ id)) keys
    → find (with_hash h) (filter (selected users token) (map (revoke id now) keys)) ≡ none
unfolding selected
revoked-unmatched users token h id now [] only = refl
revoked-unmatched users token h id now (r ∷ keys) only = ground (
  arith,
  only.0,
  eq_iff r.key_hash h,
  eq_iff r.id id,
  revoked-unmatched users token h id now keys only.1,
)

-- Once the only row with a token's hash is revoked by its owner, the token is refused with 401. The
-- database keeps ids apart, so no other row has the row's id, and hashes too.
pub revoke-refuses :
    (c : Crypto) (now later : ℕ) (token : String) (row : ApiKey) (u : User) (db : Db)
    → startswith api_key_prefix token ≡ true
    → find (λ (r : ApiKey). str_eq r.id row.id) db.api_keys ≡ some row
    → row.user_id ≡ u.id
    → All (λ (r : ApiKey). (r.key_hash ≡ c.sha256_hex token) → (r.id ≡ row.id)) db.api_keys
    → let after = revoke_api_key row.id now u db in
      (after.0 ≡ ok tt) × ((get_current_user c later (some token) after.1).0 ≡ err (http 401))
unfolding revoke_api_key get_current_user lookup_api_key
revoke-refuses c now later token row u db key found owner only =
    let own : str_eq row.user_id u.id ≡ true = (eq_iff row.user_id u.id).1 owner in
    let after : Db = record db { api_keys = map (revoke row.id now) db.api_keys } in
    let done : revoke_api_key row.id now u db ≡ (ok tt, after) =
      rw (found, own, revoke_api_key) refl in
    let gone : matching_row c after token ≡ none =
      unfold matching_row in
      revoked-unmatched db.users token (c.sha256_hex token) row.id now db.api_keys only in
    rw done (refl, rw (key, gone, lookup_api_key) refl)

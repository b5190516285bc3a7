-- ===== src/Auth.antt =====
-- bridge/auth.py, and the key and login routes of bridge/main.py. Hashing, the password check and
-- the tokens of the JWT library are parameters.
pub mod Keys
use gpu_relay.Common.{
  ℕ, String, str_eq, Bool, true, false, ◌&&◌, Option, none, some, List, [], ◌∷◌, find, filter, map,
  take_chars, prepend, startswith, Result, ok, err, http, ◌>>=◌, if◌then◌else◌,
}
use gpu_relay.Models.{User, UserRole, ApiKey}

abbrev pub api_key_prefix : String
api_key_prefix = "sk-llm-"

-- The rows that the routes read and write. A query sees the rows of a table in the list's order.
pub record Db : Type 0 where
  pub users : List User
  pub api_keys : List ApiKey

-- The SHA-256 of a text in hexadecimal; `jwt.decode(...)["sub"]`, none where it raises or there is
-- no such claim; and the password check of a given password against a stored hash.
pub record Crypto : Type 0 where
  pub sha256_hex : String → String
  pub decode_jwt : String → Option String
  pub verify_password : String → String → Bool
  pub encode_jwt : String → String

-- How a request was authenticated: `request.state.auth_method`.
pub data AuthMethod : Type 0 where
  api_key jwt : AuthMethod

-- `session.get(User, id)`
unfoldable pub get_user : List User → String → Option User
get_user users id = find (λ (u : User). str_eq u.id id) users

abbrev pub is_none {ℓ} : {A : Type ℓ} → Option A → Bool
is_none none = true
is_none (some a) = false

abbrev pub active : Option User → Bool
active none = false
active (some u) = u.is_active

-- The condition of the query: not revoked, of an active user, with the token's first characters.
unfoldable pub selected : List User → String → ApiKey → Bool
selected users token row =
    is_none row.revoked_at
    && active (get_user users row.user_id)
    && str_eq row.key_prefix (take_chars 12 token)

abbrev pub with_hash : String → ApiKey → Bool
with_hash h row = str_eq row.key_hash h

-- The row that the loop stops at.
unfoldable pub matching_row : Crypto → Db → String → Option ApiKey
matching_row crypto db token =
    find (with_hash (crypto.sha256_hex token)) (filter (selected db.users token) db.api_keys)

abbrev touch : ApiKey → ℕ → ApiKey → ApiKey
touch used now row = if str_eq row.id used.id then record row { last_used_at = some now } else row

unfoldable pub lookup_api_key : Crypto → ℕ → String → Db → Option User × Db
lookup_api_key crypto now token db = elim (matching_row crypto db token) [
  | none ↦ (none, db)
  | some row ↦
      (get_user db.users row.user_id, record db { api_keys = map (touch row now) db.api_keys })
]

abbrev by_api_key : Option User × Db → Result (User × AuthMethod) × Db
by_api_key (none, db) = (err (http 401), db)
by_api_key (some u, db) = (ok (u, api_key), db)

abbrev by_jwt : Option User → Result (User × AuthMethod)
by_jwt none = err (http 401)
by_jwt (some u) = if u.is_active then ok (u, jwt) else err (http 401)

unfoldable pub get_current_user : Crypto → ℕ → Option String → Db → Result (User × AuthMethod) × Db
get_current_user crypto now none db = (err (http 401), db)
get_current_user crypto now (some token) db =
    if startswith api_key_prefix token
    then by_api_key (lookup_api_key crypto now token db)
    else elim (crypto.decode_jwt token) [
      | none ↦ (err (http 401), db)
      | some id ↦ (by_jwt (get_user db.users id), db)
    ]

abbrev is_admin : UserRole → Bool
is_admin UserRole.admin = true
is_admin _ = false

unfoldable pub require_admin : User → Result User
require_admin user = if is_admin user.role then ok user else err (http 403)

-- `create_api_key`: the plaintext, and the row with its hash. The random secret and the row's id
-- are given.
unfoldable pub create_api_key : Crypto → String → String → User → Db → String × Db
create_api_key crypto secret id user db =
    let plaintext = prepend api_key_prefix secret in
    let row : ApiKey = record {
      id = id;
      user_id = user.id;
      key_hash = crypto.sha256_hex plaintext;
      key_prefix = take_chars 12 plaintext;
      last_used_at = none;
      revoked_at = none;
    } in
    (plaintext, record db { api_keys = row ∷ db.api_keys })

abbrev pub revoke : String → ℕ → ApiKey → ApiKey
revoke key_id now row = if str_eq row.id key_id then record row { revoked_at = some now } else row

unfoldable pub revoke_api_key : String → ℕ → User → Db → Result (Unit {0}) × Db
revoke_api_key key_id now user db =
    elim (find (λ (row : ApiKey). str_eq row.id key_id) db.api_keys) [
      | none ↦ (err (http 404), db)
      | some row ↦
          if str_eq row.user_id user.id
          then (ok tt, record db { api_keys = map (revoke key_id now) db.api_keys })
          else (err (http 404), db)
    ]

abbrev check_password : Crypto → String → Option String → Bool
check_password crypto password none = false
check_password crypto password (some h) =
    if str_eq h "" then false else crypto.verify_password password h

unfoldable pub login : Crypto → String → String → Db → Result (String × User)
login crypto email password db =
    elim (find (λ (u : User). str_eq u.email email && u.is_active) db.users) [
      | none ↦ err (http 401)
      | some u ↦
          if check_password crypto password u.password_hash
          then ok (crypto.encode_jwt u.id, u)
          else err (http 401)
    ]

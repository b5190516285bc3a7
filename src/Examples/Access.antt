-- ===== src/Examples/Access.antt =====
-- Authentication at concrete keys.
use gpu_relay.Common.{
  String, ◌≡◌, ◌⊎◌, refl, true, none, some, [], ◌∷◌, ok, err, http, prepend, take_chars, str_eq,
}
use gpu_relay.Models.{ApiKey}
use gpu_relay.Auth.{
  Db, Crypto, AuthMethod, api_key, jwt, get_user, matching_row, get_current_user, create_api_key,
  revoke_api_key, api_key_prefix,
}
use gpu_relay.Auth.Keys.{get_current_user-active, revoke-refuses}
use gpu_relay.Examples.Data.{ann}

-- A hash that keeps the text, and tokens that are the user's id.
abbrev crypto : Crypto
crypto = record {
  sha256_hex = prepend "sha:";
  decode_jwt = λ token. some token;
  verify_password = λ password hash. str_eq password hash;
  encode_jwt = λ id. id;
}

abbrev key_row : ApiKey
key_row = record {
  id = "k1";
  user_id = "ann";
  key_hash = "sha:sk-llm-secret";
  key_prefix = "sk-llm-secre";
  last_used_at = none;
  revoked_at = none;
}

abbrev db : Db
db = record { users = ann ∷ []; api_keys = key_row ∷ [] }

let_in : (get_current_user crypto 700 (some "sk-llm-secret") db).0 ≡ ok (ann, api_key)
unfolding get_current_user gpu_relay.Auth.lookup_api_key matching_row gpu_relay.Auth.selected
    get_user take_chars
let_in = refl

get_current_user-active_example :
    (ann.is_active ≡ true)
    × (((api_key ≡ api_key)
          × (row : ApiKey) × (matching_row crypto db "sk-llm-secret" ≡ some row)
          × (row.revoked_at ≡ none)
          × (row.key_hash ≡ crypto.sha256_hex "sk-llm-secret")
          × (get_user db.users row.user_id ≡ some ann))
        ⊎ ((api_key ≡ jwt)
            × (id : String) × (crypto.decode_jwt "sk-llm-secret" ≡ some id)
            × (get_user db.users id ≡ some ann)))
get_current_user-active_example =
    get_current_user-active crypto 700 "sk-llm-secret" db ann api_key let_in

known : get_user db.users ann.id ≡ some ann
unfolding get_user
known = refl

revoke-refuses_example :
    let after = revoke_api_key key_row.id 700 ann db in
    (after.0 ≡ ok tt)
    × ((get_current_user crypto 800 (some "sk-llm-secret") after.1).0 ≡ err (http 401))
revoke-refuses_example =
    revoke-refuses crypto 700 800 "sk-llm-secret" key_row ann db refl refl refl (λ e. refl, tt)

-- ===== src/Routes/Accounts.antt =====
-- The account routes of bridge/main.py: the list of keys, the creation of a user with its
-- synchronisation, and the usage statistics.
pub mod Created
pub mod Usage
use gpu_relay.Common.{
  ℕ, String, str_eq, Bool, true, false, Option, none, some, List, [], ◌∷◌, filter, map, take_chars,
  Result, err, ok, http, runtime_error, ◌>>=◌, ◌+◌, ◌*◌, ◌/◌, ltb, if◌then◌else◌, not,
}
use gpu_relay.Json.{Json, Members}
use gpu_relay.Models.{User, UserRole, BillingMode, NoVolumePolicy, ApiKey}
use gpu_relay.Auth.{Db, Crypto, create_api_key, is_none}
use gpu_relay.Workflow.Local.{is_falsy}
use gpu_relay.Clients.Sync.{Reply, create_openwebui_user, update_pipeline_user_key_map}
use gpu_relay.Routes.Tables.{scalar_one_or_none}

pub record ApiKeyListItem : Type 0 where
  pub id : String
  pub prefix : String
  pub last_used_at : Option ℕ
  pub revoked : Bool

abbrev item_of : ApiKey → ApiKeyListItem
item_of k = record {
  id = k.id;
  prefix = k.key_prefix;
  last_used_at = k.last_used_at;
  revoked = not (is_none k.revoked_at);
}

-- The user's keys, in the order of the query.
unfoldable pub list_api_keys : User → List ApiKey → List ApiKeyListItem
list_api_keys user keys = map item_of (filter (λ (k : ApiKey). str_eq k.user_id user.id) keys)

-- An amount that may be negative, in 0.000001 USD: `negsuc n` is the amount -(n + 1).
pub data ℤ : Type 0 where
  pos negsuc : ℕ → ℤ

pub record CreateUserRequest : Type 0 where
  pub email : String
  pub password : String
  pub role : String
  pub billing_mode : String
  pub budget_usd : ℤ
  pub sync_openwebui : Bool
  pub create_api_key : Bool

pub record CreateUserResponse : Type 0 where
  pub user_id : String
  pub email : String
  pub api_key : Option String
  pub key_prefix : Option String
  pub openwebui_synced : Bool
  pub pipeline_synced : Bool

pub record Quota : Type 0 where
  pub user_id : String
  pub requests_per_minute : ℕ
  pub tokens_per_day : ℕ
  pub usd_per_month : ℕ
  pub max_tier : String

-- The tables that the route writes.
pub record Accounts : Type 0 where
  pub db : Db
  pub quotas : List Quota

-- `UserRole(body.role)`
unfoldable pub user_role : String → Result UserRole
user_role name =
    if str_eq name "admin"
    then ok UserRole.admin
    else if str_eq name "user"
    then ok UserRole.user
    else if str_eq name "service"
    then ok UserRole.service
    else err (http 400)

unfoldable pub db_billing_mode : String → Result BillingMode
db_billing_mode name =
    if str_eq name "prepaid"
    then ok BillingMode.prepaid
    else if str_eq name "postpaid"
    then ok BillingMode.postpaid
    else err (http 400)

-- What `Numeric(12, 4)` and the constraint ck_users_budget_nonneg make of an amount: it is rounded to
-- 0.0001 USD, and the database raises for an amount of 100,000,000 USD or more and for one below 0.
unfoldable pub stored_budget : ℤ → Result ℕ
stored_budget (pos n) =
    let rounded = (n + 50) / 100 * 100 in
    if ltb rounded 100_000_000_000_000 then ok rounded else err runtime_error
stored_budget (negsuc n) = if ltb (n + 1) 50 then ok 0 else err runtime_error

abbrev pub no_such_user : Option User → Result (Unit {0})
no_such_user none = ok tt
no_such_user (some u) = err (http 409)

-- `User(...)` with the columns' defaults
abbrev pub new_user :
    (String → String) → String → CreateUserRequest → UserRole → BillingMode → ℕ → User
new_user hash_password id body role billing budget = record {
  id = id;
  email = body.email;
  password_hash = some (hash_password body.password);
  role = role;
  billing_mode = billing;
  monthly_budget_usd = budget;
  prepaid_balance_usd = 0;
  is_active = true;
  allowed_tiers = [];
  preferred_tiers = [];
  disabled_providers = [];
  provider_order = [];
  allow_local = false;
  no_volume_policy = some NoVolumePolicy.use_env;
  allow_env_storage = true;
}

abbrev pub new_quota : User → ℕ → Quota
new_quota user budget = record {
  user_id = user.id;
  requests_per_minute = 60;
  tokens_per_day = 1_000_000;
  usd_per_month = budget;
  max_tier = "ultra";
}

-- What the other services answer to the synchronisation.
pub record Services : Type 0 where
  pub openwebui_admin_email : String
  pub openwebui_admin_password : String
  pub signin : Option Reply
  pub add : String → String → Json → Option Reply
  pub loads : String → Option Json
  pub dumps : Json → String
  pub pipelines_api_key : String
  pub valves : Option Reply
  pub update : Members → Option Reply

abbrev pub map_synced : Services → String → Option String → Bool
map_synced s email none = false
map_synced s email (some key) =
    if str_eq key ""
    then false
    else (update_pipeline_user_key_map s.loads s.dumps s.pipelines_api_key s.valves s.update email
        key).0

abbrev ow_synced : Services → CreateUserRequest → Bool
ow_synced s body = not (
    is_falsy (
      create_openwebui_user s.openwebui_admin_email s.openwebui_admin_password s.signin
        (s.add body.email body.password)))

-- The identifiers that the call draws: of the user, of the key, and the key's secret.
pub record Drawn : Type 0 where
  pub user_id : String
  pub key_id : String
  pub secret : String

-- The key, if one is wished for, and the table of keys with it.
abbrev pub with_key : Crypto → Drawn → Bool → User → Db → Option String × Db
with_key crypto drawn false user db = (none, db)
with_key crypto drawn true user db =
    let (key, db') = create_api_key crypto drawn.secret drawn.key_id user db in (some key, db')

abbrev prefix_of : Option String → Option String
prefix_of none = none
prefix_of (some key) = some (take_chars 12 key)

abbrev response : Services → CreateUserRequest → User → Option String → CreateUserResponse
response s body user key = record {
  user_id = user.id;
  email = user.email;
  api_key = key;
  key_prefix = prefix_of key;
  openwebui_synced = if body.sync_openwebui then ow_synced s body else false;
  pipeline_synced = if body.sync_openwebui then map_synced s body.email key else false;
}

abbrev pub added :
    Crypto → Services → Drawn → CreateUserRequest → User → Accounts → CreateUserResponse × Accounts
added crypto s drawn body user a =
    let with_user : Db = record a.db { users = user ∷ a.db.users } in
    let (key, db) = with_key crypto drawn body.create_api_key user with_user in
    (
      response s body user key,
      record { db = db; quotas = new_quota user user.monthly_budget_usd ∷ a.quotas },
    )

unfoldable pub admin_create_user :
    Crypto
    → (String → String)
    → Services
    → Drawn
    → CreateUserRequest
    → Accounts
    → Result (CreateUserResponse × Accounts)
admin_create_user crypto hash_password s drawn body a = do
  existing ← scalar_one_or_none (filter (λ (u : User). str_eq u.email body.email) a.db.users)
  missing ← no_such_user existing
  role ← user_role body.role
  billing ← db_billing_mode body.billing_mode
  budget ← stored_budget body.budget_usd
  ok (added crypto s drawn body (new_user hash_password drawn.user_id body role billing budget) a)

-- The answer to `admin_sync_openwebui`, with the email.
unfoldable pub admin_sync_openwebui : Services → String → Option String → String × Bool
admin_sync_openwebui s email api_key = (email, map_synced s email api_key)

-- ===== src/Models.antt =====
-- database/models.py: the rows that the bridge reads and writes. Amounts of money are whole
-- numbers of 0.000001 USD, times are whole numbers of seconds unless a name says otherwise, and a
-- JSON column that is NULL or an empty list is the empty list, since the code tests both alike.
use gpu_relay.Common.{ℕ, String, Bool, Option, List}

pub data UserRole : Type 0 where
  admin user service : UserRole

pub data BillingMode : Type 0 where
  prepaid postpaid : BillingMode

pub data PodStatus : Type 0 where
  provisioning starting ready draining terminated failed : PodStatus

pub data RequestStatus : Type 0 where
  ok error timeout rejected_quota rejected_budget : RequestStatus

pub data NoVolumePolicy : Type 0 where
  use_env stateless block : NoVolumePolicy

pub record User : Type 0 where
  pub id : String
  pub email : String
  pub password_hash : Option String
  pub role : UserRole
  pub billing_mode : BillingMode
  pub monthly_budget_usd : ℕ
  pub prepaid_balance_usd : ℕ
  pub is_active : Bool
  pub allowed_tiers : List String
  pub preferred_tiers : List String
  pub disabled_providers : List String
  pub provider_order : List String
  pub allow_local : Bool
  pub no_volume_policy : Option NoVolumePolicy
  pub allow_env_storage : Bool

pub record ApiKey : Type 0 where
  pub id : String
  pub user_id : String
  pub key_hash : String
  pub key_prefix : String
  pub last_used_at : Option ℕ
  pub revoked_at : Option ℕ

pub record Pod : Type 0 where
  pub id : String
  pub provider : String
  pub tier : String
  pub model : String
  pub external_id : String
  pub endpoint_url : String
  pub status : PodStatus
  pub cost_per_hour_usd : ℕ
  pub health_failures : ℕ
  pub started_at : ℕ
  pub last_used_at : Option ℕ
  pub terminated_at : Option ℕ

pub record Request : Type 0 where
  pub user_id : String
  pub pod_id : Option String
  pub tier : String
  pub prompt_tokens : ℕ
  pub completion_tokens : ℕ
  pub cost_usd : ℕ
  pub status : RequestStatus
  pub idempotency_key : Option String
  pub created_at : ℕ

-- ===== src/Providers.antt =====
-- The adapters of the providers.
pub mod Runpod
pub mod ApiCompat
pub mod Together
pub mod Clouds
pub mod Local
use gpu_relay.Common.{ℕ, String}

-- `PodInfo` of a pod that is asked for its status: the status by its name, and the cost in millionths
-- of a dollar for an hour.
pub record StatusInfo : Type 0 where
  pub external_id : String
  pub gpu : String
  pub model : String
  pub cost_per_hour_usd : ℕ
  pub status : String
  pub endpoint_url : String

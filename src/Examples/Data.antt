-- ===== src/Examples/Data.antt =====
-- A tier table, users, requests and pods.
use gpu_relay.Common.{ℕ, String, true, none, some, List, [], ◌∷◌, ◌/ℚ◌}
use gpu_relay.Models.{
  User, UserRole, BillingMode, NoVolumePolicy, Pod, PodStatus, Request, RequestStatus,
}
use gpu_relay.Schemas.{ChatCompletionRequest, message, plain}
use gpu_relay.Router.Tiers.{TierCfg, Config}
use gpu_relay.Router.Select.{HttpRequest}

abbrev tier_cfg : ℕ → ℕ → ℕ → List String → TierCfg
tier_cfg cents tokens files keywords = record {
  idle_timeout_sec = some 300;
  cost_per_hour_usd = cents /ℚ 100;
  max_prompt_tokens = some tokens;
  max_files = some files;
  keywords = keywords;
  provider_overrides = [];
}

abbrev pub config : Config
config = record {
  tiers =
      ("simple", tier_cfg 34 4000 2 [])
      ∷ ("mid", tier_cfg 50 8000 5 [])
      ∷ ("architecture", tier_cfg 69 16000 10 ("refactor" ∷ []))
      ∷ ("maximum", tier_cfg 110 64000 30 ("audit" ∷ []))
      ∷ ("ultra", tier_cfg 189 128000 100 [])
      ∷ ("vision", tier_cfg 34 8000 5 [])
      ∷ [];
  provider_priority_list = "runpod" ∷ "vast" ∷ [];
}

abbrev pub ann : User
ann = record {
  id = "ann";
  email = "ann@example.org";
  password_hash = none;
  role = UserRole.user;
  billing_mode = BillingMode.prepaid;
  monthly_budget_usd = 50_000_000;
  prepaid_balance_usd = 1_000;
  is_active = true;
  allowed_tiers = "simple" ∷ "architecture" ∷ [];
  preferred_tiers = [];
  disabled_providers = "vast" ∷ [];
  provider_order = [];
  allow_local = true;
  no_volume_policy = some NoVolumePolicy.block;
  allow_env_storage = true;
}

abbrev pub asks : String → String → ChatCompletionRequest
asks model prompt = record {
  model = model;
  messages = message "system" (plain "Be brief.") ∷ message "user" (plain prompt) ∷ [];
  files_referenced = none;
  pipeline = none;
}

abbrev pub no_header : HttpRequest
no_header = record { x_tier = none; tier_param = none }

abbrev pub spent_request : Request
spent_request = record {
  user_id = "ann";
  pod_id = none;
  tier = "simple";
  prompt_tokens = 10;
  completion_tokens = 10;
  cost_usd = 2_000_000;
  status = RequestStatus.ok;
  idempotency_key = some "k1";
  created_at = 500;
}

abbrev pub pod : String → String → String → PodStatus → Pod
pod id provider tier status = record {
  id = id;
  provider = provider;
  tier = tier;
  model = "qwen";
  external_id = "ext";
  endpoint_url = "http://pod";
  status = status;
  cost_per_hour_usd = 340_000;
  health_failures = 0;
  started_at = 100;
  last_used_at = some 200;
  terminated_at = none;
}

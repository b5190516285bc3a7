-- ===== src/Examples/Money.antt =====
-- A cost table, a pod and calls.
use gpu_relay.Common.{String, false, Option, none, some, [], ◌/ℚ◌}
use gpu_relay.Schemas.{PodHandle}
use gpu_relay.Router.Tiers.{TierCfg}
use gpu_relay.Cost.{CostConfig, Call}
use gpu_relay.Examples.Data.{config}

abbrev pub costs : CostConfig
costs = record { tiers = config.tiers; api_token_costs = [] }

abbrev pub used_pod : PodHandle
used_pod = record {
  pod_id = "p1";
  provider = "runpod";
  tier = "simple";
  endpoint_url = "http://pod";
  cost_per_hour_usd = 34 /ℚ 100;
  model = "qwen";
  cold_start = false;
}

abbrev call_with : Option String → Call
call_with message = record {
  pod = some used_pod;
  tier = "simple";
  prompt_tokens = 100;
  completion_tokens = 200;
  latency_ms = 4_000;
  idempotency_key = none;
  error_message = message;
  users_seen = 2;
  now = 900;
}

abbrev simple_cfg : TierCfg
simple_cfg = record {
  idle_timeout_sec = some 300;
  cost_per_hour_usd = 34 /ℚ 100;
  max_prompt_tokens = some 4000;
  max_files = some 2;
  keywords = [];
  provider_overrides = [];
}

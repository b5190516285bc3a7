-- ===== src/Cost/Sharing.antt =====
-- How the idle time of a pod is shared, and the two projections of a cost.
use native.Mathlib.Nat.{mul-le-mul_left}
use gpu_relay.Common.{
  ℕ, ◌+◌, ◌*◌, ◌≤◌, max, String, ◌≡◌, refl, true, or_default, ℚ, ◌≤ℚ◌, arith, ok, lookup, some,
}
use gpu_relay.Router.Tiers.{Config, TierCfg, projected_cost, pod_providers_active, get_tier}
use gpu_relay.Cost.{estimate_cost, session_cost}

more_shares :
    (latency idle m n : ℕ) (rate : ℚ)
    → m ≤ n
    → (latency * n + idle * 1000) * 1 * rate.num * (1000 * m * 3600 * rate.den)
      ≤ (latency * m + idle * 1000) * 1 * rate.num * (1000 * n * 3600 * rate.den)
more_shares latency idle m n rate h =
    omega (arith, mul-le-mul_left (idle * 1000 * rate.num * 1000 * 3600 * rate.den) h)

-- The more users share a pod, the less each session costs.
pub session_cost_anti :
    (latency idle users users' : ℕ) (rate : ℚ)
    → users ≤ users'
    → session_cost latency idle users' rate ≤ℚ session_cost latency idle users rate
unfolding session_cost
session_cost_anti latency idle users users' rate h =
    more_shares latency idle (max users 1) (max users' 1) rate (omega arith)

-- The estimate for one user is the router's projection, where pods have a price.
pub estimate-eq-projected :
    (c : Config) (tier : String) (cfg : TierCfg) (tokens : ℕ)
    → pod_providers_active c ≡ true
    → lookup tier c.tiers ≡ some cfg
    → projected_cost c tier tokens
      ≡ ok (estimate_cost cfg.cost_per_hour_usd tokens (or_default cfg.idle_timeout_sec 300) 1)
unfolding projected_cost get_tier estimate_cost
estimate-eq-projected c tier cfg tokens active known = rw (active, known, get_tier) refl

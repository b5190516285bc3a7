-- ===== src/Router/Prices.antt =====
-- bridge/router.py, `refresh_tier_prices`: the tiers' prices from the offers of the providers.
pub mod Refreshed
use gpu_relay.Common.{
  ℕ, String, Bool, true, ◌&&◌, Option, none, some, List, [], ◌∷◌, codes, find, filter, map,
  to_lower, is_infix, Dict, lookup, or_default, ltb, leb, if◌then◌else◌,
}
use gpu_relay.Gpu.{GpuOffer, tier_vram_required, tier_gpu_preference}
use gpu_relay.Router.Tiers.{TierCfg}
use gpu_relay.Router.Select.{usd}

abbrev pub min_vram : String → ℕ
min_vram tier = or_default (lookup tier tier_vram_required) 8

abbrev pub prefs_of : String → List String
prefs_of tier = or_default (lookup tier tier_gpu_preference) []

-- A candidate, without a look at the upper bound of the tier's memory.
abbrev pub suits : ℕ → GpuOffer → Bool
suits vram o = o.available && leb vram o.vram_gb

abbrev pub names : String → GpuOffer → Bool
names pref o = is_infix (map to_lower (codes pref)) (map to_lower (codes o.gpu))

abbrev pub improves : Option ℕ → ℕ → Bool
improves none cost = true
improves (some best) cost = ltb cost best

-- The preferences of a provider: the first whose first match improves the price ends the loop.
unfoldable pub by_prefs : List GpuOffer → List String → Option ℕ → Option ℕ
by_prefs candidates [] best = best
by_prefs candidates (pref ∷ prefs) best =
    let rest = by_prefs candidates prefs best in
    elim (find (names pref) candidates) [
      | none ↦ rest
      | some match ↦
          if improves best match.cost_per_hour_usd then some match.cost_per_hour_usd else rest
    ]

unfoldable pub by_providers : String → List (List GpuOffer) → Option ℕ → Option ℕ
by_providers tier [] best = best
by_providers tier (offers ∷ providers) best =
    by_providers tier providers
      (by_prefs (filter (suits (min_vram tier)) offers) (prefs_of tier) best)

abbrev pub best_price : String → List (List GpuOffer) → Option ℕ
best_price tier providers = by_providers tier providers none

abbrev pub repriced : Option ℕ → TierCfg → TierCfg
repriced none cfg = cfg
repriced (some price) cfg = record cfg { cost_per_hour_usd = usd price }

-- The offers are those of each provider.
unfoldable pub refresh_tier_prices : List (List GpuOffer) → Dict TierCfg → Dict TierCfg
refresh_tier_prices providers [] = []
refresh_tier_prices providers ((tier, cfg) ∷ tiers) =
    (tier, repriced (best_price tier providers) cfg) ∷ refresh_tier_prices providers tiers

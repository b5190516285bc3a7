-- ===== src/Router/Tiers.antt =====
-- bridge/router.py: the tier table and the projected cost of a request.
use gpu_relay.Common.{
  ℕ, zero, suc, String, str_eq, Bool, not, Option, none, some, List, [], ◌∷◌, reverse, any,
  contains, Dict, lookup, or_default, ℚ, ◌/ℚ◌, of_ℕ, ◌+ℚ◌, ◌*ℚ◌, Result, ok, err, key_error,
  value_error, ◌>>=◌, ◌==◌, leb, if◌then◌else◌,
}

-- What the router reads of a tier of config/tiers.yaml. An absent key is `none`, and an absent
-- keyword list is empty, as is an absent list of provider overrides.
pub record TierCfg : Type 0 where
  pub idle_timeout_sec : Option ℕ
  pub cost_per_hour_usd : ℚ
  pub max_prompt_tokens : Option ℕ
  pub max_files : Option ℕ
  pub keywords : List String
  pub provider_overrides : List String

-- `_TIERS` and the setting `provider_priority_list`
pub record Config : Type 0 where
  pub tiers : Dict TierCfg
  pub provider_priority_list : List String

abbrev pub tier_order : List String
tier_order = "simple" ∷ "mid" ∷ "architecture" ∷ "maximum" ∷ "ultra" ∷ []

abbrev pub pod_providers : List String
pod_providers = "runpod" ∷ "vast" ∷ "lambda" ∷ []

-- `bool(set(provider_priority_list) & _POD_PROVIDERS)`
unfoldable pub pod_providers_active : Config → Bool
pod_providers_active c = any (λ p. contains p pod_providers) c.provider_priority_list

-- `_TIERS[tier_name]`
unfoldable pub get_tier : Config → String → Result TierCfg
get_tier c t = elim (lookup t c.tiers) [ none ↦ err key_error | some cfg ↦ ok cfg ]

abbrev pub charged_sec : TierCfg → ℕ → ℚ
charged_sec cfg prompt_tokens =
    of_ℕ 5 +ℚ prompt_tokens /ℚ 1000 *ℚ (3 /ℚ 2) +ℚ of_ℕ (or_default cfg.idle_timeout_sec 300)

unfoldable pub projected_cost : Config → String → ℕ → Result ℚ
projected_cost c tier_name prompt_tokens = if not (pod_providers_active c) then ok (of_ℕ 0) else do
  tier ← get_tier c tier_name
  ok (charged_sec tier prompt_tokens *ℚ (1 /ℚ 3600) *ℚ tier.cost_per_hour_usd)

-- `xs.index(x)`
unfoldable pub index : String → List String → Result ℕ
index x [] = err value_error
index x (y ∷ ys) = let rest = index x ys in if str_eq x y then ok 0 else (do i ← rest; ok (suc i))

-- `_highest`
unfoldable pub highest : String → String → Result String
highest a b = do i ← index a tier_order; j ← index b tier_order; ok (if leb j i then a else b)

abbrev pub take : ℕ → List String → List String
take zero xs = []
take (suc n) [] = []
take (suc n) (x ∷ xs) = x ∷ take n xs

-- `TIER_ORDER[i - 1::-1]`: at i = 0 the start is -1, which is the last element.
unfoldable pub down_from : ℕ → List String
down_from i = if i == 0 then reverse tier_order else reverse (take i tier_order)

-- `[candidate] + TIER_ORDER[TIER_ORDER.index(candidate) - 1::-1]`
unfoldable pub downgrades : String → Result (List String)
downgrades candidate = do i ← index candidate tier_order; ok (candidate ∷ down_from i)

-- ===== src/Pricing.antt =====
-- bridge/pricing.py: prices for the kinds of users. A price is a whole number of 0.0001 USD.
pub mod Rounding
pub mod Laws
use gpu_relay.Common.{
  ℕ, ◌+◌, ◌*◌, ◌/◌, String, str_eq, Bool, true, false, ◌&&◌, Option, none, some, List, [], ◌∷◌,
  Dict, lookup, ℚ, ◌/ℚ◌, of_ℕ, ◌*ℚ◌, leb_ℚ, Result, ok, err, value_error, ◌>>=◌, if◌then◌else◌, ◌≡◌,
  refl, or_default,
}
use Rounding.{half_up}

pub record TierPrice : Type 0 where
  pub cost_per_hour_usd : ℚ
  pub markup : ℚ
  pub prepaid_discount : Option ℚ
  pub volume_discount_100hrs : Option ℚ
  pub volume_discount_200hrs : Option ℚ

abbrev cents : ℕ → ℚ
cents n = n /ℚ 100

-- A personal, a family and a business entry of the table.
abbrev cost_price : ℕ → TierPrice
cost_price base = record {
  cost_per_hour_usd = cents base;
  markup = of_ℕ 1;
  prepaid_discount = none;
  volume_discount_100hrs = none;
  volume_discount_200hrs = none;
}

abbrev family_price : ℕ → ℕ → ℕ → TierPrice
family_price base markup prepaid = record {
  cost_per_hour_usd = cents base;
  markup = cents markup;
  prepaid_discount = some (cents prepaid);
  volume_discount_100hrs = none;
  volume_discount_200hrs = none;
}

abbrev business_price : ℕ → ℕ → ℕ → ℕ → TierPrice
business_price base markup at_100 at_200 = record {
  cost_per_hour_usd = cents base;
  markup = cents markup;
  prepaid_discount = none;
  volume_discount_100hrs = some (cents at_100);
  volume_discount_200hrs = some (cents at_200);
}

abbrev pub pricing_config : Dict (Dict TierPrice)
pricing_config =
    (
      "personal",
      ("simple", cost_price 34)
          ∷ ("architecture", cost_price 34)
          ∷ ("maximum", cost_price 110)
          ∷ ("ultra", cost_price 189)
          ∷ [],
    )
    ∷ (
      "family",
      ("simple", family_price 34 115 90)
          ∷ ("architecture", family_price 34 115 90)
          ∷ ("maximum", family_price 110 120 85)
          ∷ ("ultra", family_price 189 120 85)
          ∷ [],
    )
    ∷ (
      "business",
      ("simple", business_price 34 130 95 90)
          ∷ ("architecture", business_price 34 130 95 90)
          ∷ ("maximum", business_price 110 140 93 87)
          ∷ ("ultra", business_price 189 140 93 87)
          ∷ [],
    )
    ∷ []

-- `price *= discount` under `"..." in tier_cfg`
abbrev pub discounted : Option ℚ → ℚ → ℚ
discounted none price = price
discounted (some f) price = price *ℚ f

abbrev pub has : Option ℚ → Bool
has none = false
has (some f) = true

abbrev pub volume_discounted : TierPrice → ℚ → ℚ → ℚ
volume_discounted cfg monthly_hours price =
    if leb_ℚ (of_ℕ 200) monthly_hours && has cfg.volume_discount_200hrs
    then discounted cfg.volume_discount_200hrs price
    else if leb_ℚ (of_ℕ 100) monthly_hours && has cfg.volume_discount_100hrs
    then discounted cfg.volume_discount_100hrs price
    else price

-- `base_rate * markup * duration_hours`
abbrev pub base_price : TierPrice → ℚ → ℚ
base_price cfg duration_seconds =
    cfg.cost_per_hour_usd *ℚ cfg.markup *ℚ (duration_seconds *ℚ (1 /ℚ 3600))

abbrev pub prepaid_price : TierPrice → Bool → ℚ → ℚ
prepaid_price cfg is_prepaid price =
    if is_prepaid then discounted cfg.prepaid_discount price else price

-- The exact price of a session.
unfoldable pub exact_price : TierPrice → String → ℚ → Bool → ℚ → ℚ
exact_price cfg user_type duration_seconds is_prepaid monthly_hours =
    let price = prepaid_price cfg is_prepaid (base_price cfg duration_seconds) in
    if str_eq user_type "business" then volume_discounted cfg monthly_hours price else price

-- `PRICING_CONFIG[user_type].get(tier)` under its two tests
unfoldable pub find_price : String → String → Result TierPrice
find_price user_type tier = elim (lookup user_type pricing_config) [
  | none ↦ err value_error
  | some tiers ↦ elim (lookup tier tiers) [ none ↦ err value_error | some cfg ↦ ok cfg ]
]

unfoldable pub calculate_price : String → ℚ → String → Bool → ℚ → Result ℕ
calculate_price tier duration_seconds user_type is_prepaid monthly_hours = do
  cfg ← find_price user_type tier
  ok (half_up 10_000 (exact_price cfg user_type duration_seconds is_prepaid monthly_hours))

unfoldable pub effective_hourly_rate : String → String → Bool → ℚ → Result ℕ
effective_hourly_rate tier user_type is_prepaid monthly_hours =
    calculate_price tier (of_ℕ 3600) user_type is_prepaid monthly_hours

rates : Dict TierPrice → String → Result (Dict ℕ)
rates [] user_type = ok []
rates ((tier, cfg) ∷ tiers) user_type =
    let rest = rates tiers user_type in
    (do
      rate ← effective_hourly_rate tier user_type false (of_ℕ 0)
      others ← rest
      ok ((tier, rate) ∷ others))

unfoldable pub markup_summary : String → Result (Dict ℕ)
unfolding rates
markup_summary user_type = rates (or_default (lookup user_type pricing_config) []) user_type

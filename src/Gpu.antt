-- ===== src/Gpu.antt =====
-- providers/base.py: which GPU offers suit a tier, and their order.
pub mod Ranked
use gpu_relay.Common.{
  ℕ, ◌+◌, ◌≤◌, String, Bool, true, false, ◌&&◌, ◌||◌, ◌==◌, List, [], ◌∷◌, filter, map, Dict,
  lookup, or_default, codes, to_lower, is_infix, ltb, leb, Result, Error, ok, err, provider_error,
  key_error, ◌>>=◌, if◌then◌else◌,
}

-- The cost is in millionths of a dollar.
pub record GpuOffer : Type 0 where
  pub provider : String
  pub gpu : String
  pub vram_gb : ℕ
  pub cost_per_hour_usd : ℕ
  pub available : Bool
  pub gpu_type_id : String

abbrev pub tier_vram_required : Dict ℕ
tier_vram_required =
    ("simple", 8) ∷ ("architecture", 20) ∷ ("maximum", 38) ∷ ("ultra", 50) ∷ ("vision", 10) ∷ []

abbrev tier_vram_max : Dict ℕ
tier_vram_max = ("simple", 24) ∷ ("vision", 24) ∷ []

abbrev pub tier_gpu_preference : Dict (List String)
tier_gpu_preference =
    ("simple", "4090" ∷ "3090" ∷ "a40" ∷ "a6000" ∷ [])
    ∷ ("architecture", "4090" ∷ "3090" ∷ "a40" ∷ "a6000" ∷ [])
    ∷ ("maximum", "l40s" ∷ "l40" ∷ "a40" ∷ "a100 40" ∷ "a100-40" ∷ [])
    ∷ ("ultra", "a100 80" ∷ "a100-80" ∷ "a100 sxm4 80" ∷ "h100" ∷ [])
    ∷ ("vision", "4090" ∷ "3090" ∷ "a40" ∷ "a6000" ∷ [])
    ∷ []

-- `o.available and min_vram <= o.vram_gb <= max_vram`
unfoldable pub is_candidate : String → GpuOffer → Bool
is_candidate tier o =
    o.available
    && leb (or_default (lookup tier tier_vram_required) 8) o.vram_gb
    && leb o.vram_gb (or_default (lookup tier tier_vram_max) 10_000)

-- The place of the first preference that the GPU's name contains, or the number of preferences.
unfoldable pub preference : List ℕ → List String → ℕ
preference gpu_lower [] = 0
preference gpu_lower (pref ∷ prefs) =
    let rest = preference gpu_lower prefs in
    if is_infix (map to_lower (codes pref)) gpu_lower then 0 else rest + 1

unfoldable pub rank : String → GpuOffer → ℕ × ℕ
rank tier o = (
  preference (map to_lower (codes o.gpu)) (or_default (lookup tier tier_gpu_preference) []),
  o.cost_per_hour_usd,
)

-- The order of Python's tuples.
abbrev pub no_worse : ℕ × ℕ → ℕ × ℕ → Bool
no_worse (i, c) (j, d) = ltb i j || (i == j && leb c d)

unfoldable pub place : String → GpuOffer → List GpuOffer → List GpuOffer
place tier o [] = o ∷ []
place tier o (p ∷ ps) =
    let rest = place tier o ps in
    if no_worse (rank tier o) (rank tier p) then o ∷ p ∷ ps else p ∷ rest

-- `sorted(candidates, key=_rank)`, which is stable.
unfoldable pub sorted : String → List GpuOffer → List GpuOffer
sorted tier [] = []
sorted tier (o ∷ os) = place tier o (sorted tier os)

abbrev pub ranking : String → List GpuOffer → Result (List GpuOffer)
ranking tier [] = err provider_error
ranking tier (o ∷ os) = ok (sorted tier (o ∷ os))

-- `_rank_gpu_offers`
unfoldable pub rank_gpu_offers : String → List GpuOffer → Result (List GpuOffer)
rank_gpu_offers tier offers = ranking tier (filter (is_candidate tier) offers)

-- `ranked[0]`
abbrev pub first : List GpuOffer → Result GpuOffer
first [] = err key_error
first (o ∷ os) = ok o

-- `_select_gpu_offer`
unfoldable pub select_gpu_offer : String → List GpuOffer → Result GpuOffer
select_gpu_offer tier offers = rank_gpu_offers tier offers >>= first

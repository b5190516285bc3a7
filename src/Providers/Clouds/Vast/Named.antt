-- ===== src/Providers/Clouds/Vast/Named.antt =====
-- The offers that Vast's adapter lists.
use gpu_relay.Common.{same_codes, ℕ, ◌<◌, ◌≡◌, true, false, List, [], ◌∷◌, any, All, arith}
use gpu_relay.Gpu.{GpuOffer}
use gpu_relay.Providers.Clouds.Vast.{VastOffer, lower_name, offers_from}

-- The name is not among those.
abbrev pub IsNew : List (List ℕ) → GpuOffer → Type 0
IsNew seen o = any (same_codes (lower_name o.gpu)) seen ≡ false

-- No name comes twice, whatever its case.
abbrev pub Distinct : List (List ℕ) → List GpuOffer → Type 0
Distinct seen [] = Unit
Distinct seen (o ∷ os) = IsNew seen o × Distinct (lower_name o.gpu ∷ seen) os

weaker : (n : List ℕ) (seen : List (List ℕ)) (o : GpuOffer) → IsNew (n ∷ seen) o → IsNew seen o
weaker n seen o h = ground arith

-- Every listed GPU has a price, and no GPU is listed twice, whatever the case of its name: the first
-- usable offer of a name stands for it.
pub offers_from_lem :
    (seen : List (List ℕ)) (os : List VastOffer)
    → Distinct seen (offers_from seen os)
      × All
          (λ (o : GpuOffer). (0 < o.cost_per_hour_usd) × (o.available ≡ true))
          (offers_from seen os)
unfolding offers_from
offers_from_lem seen [] = (tt, tt)
offers_from_lem seen (o ∷ os) =
    ground (arith, offers_from_lem seen os, offers_from_lem (lower_name o.gpu_name ∷ seen) os)

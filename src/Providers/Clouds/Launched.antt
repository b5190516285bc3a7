-- ===== src/Providers/Clouds/Launched.antt =====
-- Which machine a launch on Vast or Lambda is for.
use gpu_relay.Common.{String, ◌≡◌, true, List, [], ◌∷◌, All, filter, ok, join}
use gpu_relay.Gpu.{GpuOffer, is_candidate}
use gpu_relay.Gpu.Ranked.{Preferred}
use gpu_relay.Instance.Spin.{PodInfo}
use gpu_relay.Providers.Runpod.{model_of}
use gpu_relay.Providers.Clouds.Vast
use gpu_relay.Providers.Clouds.Lambda

-- What the adapter orders for an offer, a model and the name of a machine, and that it is the one
-- whose id is reported.
abbrev pub VastRents : Vast.Api → GpuOffer → String → String → String → Type 0
VastRents api best model name id = api.ask best.gpu_type_id model name ≡ ok id

abbrev pub LambdaRents : Lambda.Api → GpuOffer → String → String → String → Type 0
LambdaRents api best model name id =
    (ids : List String) × (api.create (Lambda.region_for api.types best.gpu_type_id)
        best.gpu_type_id model name
      ≡ ok (id ∷ ids))

-- The machine that is ordered is the one of the offers that the tier prefers to all of its others,
-- the model is the tier's, and the id and the price are those of the machine.
abbrev pub IsBest :
    (GpuOffer → String → String → String → Type 0) → String → List GpuOffer → PodInfo → Type 0
IsBest rents tier offers info =
    (best : GpuOffer) × (is_candidate tier best ≡ true)
    × All (Preferred tier best) (filter (is_candidate tier) offers)
    × (info.cost_per_hour_usd ≡ best.cost_per_hour_usd)
    × (model_of tier ≡ ok info.model)
    × rents best info.model (join "" ("llm-" ∷ tier ∷ [])) info.external_id

-- ===== src/Examples/Clouds.antt =====
-- The adapters of the clouds at concrete answers of their APIs.
use gpu_relay.Common.{
  ℕ, ◌<◌, String, str_eq, inr, Bool, true, false, ◌&&◌, Option, none, some, [], ◌∷◌, All, ok,
  if◌then◌else◌, not,
}
use gpu_relay.Instance.Spin.{PodInfo}
use gpu_relay.Providers.Clouds.Vast
use gpu_relay.Providers.Clouds.Lambda

abbrev vast_offer : String → ℕ → Vast.VastOffer
vast_offer name price = record { gpu_name = name; gpu_ram = 24_576; dph_total = price; id = "77" }

abbrev vast : Vast.Api
vast = record {
  configured = true;
  bundles = ok (vast_offer "RTX 3090" 200_000 ∷ vast_offer "rtx 3090" 210_000 ∷ []);
  ask = λ offer_id model label. ok "c1";
  polls = λ id. [];
}

abbrev lambda_api : Lambda.Api
lambda_api = record {
  configured = false;
  types = ok [];
  create = λ region type_name model name. ok [];
  polls = λ id. [];
}

abbrev info : PodInfo
info = record {
  external_id = "c1";
  model = "qwen2.5-coder:7b-instruct-q4_K_M";
  cost_per_hour_usd = 200_000;
  endpoint_url = "";
}

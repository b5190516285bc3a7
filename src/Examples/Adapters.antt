-- ===== src/Examples/Adapters.antt =====
-- The adapters of the providers and the workflows, at concrete answers.
use gpu_relay.Common.{
  ℕ, ◌+◌, ◌≤◌, String, str_eq, ◌≡◌, refl, ◌⊎◌, inl, inr, Bool, if◌then◌else◌, true, false, Option,
  none, some, List, [], ◌∷◌, ◌++◌, All, or_default, startswith, Result, Error, ok, err,
  runtime_error, provider_error, value_error,
}
use gpu_relay.Models.{User, NoVolumePolicy}
use gpu_relay.Schemas.{ChatCompletionRequest, message, image_url, parts}
use gpu_relay.Json.{arr, nil}
use gpu_relay.Gpu.{GpuOffer, rank_gpu_offers}
use gpu_relay.Instance.State.{Settings}
use gpu_relay.Instance.Spin.{PodInfo, volume, Owner, resolve_user_volume}
use gpu_relay.Providers.Runpod.{
  Api, Answer, launched, refused, CloudType, DeployInput, NetworkVolume, launch,
}
use gpu_relay.Providers.Runpod.Deployed.{NoCapacity, Taken, launch-Chosen, stateless_mounts_env}
use gpu_relay.Providers.Together.Cooldown.{Ends, launch_lem}
use gpu_relay.Workflow.Coding.{Models}
use gpu_relay.Examples.Data.{ann, asks}
use gpu_relay.Examples.Pods.{settings}

abbrev offer : String → ℕ → GpuOffer
offer gpu cost = record {
  provider = "runpod";
  gpu = gpu;
  vram_gb = 24;
  cost_per_hour_usd = cost;
  available = true;
  gpu_type_id = gpu;
}

abbrev offers : List GpuOffer
offers = offer "RTX 3090" 220_000 ∷ offer "RTX 4090" 340_000 ∷ []

-- The secure cloud has nothing left, and the other one has an RTX 3090.
abbrev deploy : CloudType → String → Answer
deploy CloudType.secure gpu = refused "There are no longer any instances available"
deploy CloudType.community gpu =
    if str_eq gpu "RTX 3090"
    then launched "pod-1" none
    else refused "There are no longer any instances available"

abbrev api : Api
api = record {
  configured = true;
  list_gpus = ok offers;
  volumes = λ key. ok (record { id = "vol-1"; data_center_id = "EU" } ∷ []);
  deploy = λ input key cloud o. deploy cloud o.gpu;
  endpoint = λ id. "http://pod-1";
}

abbrev info : PodInfo
info = record {
  external_id = "pod-1";
  model = "qwen2.5-coder:7b-instruct-q4_K_M";
  cost_per_hour_usd = 220_000;
  endpoint_url = "http://pod-1";
}

launched_pod : launch api (some "vol-1") "simple" none (volume none none none) ≡ ok info
unfolding launch gpu_relay.Providers.Runpod.launch_on rank_gpu_offers gpu_relay.Gpu.is_candidate
    gpu_relay.Common.lookup gpu_relay.Providers.Runpod.validate_network_volume
    gpu_relay.Providers.Runpod.try_clouds gpu_relay.Providers.Runpod.try_offers gpu_relay.Gpu.sorted
    gpu_relay.Gpu.place gpu_relay.Gpu.rank gpu_relay.Gpu.preference gpu_relay.Common.is_infix
    gpu_relay.Providers.Runpod.is_no_capacity
launched_pod = refl

launch-Chosen_example :
    (offers candidates : List GpuOffer) × (input : DeployInput) × (api.list_gpus ≡ ok offers)
    × (rank_gpu_offers "simple" offers ≡ ok candidates)
    × ((cloud : CloudType) × (offer : GpuOffer) × (cost : Option ℕ) × ((cloud ≡ CloudType.secure)
          ⊎ All (λ o. NoCapacity (api.deploy input none CloudType.secure o)) candidates)
        × Taken (api.deploy input none cloud) candidates offer "pod-1" cost
        × (info.cost_per_hour_usd ≡ or_default cost offer.cost_per_hour_usd))
launch-Chosen_example =
    launch-Chosen api (some "vol-1") "simple" none (volume none none none) info launched_pod

abbrev eve : User
eve = record ann { no_volume_policy = some NoVolumePolicy.stateless; allow_env_storage = false }

abbrev owner : Owner
owner = record { user = some eve; volume_key = none; provider_key = none; decrypt = λ cipher. none }

abbrev volume_settings : Settings
volume_settings = record settings { runpod_network_volume_id = some "vol-1" }

no_volume : resolve_user_volume volume_settings "runpod" (some owner) ≡ ok (volume none none none)
unfolding resolve_user_volume
no_volume = refl

stateless_mounts_env_example :
    ((volume none none none).volume_id ≡ none)
    × (launch api volume_settings.runpod_network_volume_id "simple" none (volume none none none)
        ≡ launch api none "simple" none (volume (some "vol-1") none none))
stateless_mounts_env_example =
    stateless_mounts_env volume_settings owner eve api "simple" none (volume none none none) "vol-1"
      refl refl refl refl refl no_volume

abbrev models : Result String → Models
models answer = record {
  local_call = λ stage user. answer;
  gpu_call = λ sent. ok "done";
  loads = λ text. ok (arr nil);
  show = λ value. "";
}

abbrev review_request : ChatCompletionRequest
review_request = asks "llm-code-review" "please review it"

abbrev with_cat : ChatCompletionRequest
with_cat = record (asks "llm-visual-html" "") {
  messages = message "user" (parts (image_url "data:image/png;base64,AAAA" ∷ [])) ∷ [];
}

abbrev fetch : String → Result (String × String)
fetch url = err provider_error

abbrev silent : String → Result String
silent prompt = err runtime_error

-- The first hardware is refused, and the endpoint on the second one fails.
abbrev together : gpu_relay.Providers.Together.Api
together = record {
  create = λ model hw.
      if str_eq hw "1x_nvidia_l40_48gb_pcie"
      then gpu_relay.Providers.Together.refused "hardware request not available"
      else gpu_relay.Providers.Together.endpoint "ep-1";
  polls = λ id.
      gpu_relay.Providers.Together.state "STARTING"
      ∷ gpu_relay.Providers.Together.state "FAILED"
      ∷ [];
}

abbrev no_miss : gpu_relay.Providers.Together.Trace
no_miss = record { capacity_miss_at = 0; tried = []; created = [] }

launch_lem_example :
    ((5_000 + 1 ≤ 0 + 600)
      × (gpu_relay.Providers.Together.launch together 5_000 5_060 "simple" no_miss
          ≡ (err provider_error, no_miss)))
    ⊎ ((0 + 600 ≤ 5_000)
        × Ends together 5_060 no_miss
            (gpu_relay.Providers.Together.launch together 5_000 5_060 "simple" no_miss))
launch_lem_example = launch_lem together 5_000 5_060 "simple" no_miss

endpoint_left : gpu_relay.Providers.Together.launch together 5_000 5_060 "simple" no_miss ≡ (
  err provider_error,
  record {
    capacity_miss_at = 0;
    tried = "1x_nvidia_l40s_48gb_pcie" ∷ "1x_nvidia_l40_48gb_pcie" ∷ [];
    created = "ep-1" ∷ [];
  },
)
unfolding gpu_relay.Providers.Together.launch gpu_relay.Providers.Together.try_hardware
    gpu_relay.Providers.Together.config_of gpu_relay.Common.lookup
    gpu_relay.Providers.Together.wait_for_running
endpoint_left = refl

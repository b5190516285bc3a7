-- ===== src/Providers/Runpod.antt =====
-- providers/runpod.py, `launch`: the network volume, and the search for capacity over the ranked
-- offers of the two clouds. What RunPod's API answers is an argument.
pub mod Deployed
pub mod Pods
use gpu_relay.Common.{
  ℕ, String, str_eq, Bool, true, false, not, ◌&&◌, ◌||◌, Option, none, some, List, [], ◌∷◌, codes,
  map, to_lower, is_infix, prepend, Dict, lookup, or_default, Result, Error, ok, err, key_error,
  provider_error, volume_error, ◌>>=◌, if◌then◌else◌,
}
use gpu_relay.Gpu.{GpuOffer, rank_gpu_offers}
use gpu_relay.Instance.Spin.{PodInfo, Volume, volume}

-- `TIER_MODEL` of providers/base.py.
abbrev pub tier_model : Dict String
tier_model =
    ("simple", "qwen2.5-coder:7b-instruct-q4_K_M")
    ∷ ("architecture", "qwen2.5:32b-instruct-q4_K_M")
    ∷ ("maximum", "deepseek-v3:latest-q4_K_M")
    ∷ ("ultra", "qwen2.5:72b-instruct-q4_K_M")
    ∷ ("vision", "minicpm-v")
    ∷ []

abbrev pub model_of : String → Result String
model_of tier = elim (lookup tier tier_model) [ none ↦ err key_error | some m ↦ ok m ]

-- A network volume of the account.
pub record NetworkVolume : Type 0 where
  pub id : String
  pub data_center_id : String

abbrev pub with_id : String → List NetworkVolume → Option NetworkVolume
with_id id [] = none
with_id id (v ∷ vs) = if str_eq v.id id then some v else with_id id vs

abbrev in_datacenter : Option String → Option NetworkVolume → Result (Unit {0})
in_datacenter expected none = err volume_error
in_datacenter none (some v) = ok tt
in_datacenter (some dc) (some v) =
    if str_eq dc "" || str_eq v.data_center_id dc then ok tt else err volume_error

-- `_validate_network_volume`, with the volumes that the account has.
unfoldable pub validate_network_volume :
    Result (List NetworkVolume) → String → Option String → Result (Unit {0})
validate_network_volume listed volume_id expected_datacenter = do
  volumes ← listed
  in_datacenter expected_datacenter (with_id volume_id volumes)

-- `a or b`
abbrev pub or_setting : Option String → Option String → Option String
or_setting none b = b
or_setting (some a) b = if str_eq a "" then b else some a

-- The fields of `base_inp` that depend on the call.
pub record DeployInput : Type 0 where
  pub model : String
  pub network_volume_id : Option String
  pub data_center_id : Option String
  pub name : String

pub data CloudType : Type 0 where
  secure community : CloudType

-- What the mutation answers: a pod with its cost, no pod, or an error with its text.
pub data Answer : Type 0 where
  launched : String → Option ℕ → Answer
  empty : Answer
  refused : String → Answer

unfoldable pub is_no_capacity : String → Bool
is_no_capacity message =
    let m = map to_lower (codes message) in
    is_infix (codes "no longer any instances available") m
    || is_infix (codes "no instances available") m

-- How the loops end: with a pod on an offer, with an exception, or behind the last offer.
pub data Search : Type 0 where
  found : CloudType → GpuOffer → String → Option ℕ → Search
  raised exhausted : Search

abbrev pub after_answer : CloudType → GpuOffer → Answer → Search → Search
after_answer cloud offer (launched id cost) rest = found cloud offer id cost
after_answer cloud offer empty rest = raised
after_answer cloud offer (refused message) rest = if is_no_capacity message then rest else raised

-- The inner loop.
unfoldable pub try_offers : (CloudType → GpuOffer → Answer) → CloudType → List GpuOffer → Search
try_offers deploy cloud [] = exhausted
try_offers deploy cloud (offer ∷ offers) =
    after_answer cloud offer (deploy cloud offer) (try_offers deploy cloud offers)

abbrev pub or_else : Search → Search → Search
or_else exhausted next = next
or_else raised next = raised
or_else (found cloud offer id cost) next = found cloud offer id cost

-- The outer loop, `for cloud_type in ("SECURE", "COMMUNITY")`.
unfoldable pub try_clouds :
    (CloudType → GpuOffer → Answer) → List CloudType → List GpuOffer → Search
try_clouds deploy [] offers = exhausted
try_clouds deploy (cloud ∷ clouds) offers =
    or_else (try_offers deploy cloud offers) (try_clouds deploy clouds offers)

-- RunPod's API: the offers, the volumes that a key's account has, the mutation, and the address of a
-- pod.
pub record Api : Type 0 where
  pub configured : Bool
  pub list_gpus : Result (List GpuOffer)
  pub volumes : Option String → Result (List NetworkVolume)
  pub deploy : DeployInput → Option String → CloudType → GpuOffer → Answer
  pub endpoint : String → String

-- "" is no value.
abbrev pub if_set : Option String → Option String
if_set none = none
if_set (some a) = if str_eq a "" then none else some a

abbrev pub is_set : Option String → Bool
is_set none = false
is_set (some a) = not (str_eq a "")

abbrev pub checked : Api → Option String → Option String → Option String → Result (Unit {0})
checked api api_key datacenter none = ok tt
checked api api_key datacenter (some id) =
    if str_eq id "" then ok tt else validate_network_volume (api.volumes api_key) id datacenter

abbrev pub pod_info : Api → String → Search → Result PodInfo
pod_info api model raised = err provider_error
pod_info api model exhausted = err provider_error
pod_info api model (found cloud offer id cost) = ok (record {
  external_id = id;
  model = model;
  cost_per_hour_usd = or_default cost offer.cost_per_hour_usd;
  endpoint_url = api.endpoint id;
})

-- `f"llm-{tier}-{user_label}" if user_label else f"llm-{tier}"`
abbrev pub pod_name : String → Option String → String
pod_name tier none = prepend "llm-" tier
pod_name tier (some label) =
    if str_eq label ""
    then prepend "llm-" tier
    else prepend "llm-" (prepend tier (prepend "-" label))

-- The search, once the model and the volume are known.
abbrev pub deployed : Api → String → DeployInput → Option String → List GpuOffer → Result PodInfo
deployed api model input api_key candidates =
    pod_info api model (
      try_clouds (api.deploy input api_key) (CloudType.secure ∷ CloudType.community ∷ [])
        candidates)

-- The launch with `effective_volume_id`.
unfoldable pub launch_on :
    Api
    → String
    → Option String
    → (api_key datacenter effective_volume_id : Option String) → Result PodInfo
launch_on api tier user_label api_key datacenter effective_volume_id =
    if api.configured || is_set api_key
    then (do
      offers ← api.list_gpus
      candidates ← rank_gpu_offers tier offers
      model ← model_of tier
      valid ← checked api api_key datacenter effective_volume_id
      deployed api model
          (record {
            model = model;
            network_volume_id = if_set effective_volume_id;
            data_center_id = if_set datacenter;
            name = pod_name tier user_label;
          })
          api_key candidates)
    else err provider_error

-- The user's volume goes before the setting's.
unfoldable pub launch : Api → Option String → String → Option String → Volume → Result PodInfo
launch api env_volume_id tier user_label v =
    launch_on api tier user_label v.api_key v.datacenter (or_setting v.volume_id env_volume_id)

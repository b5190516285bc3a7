-- ===== src/Providers/Clouds/Lambda.antt =====
-- providers/lambda_labs.py. What its API answers is an argument; the decorator that repeats a launch
-- is that of another library and is left out: `launch` is one run of the method.
use gpu_relay.Common.{
  ℕ, ◌*◌, String, str_eq, Bool, not, ◌&&◌, ◌||◌, Option, none, some, List, [], ◌∷◌, codes, map,
  to_lower, is_infix, join, Dict, lookup, or_default, is_empty, find, Result, ok, err,
  provider_error, ◌>>=◌, if◌then◌else◌,
}
use gpu_relay.Gpu.{GpuOffer, select_gpu_offer}
use gpu_relay.Instance.Spin.{PodInfo}
use gpu_relay.Providers.{StatusInfo}
use gpu_relay.Providers.Runpod.{model_of}

-- `part in t`
abbrev pub has_part : String → List ℕ → Bool
has_part part t = is_infix (codes part) t

-- `_vram_from_type_name`, for a lowered name: the tests in their order.
unfoldable pub vram_of : List ℕ → ℕ
vram_of t =
    if has_part "a100_sxm4_80gb" t || has_part "80gb" t
    then 80
    else if has_part "a100" t && has_part "40gb" t
    then 40
    else if has_part "a100" t
    then 40
    else if has_part "h100" t && has_part "80gb" t
    then 80
    else if has_part "h100" t
    then 80
    else if has_part "a10" t
    then 24
    else if has_part "v100" t && has_part "16gb" t
    then 16
    else if has_part "v100" t
    then 16
    else if has_part "a6000" t
    then 48
    else 0

unfoldable pub vram_from_type_name : String → ℕ
vram_from_type_name name = vram_of (map to_lower (codes name))

-- An instance type: its name and its regions with capacity.
pub record InstanceType : Type 0 where
  pub name : String
  pub description : Option String
  pub price_cents_per_hour : ℕ
  pub regions : List String

-- Cents as millionths of a dollar.
abbrev pub offer_of : InstanceType → GpuOffer
offer_of t = record {
  provider = "lambda";
  gpu = or_default t.description t.name;
  vram_gb = vram_from_type_name t.name;
  cost_per_hour_usd = t.price_cents_per_hour * 10_000;
  available = not (is_empty t.regions);
  gpu_type_id = t.name;
}

-- The region that goes with an offer.
abbrev pub region_of : List String → String
region_of [] = "us-east-1"
region_of (r ∷ rs) = r

-- `list_gpus`
unfoldable pub list_gpus : Result (List InstanceType) → Result (List GpuOffer)
list_gpus answer = do types ← answer; ok (map offer_of types)

pub record Instance : Type 0 where
  pub status : String
  pub ip : String
  pub description : String
  pub price_cents_per_hour : ℕ

abbrev pub status_map : Dict String
status_map = ("active", "ready") ∷ ("terminated", "terminated") ∷ ("unhealthy", "failed") ∷ []

abbrev pub url_of : String → String
url_of ip = if str_eq ip "" then "" else join "" ("http://" ∷ ip ∷ ":11434" ∷ [])

-- `get_status`
unfoldable pub get_status : String → Result Instance → Result StatusInfo
get_status external_id answer = do
  i ← answer
  ok (record {
    external_id = external_id;
    gpu = i.description;
    model = "";
    cost_per_hour_usd = i.price_cents_per_hour * 10_000;
    status = or_default (lookup i.status status_map) "starting";
    endpoint_url = url_of i.ip;
  })

abbrev pub or_poll : Result StatusInfo → String → String
or_poll (err e) rest = rest
or_poll (ok info) rest = if str_eq info.endpoint_url "" then rest else info.endpoint_url

-- `_wait_for_ip`: one query for each ten seconds until the deadline.
unfoldable pub wait_for_ip : String → List (Result Instance) → String
wait_for_ip id [] = ""
wait_for_ip id (answer ∷ answers) = or_poll (get_status id answer) (wait_for_ip id answers)

-- Lambda's API: the ids of the new instances, whose start script is made of the model, and the polls of one.
pub record Api : Type 0 where
  pub configured : Bool
  pub types : Result (List InstanceType)
  pub create : (region type_name model name : String) → Result (List String)
  pub polls : String → List (Result Instance)

-- `offer.metadata.get("region", ...)`
abbrev pub region_for : Result (List InstanceType) → String → String
region_for (err e) name = "us-east-1"
region_for (ok types) name = elim (find (λ (t : InstanceType). str_eq t.name name) types) [
  | none ↦ "us-east-1"
  | some t ↦ region_of t.regions
]

abbrev pub pod_info : Api → GpuOffer → String → List String → Result PodInfo
pod_info api offer model [] = err provider_error
pod_info api offer model (id ∷ ids) = ok (record {
  external_id = id;
  model = model;
  cost_per_hour_usd = offer.cost_per_hour_usd;
  endpoint_url = wait_for_ip id (api.polls id);
})

-- One run of `launch`.
unfoldable pub launch : Api → String → Result PodInfo
launch api tier =
    if api.configured
    then (do
      offers ← list_gpus api.types
      offer ← select_gpu_offer tier offers
      model ← model_of tier
      ids ←
          api.create (region_for api.types offer.gpu_type_id) offer.gpu_type_id model
            (join "" ("llm-" ∷ tier ∷ []))
      pod_info api offer model ids)
    else err provider_error

-- `terminate`: what the call leaves of the API's state; an exception of it is only logged.
unfoldable pub terminate {ℓ} : {S : Type ℓ} → (String → S → Result (Unit {0}) × S) → String → S → S
terminate stop external_id s = (stop external_id s).1

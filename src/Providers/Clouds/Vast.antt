-- ===== src/Providers/Clouds/Vast.antt =====
-- providers/vast.py. What its API answers is an argument; the decorator that repeats a launch is that
-- of another library and is left out: `launch` is one run of the method.
pub mod Named
use gpu_relay.Common.{
  same_codes, ℕ, ◌/◌, String, str_eq, Bool, true, false, not, ◌&&◌, ◌||◌, Option, none, some, List,
  [], ◌∷◌, any, codes, map, to_lower, join, Dict, lookup, or_default, contains, Result, Error, ok,
  err, provider_error, ◌>>=◌, ltb, ◌==◌, if◌then◌else◌,
}
use gpu_relay.Gpu.{GpuOffer, select_gpu_offer}
use gpu_relay.Instance.Spin.{PodInfo}
use gpu_relay.Providers.{StatusInfo}
use gpu_relay.Providers.Runpod.{model_of}

-- An offer of the API: its memory in MB, and its price in millionths of a dollar.
pub record VastOffer : Type 0 where
  pub gpu_name : String
  pub gpu_ram : ℕ
  pub dph_total : ℕ
  pub id : String

-- `gpu_name.lower()`
abbrev pub lower_name : String → List ℕ
lower_name name = map to_lower (codes name)

abbrev pub gpu_offer : VastOffer → GpuOffer
gpu_offer o = record {
  provider = "vast";
  gpu = o.gpu_name;
  vram_gb = o.gpu_ram / 1024;
  cost_per_hour_usd = o.dph_total;
  available = true;
  gpu_type_id = o.id;
}

abbrev pub is_usable : VastOffer → Bool
is_usable o = not (str_eq o.gpu_name "") && ltb 0 o.dph_total

-- The loop over the offers, with the names that it has seen.
unfoldable pub offers_from : List (List ℕ) → List VastOffer → List GpuOffer
offers_from seen [] = []
offers_from seen (o ∷ os) =
    let skipped = offers_from seen os in
    let rest = offers_from (lower_name o.gpu_name ∷ seen) os in
    if is_usable o && not (any (same_codes (lower_name o.gpu_name)) seen)
    then gpu_offer o ∷ rest
    else skipped

-- `list_gpus`
unfoldable pub list_gpus : Result (List VastOffer) → Result (List GpuOffer)
list_gpus answer = do offers ← answer; ok (offers_from [] offers)

-- An instance: the host's port that the server's is mapped to comes as digits, if there is a mapping.
pub record Instance : Type 0 where
  pub actual_status : String
  pub gpu_name : String
  pub ollama_model : String
  pub dph_total : ℕ
  pub ssh_host : String
  pub host_port : Option String

-- `_extract_endpoint`
unfoldable pub extract_endpoint : Instance → String
extract_endpoint i =
    if str_eq i.ssh_host ""
    then ""
    else join "" ("http://" ∷ i.ssh_host ∷ ":" ∷ or_default i.host_port "11434" ∷ [])

abbrev pub status_map : Dict String
status_map =
    ("running", "ready")
    ∷ ("exited", "terminated")
    ∷ ("offline", "failed")
    ∷ ("created", "starting")
    ∷ []

-- `get_status`
unfoldable pub get_status : String → Result Instance → Result StatusInfo
get_status external_id answer = do
  i ← answer
  ok (record {
    external_id = external_id;
    gpu = i.gpu_name;
    model = i.ollama_model;
    cost_per_hour_usd = i.dph_total;
    status = or_default (lookup i.actual_status status_map) "starting";
    endpoint_url = extract_endpoint i;
  })

abbrev pub or_poll : Result StatusInfo → String → String
or_poll (err e) rest = rest
or_poll (ok info) rest =
    if not (str_eq info.endpoint_url "") && contains info.status ("ready" ∷ "starting" ∷ [])
    then info.endpoint_url
    else rest

-- `_wait_for_running`: one query for each five seconds until the deadline.
unfoldable pub wait_for_running : String → List (Result Instance) → String
wait_for_running id [] = ""
wait_for_running id (answer ∷ answers) =
    or_poll (get_status id answer) (wait_for_running id answers)

-- Vast's API: the id of a new contract as Python prints it, and the polls of an instance.
pub record Api : Type 0 where
  pub configured : Bool
  pub bundles : Result (List VastOffer)
  pub ask : (offer_id model label : String) → Result String
  pub polls : String → List (Result Instance)

abbrev pub pod_info : Api → GpuOffer → String → String → Result PodInfo
pod_info api offer model id =
    if str_eq id "" || str_eq id "None"
    then err provider_error
    else ok (record {
      external_id = id;
      model = model;
      cost_per_hour_usd = offer.cost_per_hour_usd;
      endpoint_url = wait_for_running id (api.polls id);
    })

-- One run of `launch`.
unfoldable pub launch : Api → String → Result PodInfo
launch api tier =
    if api.configured
    then (do
      offers ← list_gpus api.bundles
      offer ← select_gpu_offer tier offers
      model ← model_of tier
      id ← api.ask offer.gpu_type_id model (join "" ("llm-" ∷ tier ∷ []))
      pod_info api offer model id)
    else err provider_error

-- `terminate`: what the call leaves of the API's state; an exception of it is only logged.
unfoldable pub terminate {ℓ} : {S : Type ℓ} → (String → S → Result (Unit {0}) × S) → String → S → S
terminate delete external_id s = (delete external_id s).1

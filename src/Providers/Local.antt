-- ===== src/Providers/Local.antt =====
-- providers/local.py: the Ollama of the same host, for the tiers that its GPU is large enough for.
pub mod Allowed
use gpu_relay.Common.{
  ℕ, String, Option, none, some, List, [], ◌∷◌, contains, Dict, lookup, or_default, prepend,
  removeprefix, Result, ok, err, provider_error, ◌>>=◌, if◌then◌else◌, ◌==◌,
}
use gpu_relay.Instance.Spin.{PodInfo}
use gpu_relay.Providers.{StatusInfo}
use gpu_relay.Providers.Runpod.{tier_model, model_of}

-- `_LEVEL_TIERS.get(settings.local_gpu_level, [])`
unfoldable pub tiers_allowed : ℕ → List String
tiers_allowed level =
    if level == 1
    then "simple" ∷ []
    else if level == 2
    then "simple" ∷ "vision" ∷ []
    else if level == 3
    then "simple" ∷ "vision" ∷ "architecture" ∷ []
    else if level == 4
    then "simple" ∷ "vision" ∷ "architecture" ∷ "maximum" ∷ []
    else if level == 5
    then "simple" ∷ "vision" ∷ "architecture" ∷ "maximum" ∷ "ultra" ∷ []
    else []

abbrev pub local_pod : String → String → String → PodInfo
local_pod url external_id model = record {
  external_id = external_id;
  model = model;
  cost_per_hour_usd = 0;
  endpoint_url = url;
}

-- `launch`: the settings are the level and the address.
unfoldable pub launch : ℕ → String → String → Result PodInfo
launch level url tier =
    if contains tier (tiers_allowed level)
    then (do model ← model_of tier; ok (local_pod url (prepend "local-" tier) model))
    else err provider_error

-- `get_status`
unfoldable pub get_status : String → String → PodInfo
get_status url external_id =
    local_pod url external_id
      (or_default (lookup (removeprefix "local-" external_id) tier_model) "")

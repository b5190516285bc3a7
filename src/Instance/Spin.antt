-- ===== src/Instance/Spin.antt =====
-- bridge/instance_manager.py, `_spin_pod` and what it calls. What the provider, the pod's own
-- server and the decryption answer is an argument.
use gpu_relay.Common.{
  ℕ, String, str_eq, Bool, true, false, ◌&&◌, Option, none, some, List, [], ◌∷◌, find, Result, ok,
  err, volume_error, runtime_error, ◌>>=◌, ◌/ℚ◌, of_ℕ, if◌then◌else◌, prepend,
}
use gpu_relay.Models.{User, Pod, PodStatus, NoVolumePolicy}
use gpu_relay.Schemas.{PodHandle}
use gpu_relay.Instance.State.{World, Settings, Provider, ProviderType, update_pod}

-- `PodInfo`, as far as it is stored.
pub record PodInfo : Type 0 where
  pub external_id : String
  pub model : String
  pub cost_per_hour_usd : ℕ
  pub endpoint_url : String

-- The volume id, the API key and the datacenter of a launch.
pub record Volume : Type 0 where
  pub volume_id : Option String
  pub api_key : Option String
  pub datacenter : Option String

abbrev pub volume : Option String → Option String → Option String → Volume
volume v k d = record { volume_id = v; api_key = k; datacenter = d }

pub record UserVolumeKey : Type 0 where
  pub volume_id : String
  pub api_key_encrypted : Option String
  pub datacenter : Option String

-- The rows that belong to a user and a provider, and `decrypt_provider_key`, none where it raises.
pub record Owner : Type 0 where
  pub user : Option User
  pub volume_key : Option UserVolumeKey
  pub provider_key : Option String
  pub decrypt : String → Option String

abbrev bind_option : (String → Option String) → Option String → Option String
bind_option f none = none
bind_option f (some a) = f a

abbrev or_key : Option String → Option String → Option String
or_key none k = k
or_key (some a) k = if str_eq a "" then k else some a

-- The key stored with a volume: decryption that raises here is not caught.
abbrev stored_key :
    (String → Option String) → Option String → Option String → Result (Option String)
stored_key decrypt none fallback = ok fallback
stored_key decrypt (some cipher) fallback =
    if str_eq cipher ""
    then ok fallback
    else elim (decrypt cipher) [ none ↦ err runtime_error | some k ↦ ok (or_key (some k) fallback) ]

-- The environment's volume, which only RunPod gets.
abbrev env_volume : Settings → String → Option String
env_volume s name = if str_eq name "runpod" then s.runpod_network_volume_id else none

abbrev by_policy : Settings → String → Option NoVolumePolicy → Bool → Option String → Result Volume
by_policy s name (some NoVolumePolicy.block) allow_env key = err volume_error
by_policy s name (some NoVolumePolicy.stateless) allow_env key = ok (volume none key none)
by_policy s name _ allow_env key =
    ok (volume (if allow_env then env_volume s name else none) key none)

abbrev pub of_user : Settings → String → Option User → Option String → Result Volume
of_user s name none key = ok (volume none none none)
of_user s name (some u) key = by_policy s name u.no_volume_policy u.allow_env_storage key

-- `none` stands for a call without a user id.
unfoldable pub resolve_user_volume : Settings → String → Option Owner → Result Volume
resolve_user_volume s name none = ok (volume (env_volume s name) none none)
resolve_user_volume s name (some o) =
    let provider_api_key = bind_option o.decrypt o.provider_key in
    elim o.volume_key [
      | some uvk ↦ (do
        key ← stored_key o.decrypt uvk.api_key_encrypted provider_api_key
        ok (volume (some uvk.volume_id) key uvk.datacenter))
      | none ↦ of_user s name o.user provider_api_key
    ]

-- `_wait_for_ready`: one probe every five seconds until the deadline, in order.
unfoldable pub wait_for_ready : List Bool → Result (Unit {0})
wait_for_ready [] = err runtime_error
wait_for_ready (true ∷ probes) = ok tt
wait_for_ready (false ∷ probes) = wait_for_ready probes

-- What the world outside answers to one launch, and the clock when it begins and ends.
pub record Outside : Type 0 where
  pub new_id : String
  pub launch : Volume → Result PodInfo
  pub probes : List Bool
  pub pull_model : Result (Unit {0})
  pub started : ℕ
  pub ended : ℕ

-- `Pod(status=provisioning, ...)`
unfoldable pub new_row : Outside → String → String → Pod
new_row o name tier = record {
  id = o.new_id;
  provider = name;
  tier = tier;
  model = "";
  external_id = prepend "pending-" o.new_id;
  endpoint_url = "";
  status = PodStatus.provisioning;
  cost_per_hour_usd = 0;
  health_failures = 0;
  started_at = o.started;
  last_used_at = none;
  terminated_at = none;
}

abbrev with_info : PodInfo → PodStatus → Pod → Pod
with_info info status row = record row {
  external_id = info.external_id;
  model = info.model;
  cost_per_hour_usd = info.cost_per_hour_usd;
  endpoint_url = info.endpoint_url;
  status = status;
}

-- Waiting for the server and pulling the model; the warm-up and the second model raise nothing.
unfoldable pub make_ready : Provider → Outside → PodInfo → Result (Unit {0})
make_ready provider o info =
    if provider.needs_ollama_check
    then (do ready ← wait_for_ready o.probes; if str_eq info.model "" then ok tt else o.pull_model)
    else ok tt

abbrev new_handle : Outside → String → String → PodInfo → PodHandle
new_handle o name tier info = record {
  pod_id = o.new_id;
  provider = name;
  tier = tier;
  endpoint_url = info.endpoint_url;
  cost_per_hour_usd = info.cost_per_hour_usd /ℚ 1_000_000;
  model = info.model;
  cold_start = true;
}

abbrev set_status : PodStatus → Pod → Pod
set_status status row = record row { status = status }

abbrev pub finish :
    Outside → String → String → PodInfo → World → Result (Unit {0}) → Result PodHandle × World
finish o name tier info w (err e) = (err e, w)
finish o name tier info w (ok x) = (
  ok (new_handle o name tier info),
  record w {
    db =
        update_pod o.new_id
          (λ row. record row { status = PodStatus.ready; last_used_at = some o.ended }) w.db;
  },
)

abbrev launched :
    Provider → Outside → String → String → World → Result PodInfo → Result PodHandle × World
launched provider o name tier w (err e) =
    (err e, record w { db = update_pod o.new_id (set_status PodStatus.failed) w.db })
launched provider o name tier w (ok info) =
    let started = record w { db = update_pod o.new_id (with_info info PodStatus.starting) w.db } in
    finish o name tier info started (make_ready provider o info)

-- The row is inserted before the volume is resolved.
abbrev with_volume :
    Provider → Outside → String → String → World → Result Volume → Result PodHandle × World
with_volume provider o name tier w (err e) = (err e, w)
with_volume provider o name tier w (ok v) = launched provider o name tier w (o.launch v)

abbrev same_external : String → String → Pod → Bool
same_external name external_id row = str_eq row.provider name && str_eq row.external_id external_id

abbrev upserted : Outside → String → String → PodInfo → World → Option Pod → Pod × World
upserted o name tier info w none =
    let row = record (with_info info PodStatus.ready (new_row o name tier)) {
      last_used_at = some o.ended;
    } in
    (row, record w { db = row ∷ w.db })
upserted o name tier info w (some old) =
    let row = record (with_info info PodStatus.ready old) { last_used_at = some o.ended } in
    (row, record w { db = update_pod old.id (λ r. row) w.db })

abbrev api_launched : Outside → String → String → World → Result PodInfo → Result PodHandle × World
api_launched o name tier w (err e) = (err e, w)
api_launched o name tier w (ok info) =
    let (row, w') = upserted o name tier info w (find (same_external name info.external_id) w.db) in
    (
      ok (record {
        pod_id = row.id;
        provider = name;
        tier = tier;
        endpoint_url = info.endpoint_url;
        cost_per_hour_usd = of_ℕ 0;
        model = info.model;
        cold_start = false;
      }),
      w',
    )

-- `_spin_api_pod`
unfoldable pub spin_api_pod : Outside → String → String → World → Result PodHandle × World
spin_api_pod o tier name w = api_launched o name tier w (o.launch (volume none none none))

abbrev pub is_api : ProviderType → Bool
is_api ProviderType.api = true
is_api _ = false

-- `_spin_pod`
unfoldable pub spin_pod :
    Settings
    → Option Owner
    → Outside
    → String
    → String
    → Provider
    → World
    → Result PodHandle × World
spin_pod s owner o tier name provider w =
    if is_api provider.provider_type
    then spin_api_pod o tier name w
    else with_volume provider o name tier (record w { db = new_row o name tier ∷ w.db })
        (resolve_user_volume s name owner)

-- ===== src/Instance/State.antt =====
-- bridge/instance_manager.py: the manager's fields, the table of pods, and the queries.
use gpu_relay.Common.{
  ℕ, ◌+◌, ◌-◌, String, str_eq, Bool, true, false, not, ◌&&◌, ◌||◌, Option, none, some, List, [],
  find, filter, map, contains, All, Dict, lookup, insert, remove, or_default, leb, ◌/ℚ◌,
  if◌then◌else◌, ◌≡◌,
}
use gpu_relay.Models.{Pod, PodStatus}
use gpu_relay.Schemas.{PodHandle}

pub data ProviderType : Type 0 where
  pod local api : ProviderType

-- What the manager reads of a provider object.
pub record Provider : Type 0 where
  pub provider_type : ProviderType
  pub needs_ollama_check : Bool

-- `InstanceManager`, the rows of the table of pods, and the external ids that a provider was told
-- to terminate, the latest first.
pub record World : Type 0 where
  pub pods : Dict String
  pub providers : Dict Provider
  pub active_requests : Dict ℕ
  pub spinning_tiers : List String
  pub db : List Pod
  pub terminations : List String

-- The settings that the manager reads.
pub record Settings : Type 0 where
  pub mock_providers : Bool
  pub cold_start_timeout_sec : ℕ
  pub health_check_fail_threshold : ℕ
  pub provider_priority_list : List String
  pub runpod_network_volume_id : Option String

-- `limit(1)` of a query with no order: some row, if there is one.
pub record Picker : Type 0 where
  pub pick : List Pod → Option Pod
  pub pick-none : (rows : List Pod) → pick rows ≡ none → rows ≡ []
  pub pick-all :
      (p : Pod → Bool) (rows : List Pod) (row : Pod)
      → All (λ r. p r ≡ true) rows
      → pick rows ≡ some row
      → p row ≡ true

abbrev pub is_ready : PodStatus → Bool
is_ready PodStatus.ready = true
is_ready _ = false

abbrev pub is_launching : PodStatus → Bool
is_launching PodStatus.provisioning = true
is_launching PodStatus.starting = true
is_launching _ = false

abbrev pub is_pod : ProviderType → Bool
is_pod ProviderType.pod = true
is_pod _ = false

abbrev matches_provider : Option String → Pod → Bool
matches_provider none row = true
matches_provider (some p) row = str_eq p "" || str_eq row.provider p

-- The conditions of `_get_ready_pod`.
unfoldable pub ready_for : String → Option String → List String → Pod → Bool
ready_for tier provider excluded row =
    str_eq row.tier tier
    && is_ready row.status
    && matches_provider provider row
    && not (contains row.provider excluded)

unfoldable pub get_ready_pod : Picker → String → Option String → List String → List Pod → Option Pod
get_ready_pod k tier provider excluded db = k.pick (filter (ready_for tier provider excluded) db)

-- The conditions of `_get_in_progress_pod`: the launch began within the cold start timeout.
unfoldable pub in_progress_for : Settings → ℕ → String → List String → Pod → Bool
in_progress_for s now tier excluded row =
    str_eq row.tier tier
    && is_launching row.status
    && leb now (row.started_at + s.cold_start_timeout_sec)
    && not (contains row.provider excluded)

unfoldable pub get_in_progress_pod :
    Picker → Settings → ℕ → String → List String → List Pod → Option Pod
get_in_progress_pod k s now tier excluded db =
    k.pick (filter (in_progress_for s now tier excluded) db)

-- `session.get(Pod, id)`, and a change of that row.
unfoldable pub get_pod : List Pod → String → Option Pod
get_pod db id = find (λ (row : Pod). str_eq row.id id) db

abbrev pub change_row : String → (Pod → Pod) → Pod → Pod
change_row id f row = if str_eq row.id id then f row else row

unfoldable pub update_pod : String → (Pod → Pod) → List Pod → List Pod
update_pod id f db = map (change_row id f) db

unfoldable pub handle : Pod → Bool → PodHandle
handle row cold = record {
  pod_id = row.id;
  provider = row.provider;
  tier = row.tier;
  endpoint_url = row.endpoint_url;
  cost_per_hour_usd = row.cost_per_hour_usd /ℚ 1_000_000;
  model = row.model;
  cold_start = cold;
}

-- `if self._pods.get(tier) == id: self._pods.pop(tier, None)`
unfoldable pub evict : String → String → Dict String → Dict String
evict tier id pods = elim (lookup tier pods) [
  | none ↦ pods
  | some current ↦ if str_eq current id then remove tier pods else pods
]

-- `mark_active` and the count of `release`.
unfoldable pub active_count : World → String → ℕ
active_count w id = or_default (lookup id w.active_requests) 0

unfoldable pub mark_active : String → World → World
mark_active id w = record w {
  active_requests = insert id (active_count w id + 1) w.active_requests;
}

unfoldable pub release : ℕ → String → World → World
release now id w = record w {
  active_requests = insert id (active_count w id - 1) w.active_requests;
  db = update_pod id (λ row. record row { last_used_at = some now }) w.db;
}

unfoldable pub mark_pod_failed : String → World → World
mark_pod_failed id w = elim (get_pod w.db id) [
  | none ↦ w
  | some row ↦
      if is_ready row.status
      then record w {
        pods = evict row.tier row.id w.pods;
        db = update_pod id (λ r. record r { status = PodStatus.failed }) w.db;
      }
      else w
]

unfoldable pub is_provider_available : Dict Bool → String → Bool
is_provider_available configured name = or_default (lookup name configured) false

-- ===== src/Routes/Admin.antt =====
-- The pod routes for administrators of bridge/main.py.
pub mod Killed
use gpu_relay.Common.{
  ℕ, zero, suc, String, Bool, true, false, Option, none, some, List, [], ◌∷◌, map, contains, lookup,
  leb, Result, err, ok, http, if◌then◌else◌,
}
use gpu_relay.Models.{Pod, PodStatus}
use gpu_relay.Router.Tiers.{tier_order}
use gpu_relay.Instance.State.{World, Provider, get_pod, update_pod}
use gpu_relay.Instance.Acquire.{Wish}
use gpu_relay.Instance.Loops.{end_row}

-- What the task that the route starts asks of `acquire`.
unfoldable pub admin_prewarm_pod : String → Result Wish
admin_prewarm_pod tier =
    if contains tier tier_order
    then ok (record {
      tier = tier;
      provider_override = none;
      disabled_providers = [];
      provider_order = [];
    })
    else err (http 400)

pub record PodItem : Type 0 where
  pub id : String
  pub provider : String
  pub tier : String
  pub status : PodStatus
  pub started_at : ℕ
  pub last_used_at : Option ℕ
  pub endpoint_url : String

abbrev item_of : Pod → PodItem
item_of p = record {
  id = p.id;
  provider = p.provider;
  tier = p.tier;
  status = p.status;
  started_at = p.started_at;
  last_used_at = p.last_used_at;
  endpoint_url = p.endpoint_url;
}

-- `order_by(Pod.started_at.desc())`: a row stands before those that are not older.
abbrev pub by_start : Pod → List Pod → List Pod
by_start p [] = p ∷ []
by_start p (q ∷ rows) =
    let later = by_start p rows in if leb q.started_at p.started_at then p ∷ q ∷ rows else q ∷ later

abbrev pub newest_first : List Pod → List Pod
newest_first [] = []
newest_first (p ∷ rows) = by_start p (newest_first rows)

-- `limit(n)`
abbrev pub limit {ℓ} : {A : Type ℓ} → ℕ → List A → List A
limit zero rows = []
limit (suc n) [] = []
limit (suc n) (row ∷ rows) = row ∷ limit n rows

unfoldable pub admin_list_pods : List Pod → List PodItem
admin_list_pods rows = map item_of (limit 200 (newest_first rows))

-- `if provider: create_task(provider.terminate(external_id))`, for a provider of any type
abbrev pub told : Option Provider → String → List String → List String
told none external_id calls = calls
told (some p) external_id calls = external_id ∷ calls

abbrev pub kill_row : ℕ → Pod → World → World
kill_row now pod w = record w {
  db = update_pod pod.id (end_row now) w.db;
  terminations = told (lookup pod.provider w.providers) pod.external_id w.terminations;
}

-- The manager's cache of ready pods stays as it is.
unfoldable pub admin_kill_pod : String → ℕ → World → Result (Unit {0}) × World
admin_kill_pod pod_id now w = elim (get_pod w.db pod_id) [
  | none ↦ (err (http 404), w)
  | some pod ↦ (ok tt, kill_row now pod w)
]

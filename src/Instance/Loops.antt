-- ===== src/Instance/Loops.antt =====
-- bridge/instance_manager.py: one round of the idle reaper and of the health loop, the cleanups of
-- `start`, and `stop`. A round goes over the rows that it read at its beginning. What other
-- coroutines do at the awaits of the reaper's round is an argument; the health loop's is one section.
use gpu_relay.Common.{
  ℕ, ◌+◌, ◌-◌, String, str_eq, Bool, true, false, not, ◌&&◌, ◌||◌, Option, none, some, List, [],
  ◌∷◌, ◌++◌, filter, map, Dict, lookup, or_default, ltb, leb, startswith, if◌then◌else◌,
}
use gpu_relay.Models.{Pod, PodStatus}
use gpu_relay.Router.Tiers.{TierCfg}
use gpu_relay.Instance.State.{
  World, Settings, Provider, is_ready, is_launching, is_pod, active_count, get_pod, update_pod,
  evict,
}

-- `if provider and provider.provider_type == "pod": create_task(provider.terminate(external_id))`
abbrev pub terminated_by : Option Provider → String → List String → List String
terminated_by none external_id calls = calls
terminated_by (some p) external_id calls =
    if is_pod p.provider_type then external_id ∷ calls else calls

abbrev idle_timeout : Option TierCfg → ℕ
idle_timeout none = 300
idle_timeout (some cfg) = or_default cfg.idle_timeout_sec 300

abbrev pub timeout_of : Dict TierCfg → Pod → ℕ
timeout_of tiers row = idle_timeout (lookup row.tier tiers)

-- The row has been used, and longer ago than its tier's timeout. A time in the future is no idling.
abbrev pub idles : Dict TierCfg → ℕ → Pod → Bool
idles tiers now row = elim row.last_used_at [
  | none ↦ false
  | some last ↦ ltb (timeout_of tiers row) (now - last)
]

abbrev pub end_row : ℕ → Pod → Pod
end_row now row = record row { status = PodStatus.terminated; terminated_at = some now }

-- The row is read again under a lock, which another process may hold.
abbrev still_ready : Option Pod → Bool
still_ready none = false
still_ready (some row) = is_ready row.status

-- The section of the session with the lock: whether the row is terminated, and the world.
unfoldable pub reap_commit : ℕ → Bool → Pod → World → Bool × World
reap_commit now locked row w =
    if not locked && still_ready (get_pod w.db row.id)
    then (true, record w { db = update_pod row.id (end_row now) w.db })
    else (false, w)

-- The section behind the commit.
unfoldable pub reap_evict : Pod → World → World
reap_evict row w = record w {
  pods = evict row.tier row.id w.pods;
  terminations = terminated_by (lookup row.provider w.providers) row.external_id w.terminations;
}

-- What happens while the loop waits for the row: other coroutines run before the row is read under
-- the lock, and before the session is closed; and another process may have locked it.
pub record Meanwhile : Type 0 where
  pub before : World → World
  pub behind : World → World
  pub locked : Bool

abbrev pub after_commit : Pod → Meanwhile → Bool × World → World
after_commit row m (true, w) = reap_evict row (m.behind w)
after_commit row m (false, w) = m.behind w

-- A round of the loop over the rows: without a wait for a row that serves a request or has not idled.
unfoldable pub reap_one : Dict TierCfg → ℕ → Meanwhile → Pod → World → World
reap_one tiers now m row w =
    if ltb 0 (active_count w row.id)
    then w
    else if idles tiers now row
    then after_commit row m (reap_commit now m.locked row (m.before w))
    else w

unfoldable pub reap_all : Dict TierCfg → ℕ → (Pod → Meanwhile) → List Pod → World → World
reap_all tiers now others [] w = w
reap_all tiers now others (row ∷ rows) w =
    reap_all tiers now others rows (reap_one tiers now (others row) row w)

-- One round of `_reaper_loop`. Other coroutines run also before the session of the query is closed.
unfoldable pub reaper_round : Dict TierCfg → ℕ → (World → World) → (Pod → Meanwhile) → World → World
reaper_round tiers now read others w =
    reap_all tiers now others (filter (λ row. is_ready row.status) w.db) (read w)

abbrev probed : Option Provider → Bool
probed none = true
probed (some p) = p.needs_ollama_check

abbrev bump_failures : ℕ → Pod → Pod
bump_failures threshold row =
    let failures = row.health_failures + 1 in
    if leb threshold failures
    then record row { health_failures = failures; status = PodStatus.failed }
    else record row { health_failures = failures }

abbrev failed_probe : Settings → Pod → Option Pod → World → World
failed_probe s row none w = w
failed_probe s row (some p) w =
    let w' = record w {
      db = update_pod row.id (bump_failures s.health_check_fail_threshold) w.db;
    } in
    if leb s.health_check_fail_threshold (p.health_failures + 1)
    then record w' {
      pods = evict p.tier p.id w.pods;
      terminations = terminated_by (lookup row.provider w.providers) row.external_id w.terminations;
    }
    else w'

-- `healthy` says whether the probe answered 200 with the pod's model among the loaded ones.
unfoldable pub health_one : Settings → (Pod → Bool) → Pod → World → World
health_one s healthy row w =
    if str_eq row.endpoint_url "" || not (probed (lookup row.provider w.providers))
    then w
    else if healthy row
    then record w { db = update_pod row.id (λ p. record p { health_failures = 0 }) w.db }
    else failed_probe s row (get_pod w.db row.id) w

unfoldable pub health_all : Settings → (Pod → Bool) → List Pod → World → World
health_all s healthy [] w = w
health_all s healthy (row ∷ rows) w = health_all s healthy rows (health_one s healthy row w)

-- One round of `_health_loop`.
unfoldable pub health_round : Settings → (Pod → Bool) → World → World
health_round s healthy w = health_all s healthy (filter (λ row. is_ready row.status) w.db) w

-- `_cleanup_stale_pods`
abbrev pub fail_launching : Pod → Pod
fail_launching row =
    if is_launching row.status then record row { status = PodStatus.failed } else row

unfoldable pub cleanup_stale_pods : World → World
cleanup_stale_pods w = record w { db = map fail_launching w.db }

abbrev pub runs_local_or_api : Option Provider → Bool
runs_local_or_api none = false
runs_local_or_api (some p) = not (is_pod p.provider_type)

abbrev pub runs_pods : Option Provider → Bool
runs_pods none = false
runs_pods (some p) = is_pod p.provider_type

-- `_reset_api_provider_pods`
unfoldable pub reset_api_provider_pods : World → World
reset_api_provider_pods w = record w {
  db = filter (λ row. not (runs_local_or_api (lookup row.provider w.providers))) w.db;
}

-- The provider has given the pod an id of its own.
abbrev pub has_external : Pod → Bool
has_external row = not (str_eq row.external_id "") && not (startswith "pending-" row.external_id)

unfoldable pub externals : List Pod → List String
externals [] = []
externals (row ∷ rows) =
    let rest = externals rows in if has_external row then row.external_id ∷ rest else rest

-- `_cleanup_dedicated_pods`
unfoldable pub cleanup_dedicated_pods : World → World
cleanup_dedicated_pods w = record w {
  db = filter (λ row. not (runs_pods (lookup row.provider w.providers))) w.db;
  terminations =
      externals (filter (λ row. runs_pods (lookup row.provider w.providers)) w.db)
      ++ w.terminations;
}

-- The cleanups of `start`, in order.
unfoldable pub start_cleanup : World → World
start_cleanup w = cleanup_dedicated_pods (reset_api_provider_pods (cleanup_stale_pods w))

abbrev pub running : Pod → Bool
running row = elim row.status [ PodStatus.ready ↦ true | PodStatus.starting ↦ true | _ ↦ false ]

abbrev pub stop_row : ℕ → Pod → Pod
stop_row now row = if running row then end_row now row else row

-- The rows of `stop`; a failing terminate call is only logged.
unfoldable pub stop : ℕ → World → World
stop now w = record w {
  db = map (stop_row now) w.db;
  terminations =
      externals (filter (λ row. running row && runs_pods (lookup row.provider w.providers)) w.db)
      ++ w.terminations;
}

-- ===== src/Instance/Acquire.antt =====
-- bridge/instance_manager.py, `acquire`: its atomic sections, the order of providers, and the loop
-- over them. A coroutine runs each section without interruption; between them others run.
use gpu_relay.Common.{
  ℕ, String, str_eq, Bool, true, false, not, ◌&&◌, Option, none, some, List, [], ◌∷◌, ◌++◌, filter,
  contains, is_empty, Dict, lookup, insert, Result, ok, err, volume_error, runtime_error,
  if◌then◌else◌,
}
use gpu_relay.Models.{Pod}
use gpu_relay.Schemas.{PodHandle}
use gpu_relay.Instance.State.{
  World, Settings, Picker, Provider, get_ready_pod, get_in_progress_pod, handle,
}

-- The arguments of `acquire` that choose among pods and providers.
pub record Wish : Type 0 where
  pub tier : String
  pub provider_override : Option String
  pub disabled_providers : List String
  pub provider_order : List String

-- What a section of `acquire` ends with.
pub data Found : Type 0 where
  found : PodHandle → Found
  wait spin : Found

-- `self._pods[tier] = pod.id; return self._handle(pod, cold_start=False)`
abbrev pub serve : Wish → World → Pod → Found × World
serve q w row = (found (handle row false), record w { pods = insert q.tier row.id w.pods })

-- The fast path, which is also one round of the wait for another's launch.
unfoldable pub poll : Picker → Wish → World → Found × World
poll k q w = elim (get_ready_pod k q.tier q.provider_override q.disabled_providers w.db) [
  | some row ↦ serve q w row
  | none ↦ (wait, w)
]

abbrev pub is_some {ℓ} : {A : Type ℓ} → Option A → Bool
is_some none = false
is_some (some a) = true

-- The section under the tier's lock.
unfoldable pub claim : Picker → Settings → ℕ → Wish → World → Found × World
claim k s now q w = elim (get_ready_pod k q.tier q.provider_override q.disabled_providers w.db) [
  | some row ↦ serve q w row
  | none ↦
      if not (is_some (get_in_progress_pod k s now q.tier q.disabled_providers w.db))
        && not (contains q.tier w.spinning_tiers)
      then (spin, record w { spinning_tiers = q.tier ∷ w.spinning_tiers })
      else (wait, w)
]

-- Whether a list of preferences lets a name through.
abbrev pub without : List String → List String → List String
without gone names = filter (λ p. not (contains p gone)) names

abbrev pub reorder : List String → List String → List String
reorder [] priority = priority
reorder (o ∷ order) priority =
    filter (λ p. contains p priority) (o ∷ order) ++ without (o ∷ order) priority

abbrev pub bubble : Option String → Dict Provider → List String → List String
bubble none providers priority = priority
bubble (some p) providers priority = elim (lookup p providers) [
  | none ↦ priority
  | some o ↦ p ∷ filter (λ q. not (str_eq q p)) priority
]

-- The tier's own list of providers, or the setting; then the user's order, the request's provider
-- and the user's disabled providers.
unfoldable pub priority : Settings → List String → Wish → Dict Provider → List String
priority s overrides q providers =
    let base =
      if s.mock_providers
      then "mock" ∷ []
      else if is_empty overrides
      then s.provider_priority_list
      else overrides in
    let ordered = reorder q.provider_order base in
    without q.disabled_providers (bubble q.provider_override providers ordered)

-- What follows one launch: its handle, the exception that nobody retries, or the next provider.
abbrev pub after_launch :
    String
    → Result PodHandle × World
    → (World → Result PodHandle × World)
    → Result PodHandle × World
after_launch tier (ok h, w) next = (ok h, record w { pods = insert tier h.pod_id w.pods })
after_launch tier (err volume_error, w) next = (err volume_error, w)
after_launch tier (err e, w) next = next w

-- The loop over the providers. The launch itself is an argument: a provider's name and the world
-- it starts from give the handle, or the exception, and the world that is left.
unfoldable pub try_providers :
    (String → Provider → World → Result PodHandle × World)
    → String
    → List String
    → World
    → Result PodHandle × World
try_providers launch tier [] w = (err runtime_error, w)
try_providers launch tier (name ∷ names) w = elim (lookup name w.providers) [
  | none ↦ try_providers launch tier names w
  | some provider ↦
      after_launch tier (launch name provider w) (λ w'. try_providers launch tier names w')
]

-- `self._spinning_tiers.discard(tier)`
unfoldable pub discard : String → World → World
discard tier w = record w { spinning_tiers = filter (λ t. not (str_eq t tier)) w.spinning_tiers }

-- The section of the coroutine that launches.
unfoldable pub spin_tier :
    (String → Provider → World → Result PodHandle × World)
    → Settings
    → List String
    → Wish
    → World
    → Result PodHandle × World
spin_tier launch s overrides q w =
    let (r, w') = try_providers launch q.tier (priority s overrides q w.providers) w in
    (r, discard q.tier w')

-- ===== src/Examples/Pods.antt =====
-- The instance manager at concrete worlds.
use gpu_relay.Common.{
  ◌/ℚ◌, Result, ◌≤◌, ◌<◌, String, ◌≡◌, refl, Bool, true, false, Option, none, some, List, [], ◌∷◌,
  lookup, All, ok, err, volume_error, runtime_error, arith,
}
use gpu_relay.Schemas.{PodHandle}
use gpu_relay.Models.{Pod, PodStatus}
use gpu_relay.Instance.State.{
  World, Settings, Picker, Provider, ProviderType, ready_for, in_progress_for, get_ready_pod,
  get_pod, handle, active_count, mark_active, release, is_launching,
}
use gpu_relay.Instance.Acquire.{try_providers, Wish, wait, spin, claim}
use gpu_relay.Instance.Spin.{
  Owner, Outside, PodInfo, Volume, volume, spin_pod, resolve_user_volume, make_ready,
}
use gpu_relay.Instance.Loops.{Meanwhile, reaper_round}
use gpu_relay.Instance.Stuck.{rejected_launch_stalls, unready_pod_left_running}
use gpu_relay.Instance.Exclusion.{process, count, stay, step, claims, one_launch_per_tier}
use gpu_relay.Instance.Reaped.{status_of, busy_never_reaped}
use gpu_relay.Examples.Data.{config, ann, pod}

-- The first row.
abbrev pub head : List Pod → Option Pod
head [] = none
head (row ∷ rows) = some row

pub head-none : (rows : List Pod) → head rows ≡ none → rows ≡ []
head-none [] e = refl
head-none (row ∷ rows) e = cc

pub head-All :
    (p : Pod → Bool) (rows : List Pod) (row : Pod)
    → All (λ r. p r ≡ true) rows
    → head rows ≡ some row
    → p row ≡ true
head-All p [] row all e = cc
head-All p (r ∷ rows) row all e = cc (all.0, e)

abbrev pub picker : Picker
picker = record { pick = head; pick-none = head-none; pick-all = head-All }

abbrev pub settings : Settings
settings = record {
  mock_providers = false;
  cold_start_timeout_sec = 600;
  health_check_fail_threshold = 3;
  provider_priority_list = "runpod" ∷ "vast" ∷ [];
  runpod_network_volume_id = none;
}

abbrev runpod : Provider
runpod = record { provider_type = ProviderType.pod; needs_ollama_check = true }

abbrev pub world : List Pod → World
world rows = record {
  pods = [];
  providers = ("runpod", runpod) ∷ ("vast", runpod) ∷ [];
  active_requests = ("p1", 2) ∷ [];
  spinning_tiers = [];
  db = rows;
  terminations = [];
}

abbrev pub wish : String → Wish
wish tier = record {
  tier = tier;
  provider_override = some "runpod";
  disabled_providers = "vast" ∷ [];
  provider_order = "vast" ∷ "runpod" ∷ [];
}

abbrev pub rows : List Pod
rows =
    pod "p1" "runpod" "simple" PodStatus.ready ∷ pod "p2" "runpod" "ultra" PodStatus.starting ∷ []

abbrev marked : World
marked = record (world []) { spinning_tiers = "simple" ∷ [] }

claimed_simple : claim picker settings 300 (wish "simple") (world []) ≡ (spin, marked)
unfolding claim get_ready_pod gpu_relay.Instance.State.get_in_progress_pod
claimed_simple = refl

one_launch_per_tier_example : count "simple" ("simple" ∷ []) ≤ 1
one_launch_per_tier_example =
    one_launch_per_tier (world []) (process marked ("simple" ∷ [])) "simple" refl
      (step (claims picker settings 300 (wish "simple") claimed_simple) stay)

serving : 0 < active_count (world rows) "p1"
unfolding active_count lookup
serving = omega arith

abbrev quiet_row : Pod → Meanwhile
quiet_row row = record { before = λ w. w; behind = λ w. w; locked = false }

busy_never_reaped_example :
    status_of (get_pod (reaper_round config.tiers 5_000 (λ w. w) quiet_row (world rows)).db "p1")
    ≡ status_of (get_pod (world rows).db "p1")
busy_never_reaped_example =
    busy_never_reaped config.tiers 5_000 (λ w. w) quiet_row (world rows) "p1" (λ w h. (h, refl))
      (λ row. (λ w h. (h, refl), λ w h. (h, refl))) serving

abbrev owner : Owner
owner = record { user = some ann; volume_key = none; provider_key = none; decrypt = λ cipher. none }

abbrev info : PodInfo
info = record {
  external_id = "ext-9";
  model = "qwen";
  cost_per_hour_usd = 340_000;
  endpoint_url = "http://pod9";
}

abbrev outside : Outside
outside = record {
  new_id = "p9";
  launch = λ v. ok info;
  probes = false ∷ false ∷ [];
  pull_model = ok tt;
  started = 300;
  ended = 310;
}

abbrev any_wish : Wish
any_wish = record {
  tier = "simple";
  provider_override = none;
  disabled_providers = [];
  provider_order = [];
}

no_ready : get_ready_pod picker "simple" none [] (world []).db ≡ none
unfolding get_ready_pod
no_ready = refl

rejected_launch_stalls_example :
    let (r, w) = spin_pod settings (some owner) outside "simple" "runpod" runpod (world []) in
    (r ≡ err volume_error) × (claim picker settings 400 any_wish w ≡ (wait, w))
rejected_launch_stalls_example =
    rejected_launch_stalls settings owner ann outside "simple" "runpod" runpod (world []) picker
      any_wish 400 refl refl refl refl refl refl no_ready (omega arith)

stateless : resolve_user_volume settings "runpod" none ≡ ok (volume none none none)
unfolding resolve_user_volume
stateless = refl

too_slow : make_ready runpod outside info ≡ err runtime_error
unfolding make_ready gpu_relay.Instance.Spin.wait_for_ready
too_slow = refl

unready_pod_left_running_example :
    let (r, w) = spin_pod settings none outside "simple" "runpod" runpod (world []) in
    (r ≡ err runtime_error)
    × (w.terminations ≡ (world []).terminations)
    × (row : Pod) × (get_pod w.db outside.new_id ≡ some row)
    × (row.status ≡ PodStatus.starting)
    × (row.external_id ≡ info.external_id)
unready_pod_left_running_example =
    unready_pod_left_running settings none outside "simple" "runpod" runpod (world [])
      (volume none none none) info runtime_error refl stateless refl too_slow

abbrev prompt_outside : Outside
prompt_outside = record outside { probes = false ∷ true ∷ [] }

abbrev launch_pod : String → Provider → World → Result PodHandle × World
launch_pod name p w = spin_pod settings none prompt_outside "simple" name p w

abbrev launched_handle : PodHandle
launched_handle = record {
  pod_id = "p9";
  provider = "runpod";
  tier = "simple";
  endpoint_url = "http://pod9";
  cost_per_hour_usd = 340_000 /ℚ 1_000_000;
  model = "qwen";
  cold_start = true;
}

handed_out :
    (try_providers launch_pod "simple" ("lambda" ∷ "runpod" ∷ []) (world [])).0 ≡ ok launched_handle
unfolding try_providers lookup spin_pod resolve_user_volume make_ready
    gpu_relay.Instance.Spin.wait_for_ready
handed_out = refl

-- ===== src/Examples/Routes.antt =====
-- The routes for settings and pods, at concrete tables.
use gpu_relay.Common.{
  String, str_eq, ◌≡◌, refl, true, false, ◌&&◌, Option, none, some, List, [], ◌∷◌, prepend, ok,
  if◌then◌else◌,
}
use gpu_relay.Models.{User, Pod, PodStatus}
use gpu_relay.Schemas.{PodHandle}
use gpu_relay.Instance.State.{World, get_ready_pod, get_pod}
use gpu_relay.Instance.Spin.{Outside, PodInfo, finish, resolve_user_volume, volume}
use gpu_relay.Routes.Tables.{Keyed}
use gpu_relay.Routes.Overrides.{
  OverrideRow, UserTierOverrideRequest, UserTierOverrideResponse, upsert_tier_override, fresh_row,
  assign,
}
use gpu_relay.Routes.Overrides.Stored.{settings_at, upsert_tier_override_lem}
use gpu_relay.Routes.VolumeKeys.{VolumeKeyCreate, VolumeKeyOut, VolumeRow, add_volume_key}
use gpu_relay.Routes.VolumeKeys.Resolved.{stored_at, resolve-add_volume_key}
use gpu_relay.Routes.Admin.{admin_kill_pod}
use gpu_relay.Routes.Admin.Killed.{killed_never_picked, killed_launch_revived}
use gpu_relay.Examples.Data.{ann, pod}
use gpu_relay.Examples.Pods.{picker, settings, world, rows}

abbrev wished : UserTierOverrideRequest
wished = record {
  provider_order = some ("vast" ∷ []);
  disabled_providers = none;
  provider_models = none;
  model_override = some "qwen";
  model_no_tools_override = none;
  idle_timeout_sec = some 60;
  max_context_tokens = none;
}

abbrev bob : User
bob = record ann { id = "bob"; email = "bob@example.org" }

abbrev overrides : List OverrideRow
overrides = fresh_row "o1" 5 ann "simple" ∷ fresh_row "o2" 6 bob "simple" ∷ []

-- The user's row for the tier is there and is changed.
upsert_tier_override_lem_example :
    (answer : UserTierOverrideResponse) × (rows' : List OverrideRow) × (upsert_tier_override "o3" 9
        "simple" wished bob overrides
      ≡ ok (answer, rows'))
    × Keyed gpu_relay.Routes.Overrides.columns rows'
    × ((u t : String)
        → settings_at rows' u t ≡ (
            if str_eq "bob" u && str_eq "simple" t then some wished else settings_at overrides u t))
upsert_tier_override_lem_example =
    upsert_tier_override_lem "o3" 9 "simple" wished bob overrides
      ((refl, tt), (refl, tt), (tt, tt, tt)) (refl, (refl, tt))

abbrev volume_key : VolumeKeyCreate
volume_key = record {
  provider = "runpod";
  volume_id = "vol-9";
  api_key = "secret";
  datacenter = some "EU";
}

-- A cipher that writes one character before the text.
abbrev decrypt : String → Option String
decrypt String.[] = none
decrypt (String.◌∷◌ c s) = some s

resolve-add_volume_key_example :
    (answer : VolumeKeyOut) × (rows' : List VolumeRow) × (add_volume_key
        (prepend "#")
        "v1"
        7
        volume_key
        ann
        []
      ≡ ok (answer, rows'))
    × (resolve_user_volume settings "runpod" (
          some (record {
            user = some ann;
            volume_key = stored_at rows' "ann" "runpod";
            provider_key = none;
            decrypt = decrypt;
          }))
        ≡ ok (volume (some "vol-9") (some "secret") (some "EU")))
resolve-add_volume_key_example =
    resolve-add_volume_key (prepend "#") decrypt "v1" 7 volume_key ann [] settings none refl tt tt
      refl refl refl

abbrev killed : World
killed = (admin_kill_pod "p2" 300 (world rows)).1

kills : admin_kill_pod "p2" 300 (world rows) ≡ (ok tt, killed)
unfolding admin_kill_pod get_pod
kills = refl

still_picked :
    get_ready_pod picker "simple" none [] killed.db
    ≡ some (pod "p1" "runpod" "simple" PodStatus.ready)
unfolding admin_kill_pod get_pod get_ready_pod gpu_relay.Instance.State.ready_for
    gpu_relay.Instance.State.update_pod
still_picked = refl

killed_never_picked_example : str_eq "p1" "p2" ≡ false
killed_never_picked_example =
    killed_never_picked picker "p2" 300 (world rows) killed "simple" none []
      (pod "p1" "runpod" "simple" PodStatus.ready) kills still_picked

abbrev info : PodInfo
info = record {
  external_id = "ext";
  model = "qwen";
  cost_per_hour_usd = 340_000;
  endpoint_url = "http://pod";
}

abbrev outside : Outside
outside = record {
  new_id = "p2";
  launch = λ v. ok info;
  probes = true ∷ [];
  pull_model = ok tt;
  started = 100;
  ended = 400;
}

launching : get_pod (world rows).db "p2" ≡ some (pod "p2" "runpod" "ultra" PodStatus.starting)
unfolding get_pod
launching = refl

killed_launch_revived_example :
    let after = finish outside "runpod" "ultra" info killed (ok tt) in
    ((admin_kill_pod "p2" 300 (world rows)).0 ≡ ok tt)
    × ((handle : PodHandle) × (after.0 ≡ ok handle) × (handle.pod_id ≡ "p2"))
    × ((row : Pod) × (get_pod after.1.db "p2" ≡ some row)
        × (row.status ≡ PodStatus.ready)
        × (row.terminated_at ≡ some 300))
killed_launch_revived_example =
    killed_launch_revived outside "runpod" "ultra" info 300 (world rows)
      (pod "p2" "runpod" "ultra" PodStatus.starting) launching

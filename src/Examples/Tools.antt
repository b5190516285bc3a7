-- ===== src/Examples/Tools.antt =====
-- The workspace's files and the tiers' prices, at concrete files and offers.
use gpu_relay.Common.{
  ℕ, ◌≤◌, String, str_eq, ◌≡◌, refl, Bool, true, false, ◌||◌, Option, none, some, List, [], ◌∷◌,
  All, Dict, lookup, ltb, Result, ok, err, http, value_error, if◌then◌else◌,
}
use gpu_relay.Gpu.{GpuOffer}
use gpu_relay.Router.Prices.{best_price, refresh_tier_prices}
use gpu_relay.Router.Prices.Refreshed.{
  Any, IsMatch, AtMostFirst, refreshed_cfg, refresh_tier_prices_lem,
}
use gpu_relay.Tools.Workspace.{
  Entry, file, dir, Files, Service, path_text, resolve, resolve_parts, relative_to, content_of,
  write_file, read_file,
}
use gpu_relay.Tools.Workspace.Kept.{read-write_file}
use gpu_relay.Tools.Workspace.Escaped.{sibling_accepted}
use gpu_relay.Examples.Data.{config}

abbrev service : Service
service = record {
  root = "workspace" ∷ [];
  max_file_size = 100;
  size_of = λ e. 3;
  unescape = λ t. ok t;
  encode = λ encoding t. if str_eq encoding "utf-8" then ok t else err value_error;
  decode = λ bytes. bytes;
  move = λ src dst files. (ok tt, files);
}

abbrev before : Files
before = ("/workspace", dir) ∷ ("/workspace/b.txt", file "old") ∷ []

abbrev after : Files
after =
    ("/workspace", dir) ∷ ("/workspace/b.txt", file "old") ∷ ("/workspace/a.txt", file "new") ∷ []

writes : write_file service "a.txt" "new" "utf-8" before ≡ (ok tt, after)
unfolding write_file resolve resolve_parts path_text gpu_relay.Tools.Workspace.resolved_from
    gpu_relay.Pipeline.Split.split lookup gpu_relay.Tools.Workspace.make_dirs
    gpu_relay.Tools.Workspace.ancestors relative_to gpu_relay.Common.insert content_of
    gpu_relay.Common.is_infix
writes = refl

read-write_file_example :
    (p : List String) × (text bytes : String) × (resolve ("workspace" ∷ []) "a.txt" ≡ ok p)
    × (content_of service "new" ≡ ok text)
    × (service.encode "utf-8" text ≡ ok bytes)
    × (read_file service "a.txt" after ≡ (
        if ltb service.max_file_size (service.size_of (file bytes))
        then err (http 400)
        else ok (service.decode bytes)))
    × ((wanted : String) (e : Entry)
        → str_eq (path_text p) wanted ≡ false
        → lookup wanted before ≡ some e
        → lookup wanted after ≡ some e)
read-write_file_example = read-write_file service "a.txt" "new" "utf-8" before after writes

sibling_accepted_example :
    (p : List String) × (resolve_parts ("srv" ∷ "workspace" ∷ []) (".." ∷ "workspace2" ∷ []) ≡ ok p)
    × (relative_to ("srv" ∷ "workspace" ∷ []) p ≡ err value_error)
sibling_accepted_example = sibling_accepted ("srv" ∷ []) "workspace" "2" refl refl refl

abbrev offer : String → ℕ → GpuOffer
offer gpu cost = record {
  provider = "vast";
  gpu = gpu;
  vram_gb = 24;
  cost_per_hour_usd = cost;
  available = true;
  gpu_type_id = gpu;
}

abbrev offers : List (List GpuOffer)
offers = (offer "RTX 3090" 200_000 ∷ []) ∷ (offer "RTX 4090" 180_000 ∷ []) ∷ []

refresh_tier_prices_lem_example :
    (lookup "simple" (refresh_tier_prices offers config.tiers)
      ≡ refreshed_cfg offers "simple" (lookup "simple" config.tiers))
    × ((price : ℕ)
        → best_price "simple" offers ≡ some price
        → Any (Any (IsMatch "simple" price)) offers)
    × All (AtMostFirst "simple" (best_price "simple" offers)) offers
refresh_tier_prices_lem_example = refresh_tier_prices_lem offers config.tiers "simple"

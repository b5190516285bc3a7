-- ===== src/Providers/Together.antt =====
-- providers/together_dedicated.py: endpoints on Together's hardware. What its API answers is an
-- argument; a call's effects are its record: the time of the last miss, the hardware that was tried,
-- and the endpoints that were created.
pub mod Cooldown
use gpu_relay.Common.{
  ℕ, zero, suc, ◌+◌, String, str_eq, Bool, true, false, ◌&&◌, ◌||◌, not, Option, none, some, List,
  [], ◌∷◌, codes, is_infix, contains, Dict, lookup, or_default, Result, Error, ok, err, key_error,
  provider_error, ltb, leb, ◌==◌, if◌then◌else◌,
}
use gpu_relay.Instance.Spin.{PodInfo}

-- `_CAPACITY_COOLDOWN_SEC`
abbrev pub capacity_cooldown_sec : ℕ
capacity_cooldown_sec = 600

-- A GPU's name, its memory in GB, and its price in millionths of a dollar for an hour.
pub record Hardware : Type 0 where
  pub gpu : String
  pub vram_gb : ℕ
  pub cost_per_hour_usd : ℕ

abbrev hardware : String → ℕ → ℕ → Hardware
hardware gpu vram cost = record { gpu = gpu; vram_gb = vram; cost_per_hour_usd = cost }

-- `_HARDWARE`
abbrev pub hardware_table : Dict Hardware
hardware_table =
    ("1x_nvidia_l40_48gb_pcie", hardware "NVIDIA L40 48GB" 48 1_490_000)
    ∷ ("1x_nvidia_l40s_48gb_pcie", hardware "NVIDIA L40S 48GB" 48 2_100_000)
    ∷ ("1x_nvidia_a100_40gb_sxm", hardware "NVIDIA A100 40GB SXM" 40 2_400_000)
    ∷ ("1x_nvidia_a100_80gb_pcie", hardware "NVIDIA A100 80GB PCIe" 80 2_400_000)
    ∷ ("1x_nvidia_a100_40gb_pcie", hardware "NVIDIA A100 40GB PCIe" 40 3_000_000)
    ∷ ("1x_nvidia_a100_80gb_sxm", hardware "NVIDIA A100 80GB SXM" 80 2_590_000)
    ∷ ("1x_nvidia_h100_80gb_sxm", hardware "NVIDIA H100 80GB SXM" 80 6_490_000)
    ∷ []

-- `_TIER_CONFIG`
abbrev pub tier_config : Dict (List String × String)
tier_config =
    (
      "simple",
      (
        "1x_nvidia_l40_48gb_pcie" ∷ "1x_nvidia_l40s_48gb_pcie" ∷ "1x_nvidia_a100_40gb_sxm"
            ∷ "1x_nvidia_a100_40gb_pcie" ∷ [],
        "Qwen/Qwen3-VL-8B-Instruct",
      ),
    )
    ∷ (
      "vision",
      (
        "1x_nvidia_l40_48gb_pcie" ∷ "1x_nvidia_l40s_48gb_pcie" ∷ "1x_nvidia_a100_40gb_sxm"
            ∷ "1x_nvidia_a100_80gb_pcie" ∷ "1x_nvidia_a100_40gb_pcie" ∷ [],
        "meta-llama/Llama-3.2-11B-Vision-Instruct-Turbo",
      ),
    )
    ∷ (
      "architecture",
      (
        "1x_nvidia_a100_80gb_pcie" ∷ "1x_nvidia_a100_80gb_sxm" ∷ "1x_nvidia_h100_80gb_sxm" ∷ [],
        "meta-llama/Llama-3.2-90B-Vision-Instruct-Turbo",
      ),
    )
    ∷ (
      "maximum",
      (
        "1x_nvidia_a100_80gb_pcie" ∷ "1x_nvidia_a100_80gb_sxm" ∷ "1x_nvidia_h100_80gb_sxm" ∷ [],
        "meta-llama/Llama-3.2-90B-Vision-Instruct-Turbo",
      ),
    )
    ∷ (
      "ultra",
      (
        "1x_nvidia_h100_80gb_sxm" ∷ "1x_nvidia_a100_80gb_sxm" ∷ [],
        "meta-llama/Llama-3.2-90B-Vision-Instruct-Turbo",
      ),
    )
    ∷ []

abbrev pub vision_config : List String × String
vision_config = or_default (lookup "vision" tier_config) ([], "")

-- `_TIER_CONFIG.get(tier, _TIER_CONFIG["vision"])`
unfoldable pub config_of : String → List String × String
config_of tier = or_default (lookup tier tier_config) vision_config

-- One poll of an endpoint: its state, or an answer that says nothing.
pub data Poll : Type 0 where
  state : String → Poll
  unknown : Poll

abbrev pub running_states : List String
running_states = "RUNNING" ∷ "IDLE" ∷ []

abbrev pub terminal_states : List String
terminal_states = "FAILED" ∷ "DELETING" ∷ "DELETED" ∷ []

-- `_wait_for_running`: one poll for each ten seconds until the deadline.
unfoldable pub wait_for_running : List Poll → Result (Unit {0})
wait_for_running [] = err provider_error
wait_for_running (unknown ∷ polls) = wait_for_running polls
wait_for_running (state s ∷ polls) =
    let rest = wait_for_running polls in
    if contains s running_states
    then ok tt
    else if contains s terminal_states
    then err provider_error
    else rest

-- What the creation of an endpoint answers: an id, an error with its text, or one that cannot be
-- read.
pub data Created : Type 0 where
  endpoint : String → Created
  refused : String → Created
  unreadable : Created

-- Together's API.
pub record Api : Type 0 where
  pub create : (model hw_id : String) → Created
  pub polls : String → List Poll

pub record Trace : Type 0 where
  pub capacity_miss_at : ℕ
  pub tried : List String
  pub created : List String

abbrev pub pod_info : String → String → Hardware → Result (Unit {0}) → Result PodInfo
pod_info id model hw (err e) = err e
pod_info id model hw (ok ready) = ok (record {
  external_id = id;
  model = model;
  cost_per_hour_usd = hw.cost_per_hour_usd;
  endpoint_url = "https://api.together.xyz";
})

abbrev pub after_create :
    Api → String → Hardware → Trace → Created → Result PodInfo × Trace → Result PodInfo × Trace
after_create api model hw t (refused message) next = next
after_create api model hw t unreadable next = (err provider_error, t)
after_create api model hw t (endpoint id) next = if str_eq id "" then (err provider_error, t) else (
  pod_info id model hw (wait_for_running (api.polls id)),
  record t { created = id ∷ t.created },
)

-- The loop over the hardware. A refusal goes on with the next one, whatever its text; `later` is the
-- clock behind the loop.
unfoldable pub try_hardware : Api → ℕ → String → List String → Trace → Result PodInfo × Trace
try_hardware api later model [] t = (err provider_error, record t { capacity_miss_at = later })
try_hardware api later model (hw_id ∷ hw_list) t =
    let t' : Trace = record t { tried = hw_id ∷ t.tried } in
    elim (lookup hw_id hardware_table) [
      | none ↦ (err key_error, t)
      | some hw ↦
          after_create api model hw t' (api.create model hw_id)
            (try_hardware api later model hw_list t')
    ]

-- `launch`, at the clock `now` (`time.monotonic`, in seconds).
unfoldable pub launch : Api → (now later : ℕ) → String → Trace → Result PodInfo × Trace
launch api now later tier t =
    if ltb now (t.capacity_miss_at + capacity_cooldown_sec)
    then (err provider_error, t)
    else try_hardware api later (config_of tier).1 (config_of tier).0 t

-- `terminate`, with three rounds: whether the endpoint was deleted, and the number of calls. An
-- answer is a status, or an exception; none leaves the function.
unfoldable pub terminate : (ℕ → Result ℕ) → ℕ → ℕ → Bool × ℕ
terminate delete zero n = (false, n)
terminate delete (suc left) n = elim (delete n) [
  | err e ↦ terminate delete left (n + 1)
  | ok code ↦
      if (leb 200 code && ltb code 300) || code == 404
      then (true, n + 1)
      else terminate delete left (n + 1)
]

abbrev state_names : Dict String
state_names =
    ("RUNNING", "ready")
    ∷ ("IDLE", "ready")
    ∷ ("CREATING", "provisioning")
    ∷ ("STARTING", "starting")
    ∷ ("SCALING", "starting")
    ∷ ("DELETING", "terminated")
    ∷ ("DELETED", "terminated")
    ∷ ("FAILED", "failed")
    ∷ []

-- `_map_state`
unfoldable pub map_state : String → String
map_state s = or_default (lookup s state_names) "starting"

-- ===== src/Cost.antt =====
-- bridge/cost_tracker.py: the cost of a request, its row, and the prepaid balance. Costs are whole
-- numbers of 0.000001 USD. Of the constraints of the table of requests the model has the unique one
-- of a user's idempotency keys; the widths of its columns are not modelled.
pub mod Rounding
pub mod Accounting
pub mod Sharing
use gpu_relay.Common.{
  ℕ, ◌+◌, ◌-◌, ◌*◌, ◌<◌, max, String, str_eq, Bool, true, false, not, ◌&&◌, Option, none, some,
  List, ◌∷◌, Dict, lookup, or_default, any, Result, ok, err, runtime_error, ℚ, ◌/ℚ◌, of_ℕ, ◌+ℚ◌,
  ◌*ℚ◌, ltb, ◌==◌, if◌then◌else◌,
}
use gpu_relay.Models.{User, BillingMode, Request, RequestStatus}
use gpu_relay.Schemas.{PodHandle}
use gpu_relay.Router.Tiers.{TierCfg}
use Rounding.{half_even}

-- `idle_timeout / max(users, 1)`
abbrev pub share : ℕ → ℕ → ℚ
share idle users = idle /ℚ max users 1

unfoldable pub estimate_cost : ℚ → ℕ → ℕ → ℕ → ℚ
estimate_cost cost_per_hour_usd prompt_tokens idle_timeout_sec concurrent_users =
    let avg_seconds = of_ℕ 5 +ℚ prompt_tokens /ℚ 1000 *ℚ (3 /ℚ 2) in
    let charged_sec = avg_seconds +ℚ share idle_timeout_sec concurrent_users in
    charged_sec *ℚ (1 /ℚ 3600) *ℚ cost_per_hour_usd

-- An entry of `api_token_costs`; a missing key raises, and the handler answers 0.
pub record TokenCost : Type 0 where
  pub input_per_1k : Option ℚ
  pub output_per_1k : Option ℚ

abbrev pub token_cost : Option ℚ → Option ℚ → ℕ → ℕ → ℕ
token_cost (some i) (some o) prompt completion =
    half_even 1_000_000 (i *ℚ of_ℕ prompt *ℚ (1 /ℚ 1000) +ℚ o *ℚ of_ℕ completion *ℚ (1 /ℚ 1000))
token_cost _ _ prompt completion = 0

-- What the functions read of config/tiers.yaml.
pub record CostConfig : Type 0 where
  pub tiers : Dict TierCfg
  pub api_token_costs : Dict (Dict TokenCost)

abbrev find_costs : Option (Dict TokenCost) → String → Option TokenCost
find_costs none model = none
find_costs (some models) model = lookup model models

unfoldable pub api_token_cost : CostConfig → String → String → ℕ → ℕ → ℕ
api_token_cost c provider model prompt completion =
    elim (find_costs (lookup provider c.api_token_costs) model) [
      | none ↦ 0
      | some costs ↦ token_cost costs.input_per_1k costs.output_per_1k prompt completion
    ]

abbrev idle_of : Option TierCfg → ℕ
idle_of none = 300
idle_of (some cfg) = or_default cfg.idle_timeout_sec 300

unfoldable pub idle_timeout_for_tier : CostConfig → String → ℕ
idle_timeout_for_tier c tier = idle_of (lookup tier c.tiers)

-- `scard` of the pod's user set; an empty or missing set counts as one user.
unfoldable pub concurrent_users : ℕ → ℕ
concurrent_users count = if count == 0 then 1 else count

-- The exact cost of a session on a pod with an hourly price.
unfoldable pub session_cost : ℕ → ℕ → ℕ → ℚ → ℚ
session_cost latency_ms idle users cost_per_hour_usd =
    let charged_sec = latency_ms /ℚ 1000 +ℚ share idle users in
    charged_sec *ℚ (1 /ℚ 3600) *ℚ cost_per_hour_usd

-- What a call of `record_request` is told, and the size of the pod's user set.
pub record Call : Type 0 where
  pub pod : Option PodHandle
  pub tier : String
  pub prompt_tokens : ℕ
  pub completion_tokens : ℕ
  pub latency_ms : ℕ
  pub idempotency_key : Option String
  pub error_message : Option String
  pub users_seen : ℕ
  pub now : ℕ

-- `if error_message`: an empty text counts as no error.
abbrev pub has_error : Option String → Bool
has_error none = false
has_error (some m) = not (str_eq m "")

unfoldable pub pod_cost : CostConfig → Call → PodHandle → ℕ
pod_cost c call pod =
    if ltb 0 pod.cost_per_hour_usd.num
    then half_even 1_000_000 (
        session_cost call.latency_ms (idle_timeout_for_tier c call.tier)
          (concurrent_users call.users_seen) pod.cost_per_hour_usd)
    else api_token_cost c pod.provider pod.model call.prompt_tokens call.completion_tokens

abbrev cost_of : CostConfig → Call → Option PodHandle → ℕ
cost_of c call none = 0
cost_of c call (some pod) = if has_error call.error_message then 0 else pod_cost c call pod

unfoldable pub request_cost : CostConfig → Call → ℕ
request_cost c call = cost_of c call call.pod

abbrev id_of : Option PodHandle → Option String
id_of none = none
id_of (some pod) = some pod.pod_id

-- The row, without the columns that nothing reads back.
unfoldable pub request_row : CostConfig → Call → User → Request
request_row c call user = record {
  user_id = user.id;
  pod_id = id_of call.pod;
  tier = call.tier;
  prompt_tokens = call.prompt_tokens;
  completion_tokens = call.completion_tokens;
  cost_usd = request_cost c call;
  status = if has_error call.error_message then RequestStatus.error else RequestStatus.ok;
  idempotency_key = call.idempotency_key;
  created_at = call.now;
}

abbrev pub is_prepaid : BillingMode → Bool
is_prepaid BillingMode.prepaid = true
is_prepaid BillingMode.postpaid = false

-- `max(0, balance - cost)` is the truncated difference.
unfoldable pub charge : User → ℕ → User
charge user cost =
    if is_prepaid user.billing_mode && ltb 0 cost
    then record user { prepaid_balance_usd = user.prepaid_balance_usd - cost }
    else user

-- Keys that are NULL never clash.
abbrev pub same_key : Option String → Option String → Bool
same_key none _ = false
same_key (some k) none = false
same_key (some k) (some l) = str_eq k l

abbrev pub clashes : Request → Request → Bool
clashes row other =
    str_eq other.user_id row.user_id && same_key row.idempotency_key other.idempotency_key

-- What the constraint uq_requests_user_idempotency refuses.
unfoldable pub is_repeated : Request → List Request → Bool
is_repeated row requests = any (clashes row) requests

-- The row and the balance are written by one commit: a repeated key raises, and the transaction is
-- rolled back.
unfoldable pub record_request :
    CostConfig → Call → User → List Request → Result (User × List Request)
record_request c call user requests =
    let row = request_row c call user in
    if is_repeated row requests
    then err runtime_error
    else ok (charge user (request_cost c call), row ∷ requests)

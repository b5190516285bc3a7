-- ===== src/Routes/Accounts/Usage.antt =====
-- `get_usage` of bridge/main.py, in periods named by their first second or by their day.
pub mod Totals
use gpu_relay.Common.{
  ℕ, ◌+◌, ◌-◌, ◌*◌, ◌/◌, String, str_eq, Bool, ◌&&◌, ◌==◌, ltb, leb, List, [], ◌∷◌, filter,
  if◌then◌else◌,
}
use gpu_relay.Models.{User, Request, BillingMode}
use gpu_relay.Quota.Monthly.{is_ok}

pub record UsagePeriod : Type 0 where
  pub period : ℕ
  pub total_requests : ℕ
  pub ok_requests : ℕ
  pub prompt_tokens : ℕ
  pub completion_tokens : ℕ
  pub cost_usd : ℕ

pub record UsageResponse : Type 0 where
  pub user_id : String
  pub email : String
  pub monthly_budget_usd : ℕ
  pub prepaid_balance_usd : ℕ
  pub billing_mode : BillingMode
  pub this_month : UsagePeriod
  pub last_30_days : List UsagePeriod

-- `where(user_id == user.id, created_at >= start)`
abbrev pub since : String → ℕ → Request → Bool
since user start r = str_eq r.user_id user && leb start r.created_at

abbrev pub empty_period : ℕ → UsagePeriod
empty_period period = record {
  period = period;
  total_requests = 0;
  ok_requests = 0;
  prompt_tokens = 0;
  completion_tokens = 0;
  cost_usd = 0;
}

-- `count`, the sum of `case(status == ok, 1, else 0)`, and the sums of the columns
unfoldable pub aggregate : ℕ → List Request → UsagePeriod
aggregate period [] = empty_period period
aggregate period (r ∷ rows) =
    let rest = aggregate period rows in
    record {
      period = period;
      total_requests = rest.total_requests + 1;
      ok_requests = if is_ok r.status then rest.ok_requests + 1 else rest.ok_requests;
      prompt_tokens = rest.prompt_tokens + r.prompt_tokens;
      completion_tokens = rest.completion_tokens + r.completion_tokens;
      cost_usd = rest.cost_usd + r.cost_usd;
    }

abbrev pub day_of : Request → ℕ
day_of r = r.created_at / 86_400

-- A row of a day's group: the requests of any status are counted as successful.
abbrev pub count_in : Request → UsagePeriod → UsagePeriod
count_in r p = record {
  period = p.period;
  total_requests = p.total_requests + 1;
  ok_requests = p.total_requests + 1;
  prompt_tokens = p.prompt_tokens + r.prompt_tokens;
  completion_tokens = p.completion_tokens + r.completion_tokens;
  cost_usd = p.cost_usd + r.cost_usd;
}

-- The groups in the order of their days, with one more row.
abbrev pub group_in : Request → List UsagePeriod → List UsagePeriod
group_in r [] = count_in r (empty_period (day_of r)) ∷ []
group_in r (p ∷ days) =
    let later = group_in r days in
    if p.period == day_of r
    then count_in r p ∷ days
    else if ltb (day_of r) p.period
    then count_in r (empty_period (day_of r)) ∷ p ∷ days
    else p ∷ later

-- `group_by(day).order_by(day)`
unfoldable pub daily : List Request → List UsagePeriod
daily [] = []
daily (r ∷ rows) = group_in r (daily rows)

-- The start of the 29th day before today.
abbrev pub thirty_days_ago : ℕ → ℕ
thirty_days_ago now = (now / 86_400) * 86_400 - 29 * 86_400

unfoldable pub get_usage : ℕ → ℕ → User → List Request → UsageResponse
get_usage now month_start user rows = record {
  user_id = user.id;
  email = user.email;
  monthly_budget_usd = user.monthly_budget_usd;
  prepaid_balance_usd = user.prepaid_balance_usd;
  billing_mode = user.billing_mode;
  this_month = aggregate month_start (filter (since user.id month_start) rows);
  last_30_days = daily (filter (since user.id (thirty_days_ago now)) rows);
}

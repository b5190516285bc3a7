-- ===== src/Bridge.antt =====
-- bridge/main.py, `chat_completions`: what happens to a request before a pod is acquired. The gates
-- run in this order, and the first that refuses ends the request with what Redis then holds.
pub mod Admitted
pub mod Inference
pub mod Stream
pub mod Messages
pub mod Payload
pub mod Chat
pub mod Whole
use gpu_relay.Common.{
  ℕ, String, Option, none, some, List, Dict, lookup, or_default, Result, Error, ok, err, ◌>>=◌,
}
use gpu_relay.Models.{User, Request}
use gpu_relay.Schemas.{ChatCompletionRequest, RoutingDecision, Reason, workflow}
use gpu_relay.Router.Tiers.{Config, projected_cost}
use gpu_relay.Router.Signals.{prompt_tokens}
use gpu_relay.Router.Select.{HttpRequest, select_tier}
use gpu_relay.Workflow.{WorkflowDef, workflow_models}
use gpu_relay.Redis.{Redis}
use gpu_relay.Quota.Rate.{check_rpm}
use gpu_relay.Quota.Daily.{check_daily_tokens}
use gpu_relay.Quota.Monthly.{Ledger, spent_since, check_monthly_budget}

-- The limits of the settings.
pub record Limits : Type 0 where
  pub rate_limit_rpm_default : ℕ
  pub tokens_per_day_default : ℕ
  pub alert_percents_list : List ℕ

-- The clock, as the gates read it: milliseconds, the day and the seconds that are left of it, and
-- the start and the number of the month.
pub record Clock : Type 0 where
  pub now_ms : ℕ
  pub day : ℕ
  pub to_midnight : ℕ
  pub month_start : ℕ
  pub month : ℕ

-- The decision for a workflow model: its own tier, or "simple".
abbrev fixed_tier : Config → ℕ → WorkflowDef → Result RoutingDecision
fixed_tier c tokens wf =
    let tier = or_default wf.gpu_tier "simple" in
    (do
      cost ← projected_cost c tier tokens
      ok (record {
        tier = tier;
        reason = workflow wf.workflow;
        projected_cost_usd = cost;
        downgraded_from = none;
        provider_override = none;
      }))

unfoldable pub route :
    Config → ChatCompletionRequest → User → HttpRequest → ℕ → Result RoutingDecision
route c body user request spent = elim (lookup body.model workflow_models) [
  | some wf ↦ fixed_tier c (prompt_tokens body) wf
  | none ↦ select_tier c body user request spent
]

module _ (redis : Redis) where
  open redis use {Store}

  -- The budget gate, for a decision.
  abbrev pub budget_gate :
      Limits
      → Clock
      → User
      → List Request
      → Ledger redis
      → Result RoutingDecision
      → Result RoutingDecision × Ledger redis
  budget_gate limits clock user requests l (err e) = (err e, l)
  budget_gate limits clock user requests l (ok decision) =
      let (r, after) =
        check_monthly_budget redis limits.alert_percents_list user decision.projected_cost_usd
          clock.month_start clock.month requests l in
      (r >>= (λ x. ok decision), after)

  abbrev pub with_store : Ledger redis → Store → Ledger redis
  with_store l s = record l { store = s }

  unfoldable pub admit :
      Config
      → Limits
      → Clock
      → ChatCompletionRequest
      → User
      → HttpRequest
      → List Request
      → Ledger redis
      → Result RoutingDecision × Ledger redis
  admit c limits clock body user request requests l =
      let (rpm, s) = check_rpm redis limits.rate_limit_rpm_default user.id clock.now_ms l.store in
      let (tpd, s') =
        check_daily_tokens redis limits.tokens_per_day_default user.id clock.day clock.to_midnight
          (prompt_tokens body) s in
      elim rpm [
        | err e ↦ (err e, with_store l s)
        | ok x ↦ elim tpd [
          | err e ↦ (err e, with_store l s')
          | ok y ↦
              budget_gate limits clock user requests (with_store l s')
                (route c body user request (spent_since user.id clock.month_start requests))
        ]
      ]

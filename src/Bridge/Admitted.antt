-- ===== src/Bridge/Admitted.antt =====
-- What a request that reaches the pods has passed.
use gpu_relay.Common.{
  ℕ, String, ◌≡◌, refl, ◌⊎◌, inl, inr, true, false, some, List, lookup, or_default, Result, ok, err,
  >>=-eq-ok, ok-injective, Result-cases, Option-cases, Bool-cases, ap, sym, subst, ℚ, leb_ℚ, ◌+ℚ◌,
}
use gpu_relay.Models.{User, Request}
use gpu_relay.Schemas.{ChatCompletionRequest, RoutingDecision, local_model_requested}
use gpu_relay.Router.Tiers.{Config, projected_cost}
use gpu_relay.Router.Signals.{prompt_tokens}
use gpu_relay.Router.Select.{HttpRequest, permits, allowed_tiers, usd}
use gpu_relay.Router.Whitelist.{select_tier-permits}
use gpu_relay.Workflow.{WorkflowDef, workflow_models}
use gpu_relay.Redis.{Redis}
use gpu_relay.Quota.Rate.{check_rpm}
use gpu_relay.Quota.Daily.{check_daily_tokens}
use gpu_relay.Quota.Monthly.{Ledger, spent_since, check_monthly_budget}
use gpu_relay.Bridge.{Limits, Clock, route, budget_gate, admit}

-- A decision that the whitelist permits, or one of the two ways around it.
abbrev pub Permitted : ChatCompletionRequest → User → RoutingDecision → Type 0
Permitted body u d =
    (permits (allowed_tiers u) d.tier ≡ true)
    ⊎ (d.reason ≡ local_model_requested)
    ⊎ ((wf : WorkflowDef) × (lookup body.model workflow_models ≡ some wf)
        × (d.tier ≡ or_default wf.gpu_tier "simple"))

route-Permitted :
    (c : Config) (body : ChatCompletionRequest) (u : User) (h : HttpRequest) (spent : ℕ)
    (d : RoutingDecision)
    → route c body u h spent ≡ ok d
    → Permitted body u d
unfolding route
route-Permitted c body u h spent d e = elim (Option-cases (lookup body.model workflow_models)) [
  | inl p ↦ elim (select_tier-permits c body u h spent d (rw (p, route) at e)) [
    | inl permitted ↦ inl permitted
    | inr local ↦ inr (inl local)
  ]
  | inr (wf, p) ↦
      let (cost, q, e') =
        >>=-eq-ok (projected_cost c (or_default wf.gpu_tier "simple") (prompt_tokens body)) _
          (rw (p, route) at e) in
      inr (inr (wf, p, ap (λ (r : RoutingDecision). r.tier) (sym (ok-injective e'))))
]

-- A request for the model of a workflow that names a tier is routed to that very tier, and does not
-- fail, although the user's whitelist lacks the tier: for any user, headers and spent amount, where
-- the cost of the request at that tier can be projected.
pub workflow_ignores_whitelist :
    (c : Config) (body : ChatCompletionRequest) (u : User) (h : HttpRequest) (spent : ℕ)
    (wf : WorkflowDef) (tier : String) (cost : ℚ)
    → lookup body.model workflow_models ≡ some wf
    → wf.gpu_tier ≡ some tier
    → permits (allowed_tiers u) tier ≡ false
    → projected_cost c tier (prompt_tokens body) ≡ ok cost
    → (d : RoutingDecision) × (route c body u h spent ≡ ok d)
      × (d.tier ≡ tier)
      × (permits (allowed_tiers u) d.tier ≡ false)
unfolding route
workflow_ignores_whitelist c body u h spent wf tier cost known fixed barred price =
    rw (known, route) (rw (fixed) (rw (price) (_, refl, refl, barred)))

module _ (redis : Redis) where
  gate-passed :
      (limits : Limits) (clock : Clock) (u : User) (rs : List Request) (l : Ledger redis)
      (r : Result RoutingDecision) (d : RoutingDecision)
      → (budget_gate redis limits clock u rs l r).0 ≡ ok d
      → (r ≡ ok d)
        × (leb_ℚ
              (usd (spent_since u.id clock.month_start rs) +ℚ d.projected_cost_usd)
              (usd u.monthly_budget_usd)
            ≡ true)
  unfolding check_monthly_budget
  gate-passed limits clock u rs l (err x) d e = cc
  gate-passed limits clock u rs l (ok d') d e =
      elim (Bool-cases (
        leb_ℚ (usd (spent_since u.id clock.month_start rs) +ℚ d'.projected_cost_usd)
          (usd u.monthly_budget_usd))) [
            | inl fits ↦
                subst
                  (λ (x : RoutingDecision).
                    (ok d' ≡ ok x)
                    × (leb_ℚ (usd (spent_since u.id clock.month_start rs) +ℚ x.projected_cost_usd)
                          (usd u.monthly_budget_usd)
                        ≡ true))
                  (ok-injective (rw (fits, check_monthly_budget) at e)) (refl, fits)
            | inr dear ↦ cc (rw (dear, check_monthly_budget) at e)
          ]

  -- A request that reaches the pods has passed every gate: the rate limit and the daily limit have
  -- granted it, the user's whitelist permits its tier or it is one for the local model or for a
  -- workflow, whose tier is fixed, and the rest of the monthly budget covers its projected cost.
  pub admit-Permitted :
      (c : Config) (limits : Limits) (clock : Clock) (body : ChatCompletionRequest) (u : User)
      (h : HttpRequest) (rs : List Request) (l : Ledger redis) (d : RoutingDecision)
      → (admit redis c limits clock body u h rs l).0 ≡ ok d
      → let rpm = check_rpm redis limits.rate_limit_rpm_default u.id clock.now_ms l.store in
        (rpm.0 ≡ ok tt)
        × ((check_daily_tokens redis limits.tokens_per_day_default u.id clock.day clock.to_midnight
              (prompt_tokens body)
              rpm.1).0
            ≡ ok tt)
        × Permitted body u d
        × (leb_ℚ
              (usd (spent_since u.id clock.month_start rs) +ℚ d.projected_cost_usd)
              (usd u.monthly_budget_usd)
            ≡ true)
  unfolding admit
  admit-Permitted c limits clock body u h rs l d e =
      let rpm = check_rpm redis limits.rate_limit_rpm_default u.id clock.now_ms l.store in
      let tpd =
        check_daily_tokens redis limits.tokens_per_day_default u.id clock.day clock.to_midnight
          (prompt_tokens body) rpm.1 in
      elim (Result-cases rpm.0) [
        | inl (x, p) ↦ cc (rw (p, admit) at e)
        | inr (x, p) ↦ elim (Result-cases tpd.0) [
          | inl (x, q) ↦ cc (rw (p, q, admit) at e)
          | inr (y, q) ↦
              let (routed, fits) =
                gate-passed limits clock u rs _
                  (route c body u h (spent_since u.id clock.month_start rs)) d
                  (rw (p, q, admit) at e) in
              (p, q, route-Permitted c body u h _ d routed, fits)
        ]
      ]

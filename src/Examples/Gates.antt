-- ===== src/Examples/Gates.antt =====
-- The gates before a request reaches a pod, at concrete calls.
use gpu_relay.Common.{
  suc, ◌≤◌, ◌+◌, ◌≡◌, ◌⊎◌, refl, true, false, none, some, [], ◌∷◌, length, or_default, ok, err,
  http, leb, if◌then◌else◌, ◌/ℚ◌, ◌+ℚ◌, leb_ℚ, arith, lookup,
}
use gpu_relay.Schemas.{RoutingDecision, signals, workflow}
use gpu_relay.Redis.{tpd}
use gpu_relay.Router.Tiers.{Config, projected_cost}
use gpu_relay.Router.Signals.{prompt_tokens}
use gpu_relay.Router.Select.{permits, allowed_tiers, usd, within_budget, chosen_tier}
use gpu_relay.Quota.Rate.{check_rpm, after_calls, too_many, in_window, check_rpm_lem}
use gpu_relay.Quota.Daily.{check_daily_tokens, after_requests, granted, check_daily_tokens_lem}
use gpu_relay.Quota.Monthly.{Ledger, spent_since, check_monthly_budget, routed-passes}
use gpu_relay.Bridge.{Limits, Clock, route, admit}
use gpu_relay.Bridge.Admitted.{Permitted, admit-Permitted, workflow_ignores_whitelist}
use gpu_relay.Workflow.{WorkflowDef, workflow_models}
use gpu_relay.Examples.Store.{store, empty_store}
use gpu_relay.Examples.Data.{config, ann, asks, no_header, spent_request}

check_rpm_lem_example :
    (check_rpm store 2 "ann" 70_000 (after_calls store 2 "ann" (50_000 ∷ 5_000 ∷ []) empty_store)).0
    ≡ too_many 2 (suc (length (in_window store 70_000 (50_000 ∷ 5_000 ∷ []))))
check_rpm_lem_example =
    check_rpm_lem store 2 "ann" (50_000 ∷ 5_000 ∷ []) empty_store 70_000 refl
      (omega arith, (omega arith, tt))

check_daily_tokens_lem_example :
    let before = after_requests store 100 "ann" 3 900 (80 ∷ 30 ∷ []) empty_store in
    let after = check_daily_tokens store 100 "ann" 3 900 70 before in
    (or_default (store.get (tpd "ann" 3) before) 0 ≡ granted 100 (80 ∷ 30 ∷ []))
    × (granted 100 (80 ∷ 30 ∷ []) ≤ 100)
    × (after.0 ≡ (if leb (granted 100 (80 ∷ 30 ∷ []) + 70) 100 then ok tt else err (http 429)))
    × ((after.0 ≡ ok tt) ⊎ (after ≡ (err (http 429), before)))
check_daily_tokens_lem_example =
    check_daily_tokens_lem store 100 "ann" 3 900 (80 ∷ 30 ∷ []) 70 empty_store (λ s. refl) refl

abbrev pub ledger : Ledger store
ledger = record { alerts = []; store = empty_store }

abbrev decision : RoutingDecision
decision =
    chosen_tier "architecture" "architecture" (signals false false true) (42091242 /ℚ 720000000)

within :
    within_budget config [] 6
      (spent_since "ann" 100 (spent_request ∷ []))
      ann.monthly_budget_usd
      "architecture"
      (signals false false true)
    ≡ ok decision
unfolding within_budget gpu_relay.Router.Tiers.downgrades gpu_relay.Router.Tiers.index
    gpu_relay.Router.Select.pick_affordable projected_cost
    gpu_relay.Router.Tiers.pod_providers_active gpu_relay.Router.Tiers.get_tier lookup
    gpu_relay.Router.Select.affordable spent_since
within = refl

routed-passes_example :
    (check_monthly_budget store
      (80 ∷ [])
      ann
      decision.projected_cost_usd
      100
      11
      (spent_request ∷ [])
      ledger).0
    ≡ ok tt
routed-passes_example =
    routed-passes store config [] 6 "architecture" (signals false false true) (80 ∷ []) ann 100 11
      (spent_request ∷ []) ledger decision within

abbrev pub limits : Limits
limits = record {
  rate_limit_rpm_default = 60;
  tokens_per_day_default = 1_000_000;
  alert_percents_list = 80 ∷ [];
}

abbrev pub clock : Clock
clock = record { now_ms = 700_000; day = 3; to_midnight = 900; month_start = 100; month = 11 }

abbrev admitted_decision : RoutingDecision
admitted_decision = record {
  tier = "architecture";
  reason = workflow "code_review";
  projected_cost_usd = 42091242 /ℚ 720000000;
  downgraded_from = none;
  provider_override = none;
}

admitted :
    (admit store config limits clock
      (asks "llm-code-review" "please review it")
      ann
      no_header
      (spent_request ∷ [])
      ledger).0
    ≡ ok admitted_decision
unfolding admit check_rpm check_daily_tokens prompt_tokens route lookup projected_cost
    gpu_relay.Router.Tiers.pod_providers_active gpu_relay.Router.Tiers.get_tier check_monthly_budget
    spent_since
admitted = refl

admit-Permitted_example :
    let body = asks "llm-code-review" "please review it" in
    let rpm = check_rpm store limits.rate_limit_rpm_default ann.id clock.now_ms ledger.store in
    (rpm.0 ≡ ok tt)
    × ((check_daily_tokens store limits.tokens_per_day_default ann.id clock.day clock.to_midnight
          (prompt_tokens body)
          rpm.1).0
        ≡ ok tt)
    × Permitted body ann admitted_decision
    × (leb_ℚ
          (usd (spent_since ann.id clock.month_start (spent_request ∷ []))
            +ℚ admitted_decision.projected_cost_usd)
          (usd ann.monthly_budget_usd)
        ≡ true)
admit-Permitted_example =
    admit-Permitted store config limits clock (asks "llm-code-review" "please review it") ann
      no_header (spent_request ∷ []) ledger admitted_decision admitted

maximum_cost :
    projected_cost config "maximum" (prompt_tokens (asks "llm-arch-design" "a small change"))
    ≡ ok (67101650 /ℚ 720000000)
unfolding projected_cost gpu_relay.Router.Tiers.pod_providers_active gpu_relay.Router.Tiers.get_tier
    lookup prompt_tokens
maximum_cost = refl

abbrev design : WorkflowDef
design = record { gpu_tier = some "maximum"; workflow = "architecture_design" }

found_design : lookup "llm-arch-design" workflow_models ≡ some design
unfolding lookup
found_design = refl

barred : permits (allowed_tiers ann) "maximum" ≡ false
unfolding allowed_tiers
barred = refl

workflow_ignores_whitelist_example :
    (d : RoutingDecision) × (route config (asks "llm-arch-design" "a small change") ann no_header 0
      ≡ ok d)
    × (d.tier ≡ "maximum")
    × (permits (allowed_tiers ann) d.tier ≡ false)
workflow_ignores_whitelist_example =
    workflow_ignores_whitelist config (asks "llm-arch-design" "a small change") ann no_header 0
      design "maximum" (67101650 /ℚ 720000000) found_design refl barred maximum_cost

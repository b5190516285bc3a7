-- ===== src/Router/Whitelist.antt =====
-- The whitelist of tiers: no decision leaves it, but for the local model.
use gpu_relay.Common.{
  ℕ, String, eq_iff, ◌≡◌, ◌⊎◌, inl, inr, true, false, Option, none, List, [], ◌∷◌, contains, filter,
  is_empty, ok, arith, Option-cases, >>=-eq-ok,
}
use gpu_relay.Models.{User}
use gpu_relay.Schemas.{
  ChatCompletionRequest, RoutingDecision, Reason, local_model_requested, explicit_override,
  prompt_tier_hint as hint_reason,
}
use gpu_relay.Router.Tiers.{Config, downgrades}
use gpu_relay.Router.Order.{contains-filter}
use gpu_relay.Router.Signals.{prompt_tokens, last_user_text}
use gpu_relay.Router.Hint.{prompt_tier_hint}
use gpu_relay.Router.Select.{
  HttpRequest, allowed_tiers, permits, pick_affordable, within_budget, named_tier, by_content,
  in_order, by_name, override, parse_model, vision_tier, select_tier, signal_tier,
}

-- What a user with an admin's ceiling is permitted lies under the ceiling, whatever the user
-- prefers.
pub permits-allowed_tiers :
    (u : User) (t : String)
    → is_empty u.allowed_tiers ≡ false
    → permits (allowed_tiers u) t ≡ true
    → contains t u.allowed_tiers ≡ true
unfolding allowed_tiers
permits-allowed_tiers u t h p =
    ground (arith, contains-filter (λ x. contains x u.allowed_tiers) t u.preferred_tiers)

pick-contains :
    (c : Config) (tokens spent budget : ℕ) (cand : String) (r : Reason) (ts : List String)
    (d : RoutingDecision)
    → pick_affordable c tokens spent budget cand r ts ≡ ok d
    → contains d.tier ts ≡ true
unfolding pick_affordable
pick-contains c tokens spent budget cand r [] d e = cc
pick-contains c tokens spent budget cand r (t ∷ ts) d e =
    ground (arith, eq_iff d.tier t, pick-contains c tokens spent budget cand r ts d)

within_budget-permits :
    (c : Config) (allowed : List String) (tokens spent budget : ℕ) (cand : String) (r : Reason)
    (d : RoutingDecision)
    → within_budget c allowed tokens spent budget cand r ≡ ok d
    → permits allowed d.tier ≡ true
unfolding within_budget
within_budget-permits c allowed tokens spent budget cand r d e =
    let (all, p, e') = >>=-eq-ok (downgrades cand) _ e in
    ground (
      arith,
      e',
      pick-contains c tokens spent budget cand r (filter (λ t. contains t allowed) all) d,
      contains-filter (λ t. contains t allowed) d.tier all,
    )

named_tier-permits :
    (c : Config) (allowed : List String) (tokens : ℕ) (t : String) (r : Reason)
    (provider : Option String) (d : RoutingDecision)
    → named_tier c allowed tokens t r provider ≡ ok d
    → permits allowed d.tier ≡ true
unfolding named_tier
named_tier-permits c allowed tokens t r provider d e = ground arith

vision_tier-permits :
    (c : Config) (allowed : List String) (tokens : ℕ) (d : RoutingDecision)
    → vision_tier c allowed tokens ≡ ok d
    → permits allowed d.tier ≡ true
unfolding vision_tier
vision_tier-permits c allowed tokens d e = ground arith

-- the decision of the signal stage or of the prompt's hint
by_content-permits :
    (c : Config) (request : ChatCompletionRequest) (u : User) (spent : ℕ) (d : RoutingDecision)
    → by_content c request u spent ≡ ok d
    → permits (allowed_tiers u) d.tier ≡ true
unfolding by_content
by_content-permits c request u spent d e =
    elim (Option-cases (in_order (prompt_tier_hint (last_user_text request)))) [
      | inr (t, p) ↦
          named_tier-permits c (allowed_tiers u) (prompt_tokens request) t hint_reason none d
            (rw (p, by_content) at e)
      | inl p ↦
          let (chosen, q, e') = >>=-eq-ok (signal_tier c request) _ (rw (p, by_content) at e) in
          within_budget-permits c (allowed_tiers u) (prompt_tokens request) spent
            u.monthly_budget_usd chosen.0 chosen.1 d e'
    ]

by_name-permits :
    (c : Config) (request : ChatCompletionRequest) (u : User) (h : HttpRequest) (spent : ℕ)
    (model : String × Option String) (d : RoutingDecision)
    → by_name c request u h spent model ≡ ok d
    → permits (allowed_tiers u) d.tier ≡ true
unfolding by_name
by_name-permits c request u h spent model d e = elim (Option-cases (override h model.0)) [
  | inr (t, p) ↦
      named_tier-permits c (allowed_tiers u) (prompt_tokens request) t (explicit_override t) model.1
        d (rw (p, by_name) at e)
  | inl p ↦ by_content-permits c request u spent d (rw (p, by_name) at e)
]

-- A tier that the router decides on is one that the user's whitelist permits, for every request,
-- header and budget. The one exception is a request for the local model.
pub select_tier-permits :
    (c : Config) (request : ChatCompletionRequest) (u : User) (h : HttpRequest) (spent : ℕ)
    (d : RoutingDecision)
    → select_tier c request u h spent ≡ ok d
    → (permits (allowed_tiers u) d.tier ≡ true) ⊎ (d.reason ≡ local_model_requested)
unfolding select_tier
select_tier-permits c request u h spent d e = ground (
  arith,
  vision_tier-permits c (allowed_tiers u) (prompt_tokens request) d,
  by_name-permits c request u h spent (parse_model request.model) d,
)

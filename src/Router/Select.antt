-- ===== src/Router/Select.antt =====
-- bridge/router.py, `select_tier`. Each numbered stage of the source is a definition; a stage that
-- does not decide passes the request on to the next.
use gpu_relay.Common.{
  ℕ, String, str_eq, Bool, not, ◌&&◌, ◌||◌, Option, none, some, List, [], ◌∷◌, contains, filter,
  is_empty, lookup, or_default, removeprefix, split_once, ℚ, ◌/ℚ◌, of_ℕ, ◌+ℚ◌, leb_ℚ, Result, ok,
  err, http, ◌>>=◌, if◌then◌else◌,
}
use gpu_relay.Models.{User}
use gpu_relay.Schemas.{
  ChatCompletionRequest, RoutingDecision, Reason, vision_content_detected, local_model_requested,
  prompt_tier_hint as hint_reason, explicit_override, signals, downgrade,
}
use gpu_relay.Router.Tiers.{Config, tier_order, projected_cost, highest, downgrades}
use gpu_relay.Router.Signals.{
  prompt_tokens, last_user_text, keyword_tier, min_tier_for_tokens, min_tier_for_files,
}
use gpu_relay.Router.Hint.{prompt_tier_hint}
use gpu_relay.Router.Vision.{has_image_content, requires_non_vision_model}

-- `_allowed_tiers`; an empty list stands for None: no restriction.
unfoldable pub allowed_tiers : User → List String
allowed_tiers u =
    let merged = filter (λ t. contains t u.allowed_tiers) u.preferred_tiers in
    if not (is_empty u.allowed_tiers) && not (is_empty u.preferred_tiers)
    then (if is_empty merged then u.allowed_tiers else merged)
    else (if is_empty u.preferred_tiers then u.allowed_tiers else u.preferred_tiers)

-- `not allowed or t in allowed`
abbrev pub permits : List String → String → Bool
permits allowed t = is_empty allowed || contains t allowed

-- What the router reads of the HTTP request.
pub record HttpRequest : Type 0 where
  pub x_tier : Option String
  pub tier_param : Option String

-- `a or b`: an empty text counts as absent.
abbrev pub or_else : Option String → Option String → Option String
or_else none b = b
or_else (some a) b = if str_eq a "" then b else some a

-- The model field without its prefix, and the provider of "tier:provider".
unfoldable pub parse_model : String → String × Option String
unfolding split_once
parse_model model =
    let field = removeprefix "llm-" model in
    elim (split_once b':' field) [
      | none ↦ (field, none)
      | some (t, p) ↦ if contains t tier_order then (t, some p) else (field, none)
    ]

abbrev decide : String → Reason → ℚ → Option String → RoutingDecision
decide t r cost provider = record {
  tier = t;
  reason = r;
  projected_cost_usd = cost;
  downgraded_from = none;
  provider_override = provider;
}

abbrev pub usd : ℕ → ℚ
usd micros = micros /ℚ 1_000_000

-- `Decimal(str(cost)) <= budget - spent`, with the spent amount on the other side.
unfoldable pub affordable : ℚ → ℕ → ℕ → Bool
affordable cost spent budget = leb_ℚ (cost +ℚ usd spent) (usd budget)

abbrev pub chosen_tier : String → String → Reason → ℚ → RoutingDecision
chosen_tier t candidate reason cost = record {
  tier = t;
  reason = if str_eq t candidate then reason else downgrade candidate reason;
  projected_cost_usd = cost;
  downgraded_from = if str_eq t candidate then none else some candidate;
  provider_override = none;
}

-- The loop over the candidates: the first that the rest of the budget covers.
unfoldable pub pick_affordable :
    Config → ℕ → ℕ → ℕ → String → Reason → List String → Result RoutingDecision
pick_affordable c tokens spent budget candidate reason [] = err (http 402)
pick_affordable c tokens spent budget candidate reason (t ∷ ts) =
    let rest = pick_affordable c tokens spent budget candidate reason ts in
    (do
      cost ← projected_cost c t tokens
      if affordable cost spent budget then ok (chosen_tier t candidate reason cost) else rest)

-- Stage 4: the whitelist, then the budget.
unfoldable pub within_budget :
    Config → List String → ℕ → ℕ → ℕ → String → Reason → Result RoutingDecision
within_budget c allowed tokens spent budget candidate reason = do
  all ← downgrades candidate
  let candidates = if is_empty allowed then all else filter (λ t. contains t allowed) all
  if not (is_empty allowed) && is_empty candidates
      then err (http 403)
      else pick_affordable c tokens spent budget candidate reason candidates

-- Stage 3: the highest tier that a signal asks for.
unfoldable pub signal_tier : Config → ChatCompletionRequest → Result (String × Reason)
signal_tier c request = do
  token_tier ← min_tier_for_tokens c (prompt_tokens request)
  file_tier ← min_tier_for_files c (or_default request.files_referenced 0)
  let kw_tier = or_default (keyword_tier c (last_user_text request)) "simple"
  larger ← highest token_tier file_tier
  candidate ← highest larger kw_tier
  ok (
    candidate,
    signals (not (str_eq token_tier "simple")) (not (str_eq file_tier "simple"))
        (not (str_eq kw_tier "simple")),
  )

-- Stages 1 and 2: a tier that the request names, under the whitelist.
unfoldable pub named_tier :
    Config → List String → ℕ → String → Reason → Option String → Result RoutingDecision
named_tier c allowed tokens t reason provider =
    if permits allowed t
    then (do cost ← projected_cost c t tokens; ok (decide t reason cost provider))
    else err (http 403)

abbrev pub in_order : Option String → Option String
in_order none = none
in_order (some t) = if contains t tier_order then some t else none

-- Stages 2 to 4.
unfoldable pub by_content : Config → ChatCompletionRequest → User → ℕ → Result RoutingDecision
by_content c request user spent =
    let allowed = allowed_tiers user in
    let tokens = prompt_tokens request in
    elim (in_order (prompt_tier_hint (last_user_text request))) [
      | some t ↦ named_tier c allowed tokens t hint_reason none
      | none ↦ (do
        chosen ← signal_tier c request
        within_budget c allowed tokens spent user.monthly_budget_usd chosen.0 chosen.1)
    ]

-- Stage 0: a request with an image goes to the vision tier or nowhere.
unfoldable pub vision_tier : Config → List String → ℕ → Result RoutingDecision
vision_tier c allowed tokens = elim (lookup "vision" c.tiers) [
  | none ↦ err (http 503)
  | some cfg ↦
      if permits allowed "vision"
      then (do
        cost ← projected_cost c "vision" tokens
        ok (decide "vision" vision_content_detected cost none))
      else err (http 503)
]

-- Stage 1: the header, the query parameter, or the model field.
abbrev pub override : HttpRequest → String → Option String
override h model_field =
    in_order (or_else h.x_tier (or_else h.tier_param (in_order (some model_field))))

unfoldable pub by_name :
    Config
    → ChatCompletionRequest
    → User
    → HttpRequest
    → ℕ
    → String × Option String
    → Result RoutingDecision
by_name c request user h spent model = elim (override h model.0) [
  | some t ↦
      named_tier c (allowed_tiers user) (prompt_tokens request) t (explicit_override t) model.1
  | none ↦ by_content c request user spent
]

unfoldable pub select_tier :
    Config → ChatCompletionRequest → User → HttpRequest → ℕ → Result RoutingDecision
select_tier c request user h spent =
    let model = parse_model request.model in
    if has_image_content request.messages && not (requires_non_vision_model request)
    then vision_tier c (allowed_tiers user) (prompt_tokens request)
    else if str_eq model.0 "local"
    then ok (decide "simple" local_model_requested (of_ℕ 0) (some "local"))
    else by_name c request user h spent model

-- ===== src/Examples/Routing.antt =====
-- The router at concrete requests.
use gpu_relay.Common.{
  ℕ, ◌≤◌, ◌<◌, String, str_eq, ◌≡◌, ◌≢◌, ◌⊎◌, ◌↔◌, refl, Bool, true, false, Option, none, some,
  List, [], ◌∷◌, All, contains, filter, map, lookup, or_default, Result, ok, err, http, ℚ, ◌/ℚ◌,
  arith, find, reverse,
}
use gpu_relay.Schemas.{
  RoutingDecision, local_model_requested, signals, ChatMessage, message, parts, image_url, text,
  text_content, part_texts,
}
use gpu_relay.Router.Select.{
  select_tier, within_budget, pick_affordable, signal_tier, permits, allowed_tiers, parse_model,
  by_name, by_content, affordable, vision_tier, named_tier, chosen_tier,
}
use gpu_relay.Router.Tiers.{
  projected_cost, pod_providers_active, get_tier, highest, index, downgrades, down_from,
}
use gpu_relay.Router.Signals.{
  prompt_tokens, last_user_text, keyword_tier, min_tier_for_tokens, min_tier_for_files,
  first_fitting, has_keyword, total_chars,
}
use gpu_relay.Router.Hint.{prompt_tier_hint, hint_tiers, alternatives, scan}
use gpu_relay.Router.Vision.{has_image_content, requires_non_vision_model}
use gpu_relay.Router.Whitelist.{select_tier-permits}
use gpu_relay.Router.Budget.{FirstAffordable, pick-FirstAffordable, simple_goes_up}
use gpu_relay.Examples.Data.{config, ann, asks, no_header}

abbrev architecture_decision : RoutingDecision
architecture_decision = record {
  tier = "architecture";
  reason = signals false false true;
  projected_cost_usd = 42091242 /ℚ 720000000;
  downgraded_from = none;
  provider_override = none;
}

routed :
    select_tier config (asks "llm-auto" "please refactor it") ann no_header 0
    ≡ ok architecture_decision
unfolding select_tier has_image_content parse_model by_name by_content prompt_tier_hint alternatives
    gpu_relay.Router.Hint.behind_sign last_user_text gpu_relay.Router.Hint.some_then_word
    gpu_relay.Common.drop_prefix scan gpu_relay.Router.Hint.is_separator signal_tier
    min_tier_for_tokens lookup prompt_tokens min_tier_for_files gpu_relay.Common.is_infix
    gpu_relay.Common.join gpu_relay.Common.split_once gpu_relay.Router.Hint.bracketed
    gpu_relay.Router.Hint.leading_word gpu_relay.Router.Hint.skip_then_word affordable allowed_tiers
    named_tier pick_affordable vision_tier within_budget first_fitting has_keyword keyword_tier
    total_chars down_from downgrades get_tier highest index pod_providers_active projected_cost
    requires_non_vision_model part_texts text_content
routed = refl

select_tier-permits_example :
    (permits (allowed_tiers ann) architecture_decision.tier ≡ true)
    ⊎ (architecture_decision.reason ≡ local_model_requested)
select_tier-permits_example =
    select_tier-permits config (asks "llm-auto" "please refactor it") ann no_header 0
      architecture_decision routed

abbrev three : List String
three = "ultra" ∷ "maximum" ∷ "architecture" ∷ []

abbrev downgraded : RoutingDecision
downgraded = chosen_tier "architecture" "ultra" (signals true false false) (42091242 /ℚ 720000000)

picked : pick_affordable config 6 0 80_000 "ultra" (signals true false false) three ≡ ok downgraded
unfolding pick_affordable projected_cost pod_providers_active get_tier lookup affordable
picked = refl

pick-FirstAffordable_example :
    FirstAffordable config 6 0 80_000 "ultra" (signals true false false) three downgraded
pick-FirstAffordable_example =
    pick-FirstAffordable config 6 0 80_000 "ultra" (signals true false false) three downgraded
      picked

signalled :
    signal_tier config (asks "llm-auto" "please refactor it")
    ≡ ok ("architecture", signals false false true)
unfolding signal_tier min_tier_for_tokens lookup prompt_tokens min_tier_for_files highest index
    keyword_tier last_user_text
signalled = refl

few_tokens : min_tier_for_tokens config 100 ≡ ok "simple"
unfolding min_tier_for_tokens lookup
few_tokens = refl

many_tokens : min_tier_for_tokens config 9000 ≡ ok "architecture"
unfolding min_tier_for_tokens lookup
many_tokens = refl

hinted : prompt_tier_hint "Please use ultra for this" ≡ some "ultra"
unfolding prompt_tier_hint alternatives gpu_relay.Router.Hint.behind_sign
    gpu_relay.Router.Hint.some_then_word gpu_relay.Common.drop_prefix
    gpu_relay.Router.Hint.skip_then_word gpu_relay.Router.Hint.leading_word scan
    gpu_relay.Router.Hint.is_separator gpu_relay.Router.Hint.bracketed
hinted = refl

abbrev with_image : List ChatMessage
with_image = message "user" (parts (text "What is this?" ∷ image_url "http://a/b.png" ∷ [])) ∷ []

ultra_cost : projected_cost config "ultra" 6 ≡ ok (115293402 /ℚ 720000000)
unfolding projected_cost pod_providers_active get_tier lookup
ultra_cost = refl

covered : affordable (115293402 /ℚ 720000000) 0 50_000_000 ≡ true
unfolding affordable
covered = refl

simple_goes_up_example :
    within_budget config ("ultra" ∷ []) 6 0 50_000_000 "simple" (signals false false false)
    ≡ ok (chosen_tier "ultra" "simple" (signals false false false) (115293402 /ℚ 720000000))
simple_goes_up_example =
    simple_goes_up config ("ultra" ∷ []) 6 0 50_000_000 (signals false false false)
      (115293402 /ℚ 720000000) refl refl ultra_cost covered

-- ===== src/Router/Signals.antt =====
-- bridge/router.py: the signals of a request (size, files, keywords) and the tiers that they ask for.
use Prim.Native.String.{count}
use gpu_relay.Common.{
  ℕ, ◌+◌, ◌/◌, max, String, str_eq, Bool, Option, none, some, List, [], ◌∷◌, map, reverse, any,
  find, lookup, or_default, codes, to_lower, is_infix, Result, ok, ◌>>=◌, leb, if◌then◌else◌,
}
use gpu_relay.Schemas.{ChatMessage, ChatCompletionRequest, text_content}
use gpu_relay.Router.Tiers.{TierCfg, Config, tier_order, get_tier}

unfoldable pub total_chars : List ChatMessage → ℕ
unfolding text_content
total_chars [] = 0
total_chars (m ∷ ms) = count (text_content m) + total_chars ms

-- Roughly four characters to a token.
unfoldable pub prompt_tokens : ChatCompletionRequest → ℕ
unfolding total_chars
prompt_tokens r = max 1 (total_chars r.messages / 4)

unfoldable pub last_user_text : ChatCompletionRequest → String
unfolding text_content
last_user_text r = elim (find (λ (m : ChatMessage). str_eq m.role "user") (reverse r.messages)) [
  | none ↦ ""
  | some m ↦ text_content m
]

abbrev keywords_of : Option TierCfg → List String
keywords_of none = []
keywords_of (some cfg) = cfg.keywords

unfoldable pub has_keyword : Config → List ℕ → String → Bool
unfolding is_infix lookup
has_keyword c lowered tier_name =
    any (λ kw. is_infix (codes kw) lowered) (keywords_of (lookup tier_name c.tiers))

-- The most expensive tier with a keyword in the text.
unfoldable pub keyword_tier : Config → String → Option String
unfolding has_keyword
keyword_tier c text = find (has_keyword c (map to_lower (codes text))) (reverse tier_order)

-- `for tier_name in order: if value <= limit: return tier_name`, and "ultra" behind the loop
unfoldable pub first_fitting : Config → (TierCfg → Option ℕ) → ℕ → List String → Result String
unfolding get_tier
first_fitting c limit value [] = ok "ultra"
first_fitting c limit value (t ∷ ts) =
    let rest = first_fitting c limit value ts in
    (do cfg ← get_tier c t; if leb value (or_default (limit cfg) 0) then ok t else rest)

unfoldable pub min_tier_for_tokens : Config → ℕ → Result String
unfolding first_fitting
min_tier_for_tokens c n = first_fitting c (λ cfg. cfg.max_prompt_tokens) n tier_order

unfoldable pub min_tier_for_files : Config → ℕ → Result String
unfolding first_fitting
min_tier_for_files c n = first_fitting c (λ cfg. cfg.max_files) n tier_order

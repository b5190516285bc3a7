-- ===== src/Router/Hint.antt =====
-- bridge/router.py, `_TIER_HINT_RE` and `_prompt_tier_hint`, on ASCII texts. The expression is
-- unrolled: it matches at the start of the text, or behind a blank, a comma or a semicolon, and
-- tries its four alternatives in order.
use gpu_relay.Common.{
  ℕ, String, Bool, ◌||◌, Option, none, some, List, [], ◌∷◌, map, codes, to_lower, is_space,
  drop_prefix, ◌==◌, ◌≡◌, refl, if◌then◌else◌,
}

abbrev pub hint_tiers : List String
hint_tiers = "simple" ∷ "architecture" ∷ "maximum" ∷ "ultra" ∷ []

-- The first of these words that the text begins with, and what follows it.
unfoldable pub leading_word : List String → List ℕ → Option (String × List ℕ)
leading_word [] s = none
leading_word (w ∷ ws) s = elim (drop_prefix (codes w) s) [
  | none ↦ leading_word ws s
  | some r ↦ some (w, r)
]

abbrev pub first_of_two {ℓ} : {A : Type ℓ} → Option A → Option A → Option A
first_of_two none o = o
first_of_two (some a) o = some a

abbrev pub word_of : Option (String × List ℕ) → Option String
word_of none = none
word_of (some (w, r)) = some w

-- One or more characters of a class, then a tier's name. A name begins with none of them.
unfoldable pub skip_then_word : (ℕ → Bool) → List ℕ → Option String
skip_then_word p [] = none
skip_then_word p (c ∷ s) =
    let rest = skip_then_word p s in if p c then rest else word_of (leading_word hint_tiers (c ∷ s))

unfoldable pub some_then_word : (ℕ → Bool) → Option (List ℕ) → Option String
some_then_word p none = none
some_then_word p (some []) = none
some_then_word p (some (c ∷ s)) = if p c then skip_then_word p s else none

unfoldable pub bracketed : Option (String × List ℕ) → Option String
bracketed none = none
bracketed (some (w, [])) = none
bracketed (some (w, c ∷ r)) = if c == b']' then some w else none

unfoldable pub behind_sign : List ℕ → Option String
behind_sign [] = none
behind_sign (c ∷ s) =
    if c == b'@'
    then word_of (leading_word hint_tiers s)
    else if c == b'['
    then bracketed (leading_word hint_tiers s)
    else none

-- `@t`, `tier: t`, `use t` and `[t]`
unfoldable pub alternatives : List ℕ → Option String
alternatives s = first_of_two (behind_sign s) (
    first_of_two (some_then_word (λ c. c == b':' || is_space c) (drop_prefix (codes "tier") s))
      (some_then_word is_space (drop_prefix (codes "use") s)))

unfoldable pub is_separator : ℕ → Bool
is_separator c = is_space c || c == b',' || c == b';'

unfoldable pub scan : List ℕ → Option String
scan [] = none
scan (c ∷ s) =
    let rest = scan s in if is_separator c then first_of_two (alternatives s) rest else rest

unfoldable pub prompt_tier_hint : String → Option String
prompt_tier_hint text = let s = map to_lower (codes text) in first_of_two (alternatives s) (scan s)

hint_examples :
    (prompt_tier_hint "@Architecture please" ≡ some "architecture")
    × (prompt_tier_hint "fix it, tier:: maximum" ≡ some "maximum")
    × (prompt_tier_hint "please use  ultra tier" ≡ some "ultra")
    × (prompt_tier_hint "go [simple]!" ≡ some "simple")
    × (prompt_tier_hint "@mid mail@simple" ≡ none)
unfolding prompt_tier_hint scan alternatives is_separator behind_sign some_then_word skip_then_word
    bracketed leading_word drop_prefix
hint_examples = (refl, refl, refl, refl, refl)

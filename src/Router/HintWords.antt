-- ===== src/Router/HintWords.antt =====
-- Which tiers a prompt can name.
use gpu_relay.Common.{
  ℕ, String, str_eq, eq_iff, ◌≡◌, Bool, true, false, Option, none, some, List, [], ◌∷◌, contains,
  map, codes, to_lower, arith, Option-cases, Bool-cases, inl, inr, subst, ◌==◌,
}
use gpu_relay.Router.Hint.{
  hint_tiers, leading_word, word_of, first_of_two, skip_then_word, some_then_word, bracketed,
  behind_sign, alternatives, is_separator, scan, prompt_tier_hint,
}

-- An optional name is one of the four.
abbrev Names : Option String → Type 0
Names none = Unit
Names (some t) = contains t hint_tiers ≡ true

leading_word-contains :
    (ws : List String) (s : List ℕ) (w : String) (r : List ℕ)
    → leading_word ws s ≡ some (w, r)
    → contains w ws ≡ true
unfolding leading_word
leading_word-contains [] s w r e = cc
leading_word-contains (v ∷ ws) s w r e = ground (arith, eq_iff w v, leading_word-contains ws s w r)

leading-Names : (s : List ℕ) → Names (word_of (leading_word hint_tiers s))
leading-Names s = elim (Option-cases (leading_word hint_tiers s)) [
  | inl e ↦ rw e tt
  | inr ((w, r), e) ↦ rw e (leading_word-contains hint_tiers s w r e)
]

first-Names : (a b : Option String) → Names a → Names b → Names (first_of_two a b)
first-Names none b h k = k
first-Names (some t) b h k = h

skip-Names : (p : ℕ → Bool) (s : List ℕ) → Names (skip_then_word p s)
unfolding skip_then_word
skip-Names p [] = tt
skip-Names p (c ∷ s) = elim (Bool-cases (p c)) [
  | inl e ↦ rw e (skip-Names p s)
  | inr e ↦ rw e (leading-Names (c ∷ s))
]

some-Names : (p : ℕ → Bool) (o : Option (List ℕ)) → Names (some_then_word p o)
unfolding some_then_word
some-Names p none = tt
some-Names p (some []) = tt
some-Names p (some (c ∷ s)) = elim (Bool-cases (p c)) [
  | inl e ↦ rw e (skip-Names p s)
  | inr e ↦ rw e tt
]

bracketed-Names : (o : Option (String × List ℕ)) → Names (word_of o) → Names (bracketed o)
unfolding bracketed
bracketed-Names none h = tt
bracketed-Names (some (w, [])) h = tt
bracketed-Names (some (w, c ∷ r)) h = elim (Bool-cases (c == b']')) [
  | inl e ↦ rw e h
  | inr e ↦ rw e tt
]

behind-Names : (s : List ℕ) → Names (behind_sign s)
unfolding behind_sign
behind-Names [] = tt
behind-Names (c ∷ s) = elim (Bool-cases (c == b'@')) [
  | inl e ↦ rw e (leading-Names s)
  | inr e ↦ elim (Bool-cases (c == b'[')) [
    | inl f ↦ rw (e, f) (bracketed-Names (leading_word hint_tiers s) (leading-Names s))
    | inr f ↦ rw (e, f) tt
  ]
]

alternatives-Names : (s : List ℕ) → Names (alternatives s)
unfolding alternatives
alternatives-Names s =
    first-Names _ _ (behind-Names s) (first-Names _ _ (some-Names _ _) (some-Names _ _))

scan-Names : (s : List ℕ) → Names (scan s)
unfolding scan
scan-Names [] = tt
scan-Names (c ∷ s) = elim (Bool-cases (is_separator c)) [
  | inl e ↦ rw e (first-Names _ _ (alternatives-Names s) (scan-Names s))
  | inr e ↦ rw e (scan-Names s)
]

not_mid : (t : String) → contains t hint_tiers ≡ true → str_eq t "mid" ≡ false
not_mid t named = elim (Bool-cases (str_eq t "mid")) [
  | inl e ↦ cc (subst (λ u. contains u hint_tiers ≡ true) ((eq_iff t "mid").0 e) named)
  | inr e ↦ e
]

-- Whatever the text, a tier that it is found to name is "simple", "architecture", "maximum" or
-- "ultra": the tier "mid" cannot be asked for in a prompt.
pub prompt_tier_hint-contains :
    (text : String) (t : String)
    → prompt_tier_hint text ≡ some t
    → (contains t hint_tiers ≡ true) × (str_eq t "mid" ≡ false)
unfolding prompt_tier_hint
prompt_tier_hint-contains text t e =
    let s = map to_lower (codes text) in
    let found : Names (prompt_tier_hint text) =
      first-Names _ _ (alternatives-Names s) (scan-Names s) in
    let named : contains t hint_tiers ≡ true = rw e at found in (named, not_mid t named)

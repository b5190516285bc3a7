-- ===== src/Instance/Priority.antt =====
-- The order in which `acquire` tries the providers.
use gpu_relay.Common.{
  String, str_eq, eq_iff, ◌≡◌, inl, inr, refl, sym, Bool, true, false, not, ◌||◌, Option, none,
  some, List, [], ◌∷◌, ◌++◌, filter, contains, is_empty, Dict, lookup, arith, Bool-cases,
  Option-cases, ◌∙◌,
}
use gpu_relay.Router.Order.{contains-filter}
use gpu_relay.Instance.State.{Settings, Provider}
use gpu_relay.Instance.Acquire.{Wish, without, reorder, bubble, priority}

not-true : {b : Bool} → not b ≡ true → b ≡ false
not-true {b = true} h = sym h
not-true {b = false} h = refl

nonempty : (p : String) (xs : List String) → contains p xs ≡ true → is_empty xs ≡ false
nonempty p [] h = sym h
nonempty p (x ∷ xs) h = refl

contains-append :
    (p : String) (xs ys : List String) → contains p (xs ++ ys) ≡ (contains p xs || contains p ys)
contains-append p [] ys = refl
contains-append p (x ∷ xs) ys = ground (arith, contains-append p xs ys)

contains-filter-true :
    (f : String → Bool) (p : String) (xs : List String)
    → f p ≡ true
    → contains p (filter f xs) ≡ contains p xs
contains-filter-true f p [] h = refl
contains-filter-true f p (x ∷ xs) h = ground (arith, eq_iff p x, contains-filter-true f p xs h)

-- Bringing names to the front drops none.
contains-reorder :
    (order base : List String) (p : String)
    → contains p base ≡ true
    → contains p (reorder order base) ≡ true
contains-reorder [] base p h = h
contains-reorder (o ∷ order) base p h = elim (Bool-cases (contains p (o ∷ order))) [
  | inl listed ↦ ground (
    arith,
    contains-append p (filter (λ p'. contains p' base) (o ∷ order)) (without (o ∷ order) base),
    contains-filter-true (λ p'. contains p' base) p (o ∷ order) h,
  )
  | inr other ↦ ground (
    arith,
    contains-append p (filter (λ p'. contains p' base) (o ∷ order)) (without (o ∷ order) base),
    contains-filter-true (λ p'. not (contains p' (o ∷ order))) p base (rw (other) refl),
  )
]

front_keeps :
    (q p : String) (names : List String)
    → contains p names ≡ true
    → contains p (q ∷ filter (λ q'. not (str_eq q' q)) names) ≡ true
front_keeps q p names h = elim (Bool-cases (str_eq p q)) [
  | inl same ↦ rw (same) refl
  | inr other ↦
      rw (other) (contains-filter-true (λ q'. not (str_eq q' q)) p names (rw (other) refl) ∙ h)
]

contains-bubble :
    (wish : Option String) (providers : Dict Provider) (names : List String) (p : String)
    → contains p names ≡ true
    → contains p (bubble wish providers names) ≡ true
contains-bubble none providers names p h = h
contains-bubble (some q) providers names p h = elim (Option-cases (lookup q providers)) [
  | inl e ↦ rw (e, bubble) h
  | inr (o, e) ↦ rw (e, bubble) (front_keeps q p names h)
]

-- A provider that the user has disabled is never tried.
pub disabled_never_tried :
    (s : Settings) (overrides : List String) (q : Wish) (providers : Dict Provider) (p : String)
    → contains p (priority s overrides q providers) ≡ true
    → contains p q.disabled_providers ≡ false
unfolding priority
disabled_never_tried s overrides q providers p h =
    not-true (contains-filter (λ p'. not (contains p' q.disabled_providers)) p _ h).0

-- Every provider of the tier's own list that the user has not disabled is tried, whatever the
-- user's order and the request's wish.
pub enabled_tried :
    (s : Settings) (overrides : List String) (q : Wish) (providers : Dict Provider) (p : String)
    → s.mock_providers ≡ false
    → contains p overrides ≡ true
    → contains p q.disabled_providers ≡ false
    → contains p (priority s overrides q providers) ≡ true
unfolding priority
enabled_tried s overrides q providers p real h allowed =
    contains-filter-true (λ p'. not (contains p' q.disabled_providers)) p _ (rw (allowed) refl)
    ∙ contains-bubble q.provider_override providers _ p
        (contains-reorder q.provider_order _ p (rw (real, nonempty p overrides h) h))

-- A wished provider that is configured and that the user has not disabled is tried first.
pub wished_first :
    (s : Settings) (overrides : List String) (q : Wish) (providers : Dict Provider) (p : String)
    (o : Provider)
    → q.provider_override ≡ some p
    → lookup p providers ≡ some o
    → contains p q.disabled_providers ≡ false
    → (rest : List String) × (priority s overrides q providers ≡ p ∷ rest)
unfolding priority
wished_first s overrides q providers p o wish configured allowed =
    rw (wish, configured, allowed, bubble) (_, refl)

-- Of the tier's own list of providers exactly those are tried that the user has not disabled,
-- whatever the user's order and the request's wish.
pub priority_lem :
    (s : Settings) (overrides : List String) (q : Wish) (providers : Dict Provider) (p : String)
    → s.mock_providers ≡ false
    → contains p overrides ≡ true
    → contains p (priority s overrides q providers) ≡ not (contains p q.disabled_providers)
priority_lem s overrides q providers p real h =
    elim (Bool-cases (contains p q.disabled_providers)) [
      | inl off ↦ elim (Bool-cases (contains p (priority s overrides q providers))) [
        | inl tried ↦ cc (off, disabled_never_tried s overrides q providers p tried)
        | inr untried ↦ rw (off, untried) refl
      ]
      | inr on ↦ rw (on) (enabled_tried s overrides q providers p real h on)
    ]

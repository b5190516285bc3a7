-- ===== src/Router/Prices/Refreshed.antt =====
-- Where a refreshed price comes from.
use gpu_relay.Common.{
  ℕ, ◌≤◌, String, str_eq, eq_iff, ◌≡◌, refl, ap, subst, ◌∙◌, ◌⊎◌, inl, inr, Bool, true, false,
  Option, none, some, List, [], ◌∷◌, All, any, find, filter, Dict, lookup, ltb, arith,
  if◌then◌else◌, Bool-cases, Option-cases,
}
use gpu_relay.Gpu.{GpuOffer}
use gpu_relay.Router.Tiers.{TierCfg}
use gpu_relay.Router.Prices.{
  min_vram, prefs_of, suits, names, improves, by_prefs, by_providers, best_price, repriced,
  refresh_tier_prices,
}

-- A predicate that holds of some element.
abbrev pub Any {ℓ} : {A : Type ℓ} → (A → Type 0) → List A → Type 0
Any P [] = ⊥
Any P (x ∷ xs) = P x ⊎ Any P xs

-- A GPU that one of the preferences names, at that price.
abbrev pub Named : ℕ → List String → GpuOffer → Type 0
Named price prefs o = (any (λ pref. names pref o) prefs ≡ true) × (o.cost_per_hour_usd ≡ price)

-- An available offer of enough memory for the tier, of a GPU that it prefers, at that price.
abbrev pub IsMatch : String → ℕ → GpuOffer → Type 0
IsMatch tier price o = (suits (min_vram tier) o ≡ true) × Named price (prefs_of tier) o

-- The first offer for the first preference that has one.
abbrev pub first_match : List GpuOffer → List String → Option GpuOffer
first_match candidates [] = none
first_match candidates (pref ∷ prefs) = elim (find (names pref) candidates) [
  | none ↦ first_match candidates prefs
  | some match ↦ some match
]

found-Any :
    (pref : String) (prefs : List String) (os : List GpuOffer) (o : GpuOffer)
    → find (names pref) os ≡ some o
    → Any (Named o.cost_per_hour_usd (pref ∷ prefs)) os
found-Any pref prefs [] o e = cc
found-Any pref prefs (x ∷ os) o e = elim (Bool-cases (names pref x)) [
  | inl y ↦
      let same : x ≡ o = cc (rw y at e) in
      inl (rw y refl, ap (λ (m : GpuOffer). m.cost_per_hour_usd) same)
  | inr n ↦ inr (found-Any pref prefs os o (rw n at e))
]

more_prefs :
    (price : ℕ) (pref : String) (prefs : List String) (os : List GpuOffer)
    → Any (Named price prefs) os
    → Any (Named price (pref ∷ prefs)) os
more_prefs price pref prefs [] h = h
more_prefs price pref prefs (o ∷ os) (inl (named, cost)) = inl (ground (arith, named), cost)
more_prefs price pref prefs (o ∷ os) (inr h) = inr (more_prefs price pref prefs os h)

later_source :
    (os : List GpuOffer) (pref : String) (prefs : List String) (best : Option ℕ) (price : ℕ)
    → (best ≡ some price) ⊎ Any (Named price prefs) os
    → (best ≡ some price) ⊎ Any (Named price (pref ∷ prefs)) os
later_source os pref prefs best price (inl e) = inl e
later_source os pref prefs best price (inr h) = inr (more_prefs price pref prefs os h)

by_prefs-source :
    (os : List GpuOffer) (prefs : List String) (best : Option ℕ) (price : ℕ)
    → by_prefs os prefs best ≡ some price
    → (best ≡ some price) ⊎ Any (Named price prefs) os
unfolding by_prefs
by_prefs-source os [] best price e = inl e
by_prefs-source os (pref ∷ prefs) best price e = elim (Option-cases (find (names pref) os)) [
  | inl missing ↦
      later_source os pref prefs best price
        (by_prefs-source os prefs best price (rw (missing, by_prefs) at e))
  | inr (o, found) ↦ elim (Bool-cases (improves best o.cost_per_hour_usd)) [
    | inl better ↦
        let same : o.cost_per_hour_usd ≡ price = cc (rw (found, better, by_prefs) at e) in
        inr (subst (λ c. Any (Named c (pref ∷ prefs)) os) same (found-Any pref prefs os o found))
    | inr worse ↦
        later_source os pref prefs best price
          (by_prefs-source os prefs best price (rw (found, worse, by_prefs) at e))
  ]
]

by_prefs-le :
    (os : List GpuOffer) (prefs : List String) (best : ℕ)
    → (price : ℕ) × (by_prefs os prefs (some best) ≡ some price) × (price ≤ best)
unfolding by_prefs
by_prefs-le os [] best = (best, refl, omega arith)
by_prefs-le os (pref ∷ prefs) best = elim (Option-cases (find (names pref) os)) [
  | inl missing ↦ rw (missing, by_prefs) (by_prefs-le os prefs best)
  | inr (o, found) ↦ elim (Bool-cases (ltb o.cost_per_hour_usd best)) [
    | inl better ↦ (o.cost_per_hour_usd, rw (found, better, by_prefs) refl, ground (arith, better))
    | inr worse ↦ rw (found, worse, by_prefs) (by_prefs-le os prefs best)
  ]
]

by_prefs-skip :
    (os : List GpuOffer) (pref : String) (prefs : List String) (best : Option ℕ)
    → find (names pref) os ≡ none
    → by_prefs os (pref ∷ prefs) best ≡ by_prefs os prefs best
unfolding by_prefs
by_prefs-skip os pref prefs best missing = rw (missing, by_prefs) refl

not_worse :
    (os : List GpuOffer) (prefs : List String) (best : Option ℕ) (o : GpuOffer)
    → improves best o.cost_per_hour_usd ≡ false
    → (price : ℕ) × (by_prefs os prefs best ≡ some price) × (price ≤ o.cost_per_hour_usd)
not_worse os prefs none o worse = cc
not_worse os prefs (some best) o worse =
    let (price, e, le) = by_prefs-le os prefs best in
    let ge : best ≤ o.cost_per_hour_usd = ground (arith, worse) in (price, e, omega (arith, le, ge))

-- The price after a provider is at most that of its first match.
by_prefs-first :
    (os : List GpuOffer) (prefs : List String) (best : Option ℕ) (o : GpuOffer)
    → first_match os prefs ≡ some o
    → (price : ℕ) × (by_prefs os prefs best ≡ some price) × (price ≤ o.cost_per_hour_usd)
unfolding by_prefs
by_prefs-first os [] best o e = cc
by_prefs-first os (pref ∷ prefs) best o e = elim (Option-cases (find (names pref) os)) [
  | inl missing ↦
      let (price, e', le) = by_prefs-first os prefs best o (rw (missing, first_match) at e) in
      (price, by_prefs-skip os pref prefs best missing ∙ e', le)
  | inr (m, found) ↦
      let same : m ≡ o = cc (rw (found, first_match) at e) in
      subst
        (λ (x : GpuOffer).
          (price : ℕ) × (by_prefs os (pref ∷ prefs) best ≡ some price)
          × (price ≤ x.cost_per_hour_usd))
        same
        (elim (Bool-cases (improves best m.cost_per_hour_usd)) [
          | inl better ↦ (m.cost_per_hour_usd, rw (found, better, by_prefs) refl, omega arith)
          | inr worse ↦
              let (price, e', le) = not_worse os prefs best m worse in
              (price, rw (found, worse, by_prefs) refl ∙ e', le)
        ])
]

kept-Any :
    (p : GpuOffer → Bool) (P : GpuOffer → Type 0) (os : List GpuOffer)
    → Any P (filter p os)
    → Any (λ o. (p o ≡ true) × P o) os
kept-Any p P [] h = h
kept-Any p P (o ∷ os) h = elim (Bool-cases (p o)) [
  | inl y ↦ elim (subst (λ b. Any P (if b then o ∷ filter p os else filter p os)) y h) [
    | inl here ↦ inl (y, here)
    | inr later ↦ inr (kept-Any p P os later)
  ]
  | inr n ↦
      inr (kept-Any p P os (subst (λ b. Any P (if b then o ∷ filter p os else filter p os)) n h))
]

by_providers-source :
    (tier : String) (providers : List (List GpuOffer)) (best : Option ℕ) (price : ℕ)
    → by_providers tier providers best ≡ some price
    → (best ≡ some price) ⊎ Any (Any (IsMatch tier price)) providers
unfolding by_providers
by_providers-source tier [] best price e = inl e
by_providers-source tier (os ∷ providers) best price e =
    elim (by_providers-source tier providers _ price e) [
      | inr later ↦ inr (inr later)
      | inl here ↦ elim (by_prefs-source _ _ best price here) [
        | inl before ↦ inl before
        | inr match ↦
            inr (inl (kept-Any (suits (min_vram tier)) (Named price (prefs_of tier)) os match))
      ]
    ]

by_providers-le :
    (tier : String) (providers : List (List GpuOffer)) (best : ℕ)
    → (price : ℕ) × (by_providers tier providers (some best) ≡ some price) × (price ≤ best)
unfolding by_providers
by_providers-le tier [] best = (best, refl, omega arith)
by_providers-le tier (os ∷ providers) best =
    let (next, e, le) = by_prefs-le (filter (suits (min_vram tier)) os) (prefs_of tier) best in
    let (price, e', le') = by_providers-le tier providers next in
    (price, rw e e', omega (arith, le, le'))

-- A provider's first match costs at least the price that is found.
abbrev pub AtMostFirst : String → Option ℕ → List GpuOffer → Type 0
AtMostFirst tier found os =
    (o : GpuOffer)
    → first_match (filter (suits (min_vram tier)) os) (prefs_of tier) ≡ some o
    → (price : ℕ) × (found ≡ some price) × (price ≤ o.cost_per_hour_usd)

by_providers-first :
    (tier : String) (providers : List (List GpuOffer)) (best : Option ℕ)
    → All (AtMostFirst tier (by_providers tier providers best)) providers
unfolding by_providers
by_providers-first tier [] best = tt
by_providers-first tier (os ∷ providers) best = (
  λ o e.
      let (next, e', le) =
        by_prefs-first (filter (suits (min_vram tier)) os) (prefs_of tier) best o e in
      let (price, e2, le') = by_providers-le tier providers next in
      (price, rw e' e2, omega (arith, le, le')),
  by_providers-first tier providers _,
)

-- A tier's settings with the best of the providers' prices, if there is one.
abbrev pub refreshed_cfg : List (List GpuOffer) → String → Option TierCfg → Option TierCfg
refreshed_cfg providers tier none = none
refreshed_cfg providers tier (some cfg) = some (repriced (best_price tier providers) cfg)

lookup-refresh :
    (providers : List (List GpuOffer)) (tiers : Dict TierCfg) (tier : String)
    → lookup tier (refresh_tier_prices providers tiers)
      ≡ refreshed_cfg providers tier (lookup tier tiers)
unfolding lookup refresh_tier_prices
lookup-refresh providers [] tier = refl
lookup-refresh providers ((name, cfg) ∷ tiers) tier = elim (Bool-cases (str_eq name tier)) [
  | inl y ↦
      let same : name ≡ tier = (eq_iff name tier).0 y in
      rw y (ap (λ n. some (repriced (best_price n providers) cfg)) same)
  | inr n ↦ rw n (lookup-refresh providers tiers tier)
]

impossible_none : {P : Type 0} (price : ℕ) → none ≡ some price → P
impossible_none price e = cc

-- After a refresh every tier of the table, and no other, has its settings as before but for the
-- price, which changes only if a price is found. A price that is found is that of an available offer
-- with enough memory for the tier, of a GPU that it prefers, and no provider's first match is
-- cheaper.
pub refresh_tier_prices_lem :
    (providers : List (List GpuOffer)) (tiers : Dict TierCfg) (tier : String)
    → (lookup tier (refresh_tier_prices providers tiers)
        ≡ refreshed_cfg providers tier (lookup tier tiers))
      × ((price : ℕ)
          → best_price tier providers ≡ some price
          → Any (Any (IsMatch tier price)) providers)
      × All (AtMostFirst tier (best_price tier providers)) providers
refresh_tier_prices_lem providers tiers tier = (
  lookup-refresh providers tiers tier,
  λ price e. elim (by_providers-source tier providers none price e) [
    | inl before ↦ impossible_none price before
    | inr match ↦ match
  ],
  by_providers-first tier providers none,
)

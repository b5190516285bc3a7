-- ===== src/Router/Budget.antt =====
-- The budget gate of the router: which candidate is taken, and when none is.
use gpu_relay.Common.{
  ℕ, String, eq_iff, ◌≡◌, refl, ◌↔◌, ◌&&◌, if◌then◌else◌, ◌≢◌, ◌⊎◌, inl, inr, true, false, not,
  List, [], ◌∷◌, ◌++◌, contains, filter, is_empty, ok, err, http, arith, Bool-cases, Result-cases,
  Error, key_error, >>=-eq-ok, ok-injective, subst, ap, sym, ℚ, All,
}
use gpu_relay.Schemas.{RoutingDecision, Reason}
use gpu_relay.Router.Order.{NotAfter}
use gpu_relay.Router.Tiers.{
  Config, tier_order, projected_cost, get_tier, downgrades, index, down_from,
}
use gpu_relay.Router.Select.{pick_affordable, within_budget, affordable, chosen_tier}

-- The only failure of a projection is a tier that the table lacks.
projected_cost_error :
    (c : Config) (t : String) (tokens : ℕ) (e : Error)
    → projected_cost c t tokens ≡ err e
    → e ≡ key_error
unfolding projected_cost get_tier
projected_cost_error c t tokens e h = ground arith

module _ (c : Config) (tokens spent budget : ℕ) (cand : String) (r : Reason) where
  -- The tier has a price, and the rest of the budget does not cover it.
  abbrev pub TooDear : String → Type 0
  TooDear t =
      (cost : ℚ) × (projected_cost c t tokens ≡ ok cost) × (affordable cost spent budget ≡ false)

  -- The decision takes the first candidate that the budget covers.
  abbrev pub FirstAffordable : List String → RoutingDecision → Type 0
  FirstAffordable ts d =
      (before : List String) × (after : List String) × (ts ≡ before ++ d.tier ∷ after)
      × All TooDear before
      × (projected_cost c d.tier tokens ≡ ok d.projected_cost_usd)
      × (affordable d.projected_cost_usd spent budget ≡ true)

  first_affordable :
      (ts : List String) (d : RoutingDecision)
      → pick_affordable c tokens spent budget cand r ts ≡ ok d
      → FirstAffordable ts d
  unfolding pick_affordable
  first_affordable [] d e = cc
  first_affordable (t ∷ ts) d e =
      let (cost, p, e') = >>=-eq-ok (projected_cost c t tokens) _ e in
      elim (Bool-cases (affordable cost spent budget)) [
        | inl fits ↦
            subst (FirstAffordable (t ∷ ts)) (ok-injective (rw fits at e'))
              ([], ts, refl, tt, p, fits)
        | inr dear ↦
            let (before, after, q, all, price, fits) = first_affordable ts d (rw dear at e') in
            (t ∷ before, after, ap (◌∷◌ t) q, ((cost, p, dear), all), price, fits)
      ]

  rejects-TooDear :
      (ts : List String)
      → pick_affordable c tokens spent budget cand r ts ≡ err (http 402)
      → All TooDear ts
  unfolding pick_affordable
  rejects-TooDear [] e = tt
  rejects-TooDear (t ∷ ts) e = elim (Result-cases (projected_cost c t tokens)) [
    | inl (x, p) ↦ cc (rw p at e, projected_cost_error c t tokens x p)
    | inr (cost, p) ↦ elim (Bool-cases (affordable cost spent budget)) [
      | inl fits ↦ cc (rw (p, fits) at e)
      | inr dear ↦ ((cost, p, dear), rejects-TooDear ts (rw (p, dear) at e))
    ]
  ]

  TooDear-rejects :
      (ts : List String)
      → All TooDear ts
      → pick_affordable c tokens spent budget cand r ts ≡ err (http 402)
  unfolding pick_affordable
  TooDear-rejects [] h = refl
  TooDear-rejects (t ∷ ts) ((cost, p, dear), rest) = rw (p, dear) (TooDear-rejects ts rest)

-- The loop over the candidates answers 402 exactly when every candidate has a price and none is
-- affordable.
pub pick_affordable_402 :
    (c : Config) (tokens spent budget : ℕ) (cand : String) (r : Reason) (ts : List String)
    → (pick_affordable c tokens spent budget cand r ts ≡ err (http 402))
      ↔ All (TooDear c tokens spent budget cand r) ts
pick_affordable_402 c tokens spent budget cand r ts = (
  rejects-TooDear c tokens spent budget cand r ts,
  TooDear-rejects c tokens spent budget cand r ts,
)

-- A decision of the loop over the candidates is the first affordable one, at its projected cost:
-- those before it have a price that is too dear.
pub pick-FirstAffordable :
    (c : Config) (tokens spent budget : ℕ) (cand : String) (r : Reason) (ts : List String)
    (d : RoutingDecision)
    → pick_affordable c tokens spent budget cand r ts ≡ ok d
    → FirstAffordable c tokens spent budget cand r ts d
pick-FirstAffordable c tokens spent budget cand r ts d e =
    first_affordable c tokens spent budget cand r ts d e

-- The budget covers what the budget stage decides on.
pub within_budget-affordable :
    (c : Config) (allowed : List String) (tokens spent budget : ℕ) (cand : String) (r : Reason)
    (d : RoutingDecision)
    → within_budget c allowed tokens spent budget cand r ≡ ok d
    → affordable d.projected_cost_usd spent budget ≡ true
unfolding within_budget
within_budget-affordable c allowed tokens spent budget cand r d e =
    let (all, p, e') = >>=-eq-ok (downgrades cand) _ e in
    let kept = if is_empty allowed then all else filter (λ t. contains t allowed) all in
    elim (Bool-cases (not (is_empty allowed) && is_empty kept)) [
      | inl gone ↦ cc (rw gone at e')
      | inr left ↦
          let (before, after, split, dear, price, fits) =
            pick-FirstAffordable c tokens spent budget cand r kept d (rw left at e') in
          fits
    ]

known_tier :
    (t : String)
    → contains t tier_order ≡ true
    → (t ≡ "simple") ⊎ (t ≡ "mid") ⊎ (t ≡ "architecture") ⊎ (t ≡ "maximum") ⊎ (t ≡ "ultra")
known_tier t h = ground (
  arith,
  eq_iff t "simple",
  eq_iff t "mid",
  eq_iff t "architecture",
  eq_iff t "maximum",
  eq_iff t "ultra",
)

-- The candidates that the gate goes through.
abbrev GoesDown : String → Type 0
GoesDown cand =
    (ts : List String) × (downgrades cand ≡ ok (cand ∷ ts))
    × All (λ t. NotAfter tier_order t cand) ts

-- For every known candidate but "simple" the gate tries the candidate and then tiers that stand no
-- later in the order.
pub downgrades-NotAfter :
    (cand : String)
    → contains cand tier_order ≡ true
    → cand ≢ "simple"
    → (ts : List String) × (downgrades cand ≡ ok (cand ∷ ts))
      × All (λ t. NotAfter tier_order t cand) ts
unfolding downgrades index down_from
downgrades-NotAfter cand known ne = elim (known_tier cand known) [
  | inl e ↦ absurd (ne e)
  | inr (inl e) ↦ subst GoesDown (sym e) ("simple" ∷ [], refl, (refl, tt))
  | inr (inr (inl e)) ↦ subst GoesDown (sym e) ("mid" ∷ "simple" ∷ [], refl, (refl, (refl, tt)))
  | inr (inr (inr (inl e))) ↦
      subst GoesDown (sym e)
        ("architecture" ∷ "mid" ∷ "simple" ∷ [], refl, (refl, (refl, (refl, tt))))
  | inr (inr (inr (inr e))) ↦
      subst GoesDown (sym e) (
        "maximum" ∷ "architecture" ∷ "mid" ∷ "simple" ∷ [],
        refl,
        (refl, (refl, (refl, (refl, tt)))),
      )
]

-- A request that asks for nothing above "simple", of a user whose whitelist lacks "simple" and has
-- "ultra", is answered by the most expensive tier if the budget covers it, and the decision calls
-- that a downgrade from "simple".
pub simple_goes_up :
    (c : Config) (allowed : List String) (tokens spent budget : ℕ) (r : Reason) (cost : ℚ)
    → contains "simple" allowed ≡ false
    → contains "ultra" allowed ≡ true
    → projected_cost c "ultra" tokens ≡ ok cost
    → affordable cost spent budget ≡ true
    → within_budget c allowed tokens spent budget "simple" r
      ≡ ok (chosen_tier "ultra" "simple" r cost)
unfolding within_budget pick_affordable downgrades index down_from
simple_goes_up c [] tokens spent budget r cost no_simple has_ultra p fits = cc
simple_goes_up c (a ∷ rest) tokens spent budget r cost no_simple has_ultra p fits =
    rw (no_simple, has_ultra) (rw (p, fits) refl)

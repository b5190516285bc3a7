-- ===== src/Gpu/Ranked.antt =====
-- The chosen GPU offer is the best one that the tier admits.
use gpu_relay.Common.{
  ◌<◌, ◌≤◌, ℕ, String, ◌≡◌, refl, ◌⊎◌, Bool, true, false, List, [], ◌∷◌, filter, filter-All, All,
  arith, ok, err, provider_error, Bool-cases, inl, inr, ok-injective, subst, ◌>>=◌,
}
use gpu_relay.Gpu.{
  GpuOffer, is_candidate, rank, no_worse, place, sorted, rank_gpu_offers, select_gpu_offer, first,
  ranking,
}

no_worse_trans : (a b c : ℕ × ℕ) → no_worse a b ≡ true → no_worse b c ≡ true → no_worse a c ≡ true
no_worse_trans (i, a) (j, b) (k, c) h g = ground arith

no_worse_refl : (a : ℕ × ℕ) → no_worse a a ≡ true
no_worse_refl (i, a) = ground arith

no_worse_total : (a b : ℕ × ℕ) → no_worse a b ≡ false → no_worse b a ≡ true
no_worse_total (i, a) (j, b) h = ground arith

module _ (tier : String) where
  -- One offer ranks no worse than all of a list.
  abbrev pub Best : GpuOffer → List GpuOffer → Type 0
  Best o os = All (λ p. no_worse (rank tier o) (rank tier p) ≡ true) os

  Best-trans :
      (o p : GpuOffer) (os : List GpuOffer)
      → no_worse (rank tier o) (rank tier p) ≡ true
      → Best p os
      → Best o os
  Best-trans o p [] h b = tt
  Best-trans o p (q ∷ os) h b =
      (no_worse_trans (rank tier o) (rank tier p) (rank tier q) h b.0, Best-trans o p os h b.1)

  -- The head of a list ranks no worse than the others.
  abbrev HeadBest : List GpuOffer → List GpuOffer → Type 0
  HeadBest [] os = os ≡ []
  HeadBest (o ∷ ranked) os = Best o os

  place-HeadBest :
      (o : GpuOffer) (ranked os : List GpuOffer)
      → HeadBest ranked os
      → HeadBest (place tier o ranked) (o ∷ os)
  unfolding place
  place-HeadBest o [] os h = rw h (no_worse_refl (rank tier o), tt)
  place-HeadBest o (p ∷ ranked) os h = elim (Bool-cases (no_worse (rank tier o) (rank tier p))) [
    | inl e ↦ rw e (no_worse_refl (rank tier o), Best-trans o p os e h)
    | inr e ↦ rw e (no_worse_total (rank tier o) (rank tier p) e, h)
  ]

  sorted-HeadBest : (os : List GpuOffer) → HeadBest (sorted tier os) os
  unfolding sorted
  sorted-HeadBest [] = refl
  sorted-HeadBest (o ∷ os) = place-HeadBest o (sorted tier os) os (sorted-HeadBest os)

  place-All :
      (f : GpuOffer → Bool) (o : GpuOffer) (os : List GpuOffer)
      → f o ≡ true
      → All (λ p. f p ≡ true) os
      → All (λ p. f p ≡ true) (place tier o os)
  unfolding place
  place-All f o [] h all = (h, tt)
  place-All f o (p ∷ os) h all = elim (Bool-cases (no_worse (rank tier o) (rank tier p))) [
    | inl e ↦ rw e (h, all)
    | inr e ↦ rw e (all.0, place-All f o os h all.1)
  ]

  sorted-All :
      (f : GpuOffer → Bool) (os : List GpuOffer)
      → All (λ p. f p ≡ true) os
      → All (λ p. f p ≡ true) (sorted tier os)
  unfolding sorted
  sorted-All f [] all = tt
  sorted-All f (o ∷ os) all = place-All f o (sorted tier os) all.0 (sorted-All f os all.1)

  chosen :
      (ranked os : List GpuOffer) (best : GpuOffer)
      → HeadBest ranked os
      → All (λ p. is_candidate tier p ≡ true) ranked
      → first ranked ≡ ok best
      → (is_candidate tier best ≡ true) × Best best os
  chosen [] os best h all e = cc
  chosen (o ∷ ranked) os best h all e =
      subst (λ b. (is_candidate tier b ≡ true) × Best b os) (ok-injective e) (all.0, h)

  -- the chosen offer, by the candidates
  select-candidates :
      (os : List GpuOffer) (best : GpuOffer)
      → All (λ p. is_candidate tier p ≡ true) os
      → (ranking tier os >>= first) ≡ ok best
      → (is_candidate tier best ≡ true) × Best best os
  select-candidates [] best all e = cc
  select-candidates (o ∷ os) best all e =
      chosen (sorted tier (o ∷ os)) (o ∷ os) best (sorted-HeadBest (o ∷ os))
        (sorted-All (is_candidate tier) (o ∷ os) all) e

-- Of a more preferred GPU than another offer, or of one as preferred and no dearer.
abbrev pub Preferred : String → GpuOffer → GpuOffer → Type 0
Preferred tier o p =
    ((rank tier o).0 < (rank tier p).0)
    ⊎ (((rank tier o).0 ≡ (rank tier p).0) × (o.cost_per_hour_usd ≤ p.cost_per_hour_usd))

no_worse-Preferred :
    (tier : String) (o p : GpuOffer)
    → no_worse (rank tier o) (rank tier p) ≡ true
    → Preferred tier o p
unfolding rank
no_worse-Preferred tier o p h = ground arith

Best-Preferred :
    (tier : String) (o : GpuOffer) (os : List GpuOffer) → Best tier o os → All (Preferred tier o) os
Best-Preferred tier o [] b = tt
Best-Preferred tier o (p ∷ os) b = (no_worse-Preferred tier o p b.0, Best-Preferred tier o os b.1)

-- The chosen offer is available and within the tier's bounds of memory, and no other such offer is
-- better: each is of a less preferred GPU, or of one as preferred and no cheaper.
pub select_gpu_offer-Preferred :
    (tier : String) (offers : List GpuOffer) (best : GpuOffer)
    → select_gpu_offer tier offers ≡ ok best
    → (is_candidate tier best ≡ true)
      × All (Preferred tier best) (filter (is_candidate tier) offers)
unfolding select_gpu_offer rank_gpu_offers
select_gpu_offer-Preferred tier offers best e =
    let (fits, b) =
      select-candidates tier (filter (is_candidate tier) offers) best
        (filter-All (is_candidate tier) offers) e in
    (fits, Best-Preferred tier best (filter (is_candidate tier) offers) b)

sorted-first :
    (tier : String) (o : GpuOffer) (os : List GpuOffer)
    → (best : GpuOffer) × (first (place tier o os) ≡ ok best)
unfolding place
sorted-first tier o [] = (o, refl)
sorted-first tier o (p ∷ os) = elim (Bool-cases (no_worse (rank tier o) (rank tier p))) [
  | inl e ↦ rw e (o, refl)
  | inr e ↦ rw e (p, refl)
]

some-or-none :
    (tier : String) (os : List GpuOffer)
    → ((os ≡ []) × ((ranking tier os >>= first) ≡ err provider_error))
      ⊎ ((best : GpuOffer) × ((ranking tier os >>= first) ≡ ok best))
unfolding sorted
some-or-none tier [] = inl (refl, refl)
some-or-none tier (o ∷ os) = inr (sorted-first tier o (sorted tier os))

-- An offer is chosen for a tier unless none is available within its bounds of memory; then the
-- provider's error is raised. The list that is indexed is never empty.
pub select_gpu_offer_lem :
    (tier : String) (offers : List GpuOffer)
    → ((filter (is_candidate tier) offers ≡ [])
        × (select_gpu_offer tier offers ≡ err provider_error))
      ⊎ ((best : GpuOffer) × (select_gpu_offer tier offers ≡ ok best))
unfolding select_gpu_offer rank_gpu_offers
select_gpu_offer_lem tier offers = some-or-none tier (filter (is_candidate tier) offers)

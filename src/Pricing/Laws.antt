-- ===== src/Pricing/Laws.antt =====
-- Prices: when there is one, how it is rounded, and that discounts only lower it.
use native.Mathlib.Nat.{mul-le-mul_right, mul-le-mul_left, mul-pos, le_of_mul-le-mul_right}
use gpu_relay.Common.{
  ℕ, ◌+◌, ◌*◌, ◌≤◌, ◌<◌, String, str_eq, ◌≡◌, refl, ◌⊎◌, inl, inr, Bool, true, false, ◌&&◌, Option,
  none, some, [], ◌∷◌, Dict, lookup, ℚ, of_ℕ, ◌*ℚ◌, ◌≤ℚ◌, leb_ℚ, leb→le, le→leb, Result-cases, All,
  Error, ok, err, value_error, >>=-eq-ok, ok-injective, arith, Bool-cases, Option-cases, subst,
}
use gpu_relay.Pricing.Rounding.{half_up, half_up_bounds, half_up_mono}
use gpu_relay.Pricing.{
  TierPrice, pricing_config, discounted, volume_discounted, has, base_price, prepaid_price,
  exact_price, find_price, calculate_price,
}

-- A discount of the table is a proper fraction.
abbrev IsDiscount : Option ℚ → Type 0
IsDiscount none = Unit
IsDiscount (some f) = (f.num ≤ f.den) × (0 < f.den)

-- The 200-hour discount is at least as large as the 100-hour one, where there are both.
abbrev Ordered : Option ℚ → Option ℚ → Type 0
Ordered (some f) (some g) = g.num * f.den ≤ f.num * g.den
Ordered none none = Unit
Ordered _ _ = ⊥

record IsFair (cfg : TierPrice) : Type 0 where
  base : 0 < cfg.cost_per_hour_usd.den
  markup : 0 < cfg.markup.den
  prepaid : IsDiscount cfg.prepaid_discount
  at_100 : IsDiscount cfg.volume_discount_100hrs
  at_200 : IsDiscount cfg.volume_discount_200hrs
  deeper : Ordered cfg.volume_discount_100hrs cfg.volume_discount_200hrs

some_inj {ℓ} : {A : Type ℓ} {a b : A} → some a ≡ some b → a ≡ b
some_inj e = cc

lookup-All {ℓ κ} :
    {V : Type ℓ} (P : V → Type κ) (k : String) (m : Dict V) (v : V)
    → All (λ (e : String × V). P e.1) m
    → lookup k m ≡ some v
    → P v
unfolding lookup
lookup-All P k [] v h e = cc
lookup-All P k ((j, w) ∷ m) v h e = elim (Bool-cases (str_eq j k)) [
  | inl q ↦ subst P (some_inj (rw q at e)) h.0
  | inr q ↦ lookup-All P k m v h.1 (rw q at e)
]

table-IsFair :
    All
      (λ (e : String × Dict TierPrice). All (λ (t : String × TierPrice). IsFair t.1) e.1)
      pricing_config
table-IsFair = omega arith

find_price-error : (u t : String) (e : Error) → find_price u t ≡ err e → e ≡ value_error
unfolding find_price
find_price-error u t e p = ground arith

find_price-IsFair : (u t : String) (cfg : TierPrice) → find_price u t ≡ ok cfg → IsFair cfg
unfolding find_price
find_price-IsFair u t cfg e = elim (Option-cases (lookup u pricing_config)) [
  | inl p ↦ cc (rw (p, find_price) at e)
  | inr (tiers, p) ↦ elim (Option-cases (lookup t tiers)) [
    | inl q ↦ cc (rw (p, q, find_price) at e)
    | inr (found, q) ↦ subst IsFair (ok-injective (rw (p, q, find_price) at e)) (
        lookup-All IsFair t tiers found
          (lookup-All (All (λ (e : String × TierPrice). IsFair e.1)) u pricing_config tiers
            table-IsFair p)
          q)
  ]
]

abbrev Pos : ℚ → Type 0
Pos a = 0 < a.den

*ℚ-Pos : (a b : ℚ) → Pos a → Pos b → Pos (a *ℚ b)
*ℚ-Pos a b h k = mul-pos h k

discounted-Pos : (f : Option ℚ) (p : ℚ) → IsDiscount f → Pos p → Pos (discounted f p)
discounted-Pos none p d h = h
discounted-Pos (some f) p d h = *ℚ-Pos p f h d.1

discounted-le : (f : Option ℚ) (p : ℚ) → IsDiscount f → discounted f p ≤ℚ p
discounted-le none p d = omega arith
discounted-le (some f) p d = omega (arith, mul-le-mul_left (p.num * p.den) d.0)

discounted-mono : (f : Option ℚ) (p q : ℚ) → p ≤ℚ q → discounted f p ≤ℚ discounted f q
discounted-mono none p q h = h
discounted-mono (some f) p q h = omega (arith, mul-le-mul_right (f.num * f.den) h)

-- The deeper discount gives the lower price.
discounted-Ordered : (f g : Option ℚ) (p : ℚ) → Ordered f g → discounted g p ≤ℚ discounted f p
discounted-Ordered none none p o = omega arith
discounted-Ordered (some f) (some g) p o = omega (arith, mul-le-mul_left (p.num * p.den) o)
discounted-Ordered none (some g) p o = absurd o
discounted-Ordered (some f) none p o = absurd o

volume-Pos :
    (cfg : TierPrice) (hours p : ℚ) → IsFair cfg → Pos p → Pos (volume_discounted cfg hours p)
volume-Pos cfg hours p fair h = ground (
  arith,
  discounted-Pos cfg.volume_discount_100hrs p fair.at_100 h,
  discounted-Pos cfg.volume_discount_200hrs p fair.at_200 h,
)

volume-mono :
    (cfg : TierPrice) (hours p q : ℚ)
    → p ≤ℚ q
    → volume_discounted cfg hours p ≤ℚ volume_discounted cfg hours q
volume-mono cfg hours p q h =
    elim (Bool-cases (leb_ℚ (of_ℕ 200) hours && has cfg.volume_discount_200hrs)) [
      | inl e ↦ rw e (discounted-mono cfg.volume_discount_200hrs p q h)
      | inr e ↦ elim (Bool-cases (leb_ℚ (of_ℕ 100) hours && has cfg.volume_discount_100hrs)) [
        | inl e' ↦ rw (e, e') (discounted-mono cfg.volume_discount_100hrs p q h)
        | inr e' ↦ rw (e, e') h
      ]
    ]

leb_mono :
    (n : ℕ) (a b : ℚ)
    → 0 < a.den
    → 0 < b.den
    → a ≤ℚ b
    → leb_ℚ (of_ℕ n) a ≡ true
    → leb_ℚ (of_ℕ n) b ≡ true
leb_mono n a b ha hb h e = le→leb _ _ (
    le_of_mul-le-mul_right {k = a.den} (omega (arith, h, mul-le-mul_right b.den (leb→le _ _ e))) ha)

-- More hours of the month never raise the price.
volume-hours :
    (cfg : TierPrice) (hours hours' p : ℚ)
    → IsFair cfg
    → Pos hours
    → Pos hours'
    → hours ≤ℚ hours'
    → volume_discounted cfg hours' p ≤ℚ volume_discounted cfg hours p
volume-hours cfg hours hours' p fair ph ph' h = ground (
  arith,
  leb_mono 200 hours hours',
  leb_mono 100 hours hours',
  discounted-le cfg.volume_discount_100hrs p fair.at_100,
  discounted-le cfg.volume_discount_200hrs p fair.at_200,
  discounted-Ordered cfg.volume_discount_100hrs cfg.volume_discount_200hrs p fair.deeper,
)

prepaid-Pos :
    (cfg : TierPrice) (prepaid : Bool) (p : ℚ)
    → IsFair cfg
    → Pos p
    → Pos (prepaid_price cfg prepaid p)
prepaid-Pos cfg true p fair h = discounted-Pos cfg.prepaid_discount p fair.prepaid h
prepaid-Pos cfg false p fair h = h

-- The exact price, with its positive denominator, before rounding.
exact-Pos :
    (cfg : TierPrice) (u : String) (d : ℚ) (prepaid : Bool) (hours : ℚ)
    → IsFair cfg
    → Pos d
    → Pos (exact_price cfg u d prepaid hours)
unfolding exact_price
exact-Pos cfg u d prepaid hours fair h =
    let base : Pos (base_price cfg d) =
      mul-pos (mul-pos fair.base fair.markup) (mul-pos h (omega arith)) in
    let paid = prepaid-Pos cfg prepaid (base_price cfg d) fair base in
    elim (Bool-cases (str_eq u "business")) [
      | inl e ↦ rw e (volume-Pos cfg hours (prepaid_price cfg prepaid (base_price cfg d)) fair paid)
      | inr e ↦ rw e paid
    ]

≤ℚ_trans : (a b c : ℚ) → 0 < b.den → a ≤ℚ b → b ≤ℚ c → a ≤ℚ c
≤ℚ_trans a b c h p q =
    le_of_mul-le-mul_right {k = b.den}
      (omega (arith, mul-le-mul_right c.den p, mul-le-mul_right a.den q)) h

-- Prepaying, and more hours of the month, never raise the exact price.
exact-le :
    (cfg : TierPrice) (u : String) (d : ℚ) (hours hours' : ℚ)
    → IsFair cfg
    → Pos d
    → Pos hours
    → Pos hours'
    → hours ≤ℚ hours'
    → exact_price cfg u d true hours' ≤ℚ exact_price cfg u d false hours
unfolding exact_price
exact-le cfg u d hours hours' fair h ph ph' le =
    let base : Pos (base_price cfg d) =
      mul-pos (mul-pos fair.base fair.markup) (mul-pos h (omega arith)) in
    let paid = discounted-le cfg.prepaid_discount (base_price cfg d) fair.prepaid in
    elim (Bool-cases (str_eq u "business")) [
      | inl e ↦ rw e (
          ≤ℚ_trans _ (volume_discounted cfg hours' (base_price cfg d)) _
            (volume-Pos cfg hours' (base_price cfg d) fair base)
            (volume-mono cfg hours' _ (base_price cfg d) paid)
            (volume-hours cfg hours hours' (base_price cfg d) fair ph ph' le))
      | inr e ↦ rw e paid
    ]

-- The price of a session is there exactly for the user types and tiers of the table; it is the
-- exact price rounded to the nearest 0.0001 USD, halves up: twice the difference is at most one
-- unit.
pub calculate_price_lem :
    (tier : String) (d : ℚ) (u : String) (prepaid : Bool) (hours : ℚ)
    → 0 < d.den
    → ((calculate_price tier d u prepaid hours ≡ err value_error)
        × (find_price u tier ≡ err value_error))
      ⊎ ((p : ℕ) × (cfg : TierPrice) × (calculate_price tier d u prepaid hours ≡ ok p)
          × (find_price u tier ≡ ok cfg)
          × (2 * (p * (exact_price cfg u d prepaid hours).den)
              ≤ 2 * ((exact_price cfg u d prepaid hours).num * 10_000)
                + (exact_price cfg u d prepaid hours).den)
          × (2 * ((exact_price cfg u d prepaid hours).num * 10_000)
              < 2 * (p * (exact_price cfg u d prepaid hours).den)
                + (exact_price cfg u d prepaid hours).den))
unfolding calculate_price
calculate_price_lem tier d u prepaid hours h = elim (Result-cases (find_price u tier)) [
  | inl (e, p) ↦
      let known : e ≡ value_error = find_price-error u tier e p in
      inl (rw (p, known) refl, rw (p, known) refl)
  | inr (cfg, p) ↦
      let bounds =
        half_up_bounds 10_000 (exact_price cfg u d prepaid hours)
          (exact-Pos cfg u d prepaid hours (find_price-IsFair u tier cfg p) h) in
      inr (
        half_up 10_000 (exact_price cfg u d prepaid hours),
        cfg,
        (rw p refl),
        p,
        bounds.0,
        bounds.1,
      )
]

-- For the same tier, duration and user type, whoever has prepaid and has used as many or more hours
-- this month pays no more than whoever has not.
pub calculate_price_mono :
    (tier : String) (d : ℚ) (u : String) (hours hours' : ℚ) (p p' : ℕ)
    → 0 < d.den
    → 0 < hours.den
    → 0 < hours'.den
    → hours ≤ℚ hours'
    → calculate_price tier d u false hours ≡ ok p
    → calculate_price tier d u true hours' ≡ ok p'
    → p' ≤ p
unfolding calculate_price
calculate_price_mono tier d u hours hours' p p' h ph ph' le e e' =
    let (cfg, q, r) = >>=-eq-ok (find_price u tier) _ e in
    let fair = find_price-IsFair u tier cfg q in
    let r' : ok (half_up 10_000 (exact_price cfg u d true hours')) ≡ ok p' = rw q at e' in
    let rounded =
      half_up_mono 10_000 (exact_price cfg u d true hours') (exact_price cfg u d false hours)
        (exact-Pos cfg u d true hours' fair h) (exact-Pos cfg u d false hours fair h)
        (exact-le cfg u d hours hours' fair h ph ph' le) in
    omega (arith, rounded, ok-injective r, ok-injective r')

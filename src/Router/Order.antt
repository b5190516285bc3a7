-- ===== src/Router/Order.antt =====
-- The order of tiers, for the laws of the router: where names stand in a list.
use gpu_relay.Common.{
  ℕ, ◌-◌, ◌≤◌, String, str_eq, eq_iff, ◌≡◌, refl, ◌⊎◌, inl, inr, Bool, true, not, ◌&&◌, ◌||◌, List,
  [], ◌∷◌, contains, filter, ok, arith, Bool-cases, >>=-eq-ok, ok-injective, leb, leb→le, leb→gt,
  subst, if◌then◌else◌,
}
use gpu_relay.Router.Tiers.{index, highest, tier_order}

-- `a` stands in the list no later than `b`.
abbrev pub no_later : List String → String → String → Bool
no_later [] a b = str_eq a b
no_later (x ∷ xs) a b = str_eq a x || (not (str_eq b x) && no_later xs a b)

abbrev pub NotAfter : List String → String → String → Type 0
NotAfter xs a b = no_later xs a b ≡ true

pub NotAfter-of_index :
    (a b : String) (xs : List String) (i j : ℕ)
    → index a xs ≡ ok i
    → index b xs ≡ ok j
    → i ≤ j
    → NotAfter xs a b
unfolding index
NotAfter-of_index a b [] i j p q h = cc
NotAfter-of_index a b (x ∷ xs) i j p q h =
    ground (arith, eq_iff a x, eq_iff b x, NotAfter-of_index a b xs (i - 1) (j - 1))

pub contains-filter :
    (p : String → Bool) (t : String) (xs : List String)
    → contains t (filter p xs) ≡ true
    → (p t ≡ true) × (contains t xs ≡ true)
contains-filter p t [] h = cc
contains-filter p t (x ∷ xs) h = ground (arith, eq_iff t x, contains-filter p t xs)

later_index :
    (xs : List String) (a b : String) (i j : ℕ)
    → index a xs ≡ ok i
    → index b xs ≡ ok j
    → let h = if leb j i then a else b in NotAfter xs a h × NotAfter xs b h × ((h ≡ a) ⊎ (h ≡ b))
later_index xs a b i j p q = elim (Bool-cases (leb j i)) [
  | inl t ↦ rw t (
    NotAfter-of_index a a xs i i p p (omega arith),
    NotAfter-of_index b a xs j i q p (leb→le j i t),
    inl refl,
  )
  | inr f ↦ rw f (
    NotAfter-of_index a b xs i j p q (omega (arith, leb→gt j i f)),
    NotAfter-of_index b b xs j j q q (omega arith),
    inr refl,
  )
]

-- `highest` is one of its two arguments, and the later one in the order of tiers.
pub highest_lem :
    (a b h : String)
    → highest a b ≡ ok h
    → NotAfter tier_order a h × NotAfter tier_order b h × ((h ≡ a) ⊎ (h ≡ b))
unfolding highest
highest_lem a b h e =
    let (i, p, e') = >>=-eq-ok (index a tier_order) _ e in
    let (j, q, e'') = >>=-eq-ok (index b tier_order) _ e' in
    subst (λ h. NotAfter tier_order a h × NotAfter tier_order b h × ((h ≡ a) ⊎ (h ≡ b)))
      (ok-injective e'') (later_index tier_order a b i j p q)

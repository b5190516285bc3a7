-- ===== src/Router/Demand.antt =====
-- What the signals of a request ask for: the candidate is no lower than any signal, and more tokens
-- or files never ask for a lower tier.
use gpu_relay.Common.{
  ℕ, ◌≤◌, String, str_eq, eq_iff, eq_refl, ◌≡◌, refl, ◌⊎◌, inl, inr, true, false, Option, List, [],
  ◌∷◌, or_default, Result, ok, arith, leb, Bool-cases, if◌then◌else◌, Result-cases, >>=-eq-ok,
  ok-injective, contains, subst, sym, ap, ◌∙◌,
}
use gpu_relay.Schemas.{ChatCompletionRequest, Reason}
use gpu_relay.Router.Order.{NotAfter, highest_lem}
use gpu_relay.Router.Tiers.{Config, TierCfg, tier_order, get_tier, highest}
use gpu_relay.Router.Signals.{
  prompt_tokens, last_user_text, keyword_tier, first_fitting, min_tier_for_tokens,
  min_tier_for_files,
}
use gpu_relay.Router.Select.{signal_tier}

NotAfter-refl : (xs : List String) (a : String) → NotAfter xs a a
NotAfter-refl [] a = eq_refl a
NotAfter-refl (x ∷ xs) a = ground (arith, NotAfter-refl xs a)

NotAfter-trans :
    (xs : List String) (a b d : String) → NotAfter xs a b → NotAfter xs b d → NotAfter xs a d
NotAfter-trans [] a b d h k = ground (arith, eq_iff a b, eq_iff b d, eq_iff a d)
NotAfter-trans (x ∷ xs) a b d h k =
    ground (arith, eq_iff a x, eq_iff b x, eq_iff d x, NotAfter-trans xs a b d)

-- No name twice in a list, and every name no later than "ultra".
abbrev IsOrder : List String → Type 0
IsOrder [] = Unit
IsOrder (x ∷ xs) = (contains x xs ≡ false) × (contains "ultra" (x ∷ xs) ≡ true) × IsOrder xs

tier_order-IsOrder : IsOrder tier_order
tier_order-IsOrder = (refl, refl, (refl, refl, (refl, refl, (refl, refl, (refl, refl, tt)))))

-- A result of the loop is in the list, or "ultra".
first_fitting-mem :
    (c : Config) (limit : TierCfg → Option ℕ) (n : ℕ) (ts : List String) (t : String)
    → first_fitting c limit n ts ≡ ok t
    → (contains t ts ≡ true) ⊎ (t ≡ "ultra")
unfolding first_fitting
first_fitting-mem c limit n [] t e = ground arith
first_fitting-mem c limit n (x ∷ ts) t e =
    let (cfg, p, e') = >>=-eq-ok (get_tier c x) _ e in
    ground (arith, e', eq_iff t x, first_fitting-mem c limit n ts t)

first_fitting-in_order :
    (c : Config) (limit : TierCfg → Option ℕ) (n : ℕ) (x : String) (ts : List String) (t : String)
    → IsOrder (x ∷ ts)
    → first_fitting c limit n (x ∷ ts) ≡ ok t
    → contains t (x ∷ ts) ≡ true
first_fitting-in_order c limit n x ts t o e = elim (first_fitting-mem c limit n (x ∷ ts) t e) [
  | inl h ↦ h
  | inr h ↦ subst (λ u. contains u (x ∷ ts) ≡ true) (sym h) o.1
]

-- The later tiers are other names than the head.
tail-ne-head :
    (c : Config) (limit : TierCfg → Option ℕ) (m : ℕ) (x : String) (ts : List String) (t : String)
    → IsOrder (x ∷ ts)
    → first_fitting c limit m ts ≡ ok t
    → (str_eq t x ≡ false) ⊎ (ts ≡ [])
tail-ne-head c limit m x [] t o e = inr refl
tail-ne-head c limit m x (y ∷ ts) t o e =
    ground (arith, eq_iff t x, first_fitting-in_order c limit m y ts t o.2 e)

first_fitting_mono :
    (c : Config) (limit : TierCfg → Option ℕ) (n m : ℕ) (ts : List String) (s t : String)
    → IsOrder ts
    → n ≤ m
    → first_fitting c limit n ts ≡ ok s
    → first_fitting c limit m ts ≡ ok t
    → NotAfter ts s t
unfolding first_fitting
first_fitting_mono c limit n m [] s t o h p q = ground (arith, eq_iff s t)
first_fitting_mono c limit n m (x ∷ []) s t o h p q =
    ground (arith, eq_iff s x, eq_iff x "ultra", first_fitting-in_order c limit n x [] s o p)
first_fitting_mono c limit n m (x ∷ y ∷ ts) s t o h p q = elim (Result-cases (get_tier c x)) [
  | inl (er, g) ↦ cc (rw g at p)
  | inr (cfg, g) ↦
      unfit cfg (rw g at p) (rw g at q) (first_fitting_mono c limit n m (y ∷ ts) s t o.2 h)
]
  where
    rest : ℕ → Result String
    rest k = first_fitting c limit k (y ∷ ts)

    below :
        rest n ≡ ok s
        → rest m ≡ ok t
        → (rest n ≡ ok s → rest m ≡ ok t → NotAfter (y ∷ ts) s t)
        → NotAfter (x ∷ y ∷ ts) s t
    below p q ih = elim (tail-ne-head c limit m x (y ∷ ts) t o q) [
      | inl other ↦ elim (Bool-cases (str_eq s x)) [
        | inl same ↦ rw same refl
        | inr e ↦ rw (e, other) (ih p q)
      ]
      | inr e ↦ cc
    ]

    unfit :
        (cfg : TierCfg)
        → (if leb n (or_default (limit cfg) 0) then ok x else rest n) ≡ ok s
        → (if leb m (or_default (limit cfg) 0) then ok x else rest m) ≡ ok t
        → (rest n ≡ ok s → rest m ≡ ok t → NotAfter (y ∷ ts) s t)
        → NotAfter (x ∷ y ∷ ts) s t
    unfit cfg p q ih = elim (Bool-cases (leb n (or_default (limit cfg) 0))) [
      | inl fits ↦ rw ((eq_iff s x).1 (sym (ok-injective (rw fits at p)))) refl
      | inr over ↦
          let over' : leb m (or_default (limit cfg) 0) ≡ false = ground arith in
          below (rw over at p) (rw over' at q) ih
    ]

-- A prompt with more tokens never asks for a tier that stands earlier in the order.
pub min_tier_for_tokens_mono :
    (c : Config) (n m : ℕ) (s t : String)
    → n ≤ m
    → min_tier_for_tokens c n ≡ ok s
    → min_tier_for_tokens c m ≡ ok t
    → NotAfter tier_order s t
unfolding min_tier_for_tokens
min_tier_for_tokens_mono c n m s t h =
    first_fitting_mono c (λ cfg. cfg.max_prompt_tokens) n m tier_order s t tier_order-IsOrder h

-- A request with more files never asks for a tier that stands earlier in the order.
pub min_tier_for_files_mono :
    (c : Config) (n m : ℕ) (s t : String)
    → n ≤ m
    → min_tier_for_files c n ≡ ok s
    → min_tier_for_files c m ≡ ok t
    → NotAfter tier_order s t
unfolding min_tier_for_files
min_tier_for_files_mono c n m s t h =
    first_fitting_mono c (λ cfg. cfg.max_files) n m tier_order s t tier_order-IsOrder h

one_of_three :
    {k l a b w : String} → (l ≡ a) ⊎ (l ≡ b) → (k ≡ l) ⊎ (k ≡ w) → (k ≡ a) ⊎ (k ≡ b) ⊎ (k ≡ w)
one_of_three h (inr e) = inr (inr e)
one_of_three (inl p) (inl e) = inl (e ∙ p)
one_of_three (inr p) (inl e) = inr (inl (e ∙ p))

-- The candidate of the signal stage stands no earlier than the tier that the tokens ask for, than
-- the tier that the files ask for, and than the tier of the keywords, and it is one of the three.
pub signal_tier_lem :
    (c : Config) (request : ChatCompletionRequest) (candidate : String) (r : Reason)
    → signal_tier c request ≡ ok (candidate, r)
    → (by_tokens by_files : String) × (min_tier_for_tokens c (prompt_tokens request) ≡ ok by_tokens)
      × (min_tier_for_files c (or_default request.files_referenced 0) ≡ ok by_files)
      × NotAfter tier_order by_tokens candidate
      × NotAfter tier_order by_files candidate
      × NotAfter tier_order
          (or_default (keyword_tier c (last_user_text request)) "simple")
          candidate
      × ((candidate ≡ by_tokens)
          ⊎ (candidate ≡ by_files)
          ⊎ (candidate ≡ or_default (keyword_tier c (last_user_text request)) "simple"))
unfolding signal_tier
signal_tier_lem c request candidate r e =
    let (a, p, e1) = >>=-eq-ok (min_tier_for_tokens c (prompt_tokens request)) _ e in
    let (b, q, e2) =
      >>=-eq-ok (min_tier_for_files c (or_default request.files_referenced 0)) _ e1 in
    let kw = or_default (keyword_tier c (last_user_text request)) "simple" in
    let (l, hl, e3) = >>=-eq-ok (highest a b) _ e2 in
    let (k, hk, e4) = >>=-eq-ok (highest l kw) _ e3 in
    let (al, bl, which) = highest_lem a b l hl in
    let (lk, kk, which') = highest_lem l kw k hk in
    let same : k ≡ candidate = ap (λ (x : String × Reason). x.0) (ok-injective e4) in
    subst
      (λ h.
        (by_tokens by_files : String) × (min_tier_for_tokens c (prompt_tokens request)
          ≡ ok by_tokens)
        × (min_tier_for_files c (or_default request.files_referenced 0) ≡ ok by_files)
        × NotAfter tier_order by_tokens h
        × NotAfter tier_order by_files h
        × NotAfter tier_order kw h
        × ((h ≡ by_tokens) ⊎ (h ≡ by_files) ⊎ (h ≡ kw)))
      same
      (
        a,
        b,
        p,
        q,
        NotAfter-trans tier_order a l k al lk,
        NotAfter-trans tier_order b l k bl lk,
        kk,
        one_of_three which which',
      )

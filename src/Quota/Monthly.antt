-- ===== src/Quota/Monthly.antt =====
-- bridge/quota.py, `check_monthly_budget` and `_maybe_fire_alerts`. The start of the period and its
-- month are computed from the clock by the caller.
use gpu_relay.Common.{
  ℕ, ◌+◌, ◌*◌, String, str_eq, ◌≡◌, refl, ◌∙◌, ◌⊎◌, inl, inr, Bool, true, false, ◌&&◌, not, none,
  some, List, [], ◌∷◌, All, ℚ, ◌+ℚ◌, leb_ℚ, le→leb, leb→le, Result, ok, err, http, arith, ltb, leb,
  ◌==◌, if◌then◌else◌, Bool-cases, Option-cases,
}
use gpu_relay.Models.{User, Request, RequestStatus}
use gpu_relay.Schemas.{RoutingDecision, Reason}
use gpu_relay.Router.Tiers.{Config}
use gpu_relay.Router.Select.{usd, within_budget, affordable}
use gpu_relay.Router.Budget.{within_budget-affordable}
use gpu_relay.Redis.{Redis, Key, budget_alert, Key-discrete}

pub record BudgetAlert : Type 0 where
  pub user_id : String
  pub period_start : ℕ
  pub threshold_pct : ℕ

abbrev pub is_ok : RequestStatus → Bool
is_ok RequestStatus.ok = true
is_ok _ = false

-- The sum over the user's successful requests of the period.
unfoldable pub spent_since : String → ℕ → List Request → ℕ
spent_since u start [] = 0
spent_since u start (r ∷ rs) =
    let rest = spent_since u start rs in
    if str_eq r.user_id u && is_ok r.status && leb start r.created_at
    then r.cost_usd + rest
    else rest

-- The two gates add the amounts in another order.
add_comm_fits :
    (cost : ℚ) (spent budget : ℕ)
    → affordable cost spent budget ≡ true
    → leb_ℚ (usd spent +ℚ cost) (usd budget) ≡ true
unfolding affordable
add_comm_fits cost spent budget h = le→leb _ _ (omega (arith, leb→le _ _ h))

module _ (redis : Redis) where
  open redis use {Store, get, setex, get-setex, get-setex_ne}

  -- The alerts that the database holds, and Redis.
  pub record Ledger : Type 0 where
    pub alerts : List BudgetAlert
    pub store : Store

  -- The user, the start of the period, its month, and the amounts spent and budgeted.
  pub record Period : Type 0 where
    pub user_id : String
    pub start : ℕ
    pub month : ℕ
    pub spent : ℕ
    pub budget : ℕ

  abbrev pub key_of : Period → ℕ → Key
  key_of p threshold = budget_alert p.user_id p.month threshold

  -- `pct_used < threshold`
  abbrev pub below : Period → ℕ → Bool
  below p threshold = ltb (p.spent * 100) (threshold * p.budget)

  abbrev pub fired : Period → ℕ → Ledger → Ledger
  fired p threshold l = record {
    alerts =
        record { user_id = p.user_id; period_start = p.start; threshold_pct = threshold }
        ∷ l.alerts;
    store = setex (key_of p threshold) l.store;
  }

  unfoldable pub fire_one : Period → ℕ → Ledger → Ledger
  fire_one p threshold l =
      if below p threshold
      then l
      else elim (get (key_of p threshold) l.store) [ some v ↦ l | none ↦ fired p threshold l ]

  unfoldable pub fire_all : Period → List ℕ → Ledger → Ledger
  fire_all p [] l = l
  fire_all p (t ∷ ts) l = fire_all p ts (fire_one p t l)

  -- The thresholds are the setting `alert_percents_list`.
  unfoldable pub maybe_fire_alerts : Period → List ℕ → Ledger → Ledger
  maybe_fire_alerts p thresholds l = if p.budget == 0 then l else fire_all p thresholds l

  unfoldable pub check_monthly_budget :
      List ℕ → User → ℚ → ℕ → ℕ → List Request → Ledger → Result (Unit {0}) × Ledger
  check_monthly_budget thresholds user projected start month requests l =
      let spent = spent_since user.id start requests in
      let budget = user.monthly_budget_usd in
      if not (leb_ℚ (usd spent +ℚ projected) (usd budget)) then (err (http 429), l) else (
        ok tt,
        maybe_fire_alerts
            (record {
              user_id = user.id;
              start = start;
              month = month;
              spent = spent;
              budget = budget;
            })
            thresholds l,
      )

  -- Nothing is left to do for a threshold.
  abbrev Settled : Period → Ledger → ℕ → Type 0
  Settled p l t = (below p t ≡ true) ⊎ ((v : ℕ) × (get (key_of p t) l.store ≡ some v))

  fire_one_idle : (p : Period) (t : ℕ) (l : Ledger) → Settled p l t → fire_one p t l ≡ l
  unfolding fire_one
  fire_one_idle p t l (inl e) = rw e
  fire_one_idle p t l (inr (v, e)) = elim (Bool-cases (below p t)) [
    | inl b ↦ rw b
    | inr b ↦ rw (b, e)
  ]

  fire_one-Settled_self : (p : Period) (t : ℕ) (l : Ledger) → Settled p (fire_one p t l) t
  unfolding fire_one
  fire_one-Settled_self p t l = elim (Bool-cases (below p t)) [
    | inl b ↦ inl b
    | inr b ↦ elim (Option-cases (get (key_of p t) l.store)) [
      | inl e ↦ rw (b, e) (inr (1, get-setex (key_of p t) l.store))
      | inr (v, e) ↦ rw (b, e) (inr (v, e))
    ]
  ]

  set-IsSome :
      (k j : Key) (s : Store) (v : ℕ) → get j s ≡ some v → (w : ℕ) × (get j (setex k s) ≡ some w)
  set-IsSome k j s v e = elim (Key-discrete j k) [
    | yes q ↦ (1, rw q (get-setex k s))
    | no q ↦ (v, get-setex_ne k j s q ∙ e)
  ]

  fire_one-Settled :
      (p : Period) (t u : ℕ) (l : Ledger) → Settled p l u → Settled p (fire_one p t l) u
  unfolding fire_one
  fire_one-Settled p t u l (inl e) = inl e
  fire_one-Settled p t u l (inr (v, e)) = elim (Bool-cases (below p t)) [
    | inl b ↦ rw b (inr (v, e))
    | inr b ↦ elim (Option-cases (get (key_of p t) l.store)) [
      | inl o ↦ rw (b, o) (inr (set-IsSome (key_of p t) (key_of p u) l.store v e))
      | inr (w, o) ↦ rw (b, o) (inr (v, e))
    ]
  ]

  fire_all-Settled :
      (p : Period) (ts : List ℕ) (u : ℕ) (l : Ledger)
      → Settled p l u
      → Settled p (fire_all p ts l) u
  unfolding fire_all
  fire_all-Settled p [] u l h = h
  fire_all-Settled p (t ∷ ts) u l h =
      fire_all-Settled p ts u (fire_one p t l) (fire_one-Settled p t u l h)

  fire_all-All : (p : Period) (ts : List ℕ) (l : Ledger) → All (Settled p (fire_all p ts l)) ts
  unfolding fire_all
  fire_all-All p [] l = tt
  fire_all-All p (t ∷ ts) l = (
    fire_all-Settled p ts t (fire_one p t l) (fire_one-Settled_self p t l),
    fire_all-All p ts (fire_one p t l),
  )

  fire_all-idle :
      (p : Period) (ts : List ℕ) (l : Ledger) → All (Settled p l) ts → fire_all p ts l ≡ l
  unfolding fire_all
  fire_all-idle p [] l h = refl
  fire_all-idle p (t ∷ ts) l h = rw (fire_one_idle p t l h.0) (fire_all-idle p ts l h.1)

  -- Each threshold is announced once for a period: with the amounts unchanged, a second run of the
  -- alerts, for any list of thresholds, adds no alert and leaves Redis as it is.
  pub maybe_fire_alerts_idem :
      (p : Period) (ts : List ℕ) (l : Ledger)
      → maybe_fire_alerts p ts (maybe_fire_alerts p ts l) ≡ maybe_fire_alerts p ts l
  unfolding maybe_fire_alerts
  maybe_fire_alerts_idem p ts l = elim (Bool-cases (p.budget == 0)) [
    | inl e ↦ rw e
    | inr e ↦ rw e (fire_all-idle p ts (fire_all p ts l) (fire_all-All p ts l))
  ]

  -- A tier that the router's budget stage decides on passes the monthly gate, where both read the
  -- same requests and the same user.
  pub routed-passes :
      (c : Config) (allowed : List String) (tokens : ℕ) (candidate : String) (reason : Reason)
      (ts : List ℕ) (u : User) (start month : ℕ) (rs : List Request) (l : Ledger)
      (d : RoutingDecision)
      → within_budget c allowed tokens
          (spent_since u.id start rs)
          u.monthly_budget_usd
          candidate
          reason
        ≡ ok d
      → (check_monthly_budget ts u d.projected_cost_usd start month rs l).0 ≡ ok tt
  unfolding check_monthly_budget
  routed-passes c allowed tokens candidate reason ts u start month rs l d e =
      let fits =
        within_budget-affordable c allowed tokens (spent_since u.id start rs) u.monthly_budget_usd
          candidate reason d e in
      rw (add_comm_fits d.projected_cost_usd (spent_since u.id start rs) u.monthly_budget_usd fits)
        refl

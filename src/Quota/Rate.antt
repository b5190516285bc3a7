-- ===== src/Quota/Rate.antt =====
-- bridge/quota.py, `check_rpm`: a sliding window of one minute in a sorted set. The clock is in
-- milliseconds.
use gpu_relay.Common.{
  ℕ, suc, ◌-◌, ◌≤◌, String, ◌≡◌, refl, ap, ◌∙◌, List, [], ◌∷◌, filter, length, Result, ok, err,
  http, arith, ltb, if◌then◌else◌,
}
use gpu_relay.Redis.{Redis, rpm}

abbrev pub window_ms : ℕ
window_ms = 60_000

abbrev pub too_many : ℕ → ℕ → Result (Unit {0})
too_many quota count = if ltb quota count then err (http 429) else ok tt

module _ (redis : Redis) where
  open redis use {
    Store, scores, zremrangebyscore, zadd, expire, scores-zrem, scores-zadd, scores-expire,
  }

  -- The limit `rate_limit_rpm_default`, the user, the time of the call and the store.
  unfoldable pub check_rpm : ℕ → String → ℕ → Store → Result (Unit {0}) × Store
  check_rpm quota_rpm user_id now_ms s =
      let key = rpm user_id in
      let pruned = zremrangebyscore key (now_ms - window_ms) s in
      let added = zadd key now_ms pruned in
      let count = length (scores key added) in (too_many quota_rpm count, expire key 120 added)

  -- The store after a user's calls, the latest first.
  pub after_calls : ℕ → String → List ℕ → Store → Store
  after_calls quota u [] s = s
  after_calls quota u (t ∷ ts) s = (check_rpm quota u t (after_calls quota u ts s)).1

  -- The calls of the last minute, among all that were ever made.
  abbrev pub in_window : ℕ → List ℕ → List ℕ
  in_window now ts = filter (λ t. ltb (now - window_ms) t) ts

  -- The latest call first.
  abbrev pub Descending : List ℕ → Type 0
  Descending [] = Unit
  Descending (t ∷ []) = Unit
  Descending (t ∷ u ∷ ts) = (u ≤ t) × Descending (u ∷ ts)

  Descending-skip : (now t : ℕ) (ts : List ℕ) → Descending (now ∷ t ∷ ts) → Descending (now ∷ ts)
  Descending-skip now t [] d = tt
  Descending-skip now t (u ∷ ts) d = (omega arith, d.1.1)

  filter-filter :
      (a b : ℕ) (ts : List ℕ)
      → a ≤ b
      → filter (λ t. ltb b t) (filter (λ t. ltb a t) ts) ≡ filter (λ t. ltb b t) ts
  filter-filter a b [] h = refl
  filter-filter a b (t ∷ ts) h = ground (arith, filter-filter a b ts)

  scores-check :
      (quota : ℕ) (u : String) (now : ℕ) (s : Store)
      → scores (rpm u) (check_rpm quota u now s).1 ≡ now ∷ in_window now (scores (rpm u) s)
  unfolding check_rpm
  scores-check quota u now s = rw (scores-expire, scores-zadd, scores-zrem)

  -- Pruning loses nothing that a later window could see.
  pruned :
      (quota : ℕ) (u : String) (ts : List ℕ) (s : Store) (now : ℕ)
      → scores (rpm u) s ≡ []
      → Descending (now ∷ ts)
      → in_window now (scores (rpm u) (after_calls quota u ts s)) ≡ in_window now ts
  unfolding after_calls
  pruned quota u [] s now e d = rw e
  pruned quota u (t ∷ ts) s now e d =
      let earlier = scores (rpm u) (after_calls quota u ts s) in
      let kept : in_window now (in_window t earlier) ≡ in_window now ts =
        filter-filter (t - window_ms) (now - window_ms) earlier (omega arith)
        ∙ pruned quota u ts s now e (Descending-skip now t ts d) in
      rw (scores-check quota u t (after_calls quota u ts s))
        (ap (λ xs. if ltb (now - window_ms) t then t ∷ xs else xs) kept)

  -- With any calls before it at times that do not decrease, and none in the store at first, a call
  -- is refused exactly when it is past the limit counted over all calls of the last minute, its own
  -- and the refused ones among them.
  pub check_rpm_lem :
      (quota : ℕ) (u : String) (ts : List ℕ) (s : Store) (now : ℕ)
      → scores (rpm u) s ≡ []
      → Descending (now ∷ ts)
      → (check_rpm quota u now (after_calls quota u ts s)).0
        ≡ too_many quota (suc (length (in_window now ts)))
  unfolding check_rpm
  check_rpm_lem quota u ts s now e d = rw (scores-zadd, scores-zrem, pruned quota u ts s now e d)

-- ===== src/Quota/Daily.antt =====
-- bridge/quota.py, `check_daily_tokens`: a counter for each user and day. Other requests may change
-- the store between the read of the counter and the command that adds to it.
use gpu_relay.Common.{
  ℕ, ◌+◌, ◌≤◌, String, ◌≡◌, refl, none, List, [], ◌∷◌, or_default, Result, ok, err, http, arith,
  ltb, leb, ◌⊎◌, if◌then◌else◌, Bool-cases, inl, inr,
}
use gpu_relay.Redis.{Redis, tpd}

-- What a sequence of requests is granted, the latest first: a request counts if it fits.
abbrev pub granted : ℕ → List ℕ → ℕ
granted quota [] = 0
granted quota (n ∷ ns) =
    let before = granted quota ns in if ltb quota (before + n) then before else before + n

granted-le : (quota : ℕ) (ns : List ℕ) → granted quota ns ≤ quota
granted-le quota [] = omega arith
granted-le quota (n ∷ ns) = ground (arith, granted-le quota ns)

module _ (redis : Redis) where
  open redis use {Store, others, get, incrby, expire, get-incrby, get-expire}

  -- The limit `tokens_per_day_default`, the user, the day, the seconds to midnight, and the tokens.
  unfoldable pub check_daily_tokens : ℕ → String → ℕ → ℕ → ℕ → Store → Result (Unit {0}) × Store
  check_daily_tokens quota user_id day midnight prompt_tokens s =
      let key = tpd user_id day in
      let current = or_default (get key s) 0 in
      if ltb quota (current + prompt_tokens)
      then (err (http 429), s)
      else (ok tt, expire key midnight (incrby key prompt_tokens (others s)))

  -- The store after a user's requests of one day, the latest first.
  pub after_requests : ℕ → String → ℕ → ℕ → List ℕ → Store → Store
  after_requests quota u day midnight [] s = s
  after_requests quota u day midnight (n ∷ ns) s =
      (check_daily_tokens quota u day midnight n (after_requests quota u day midnight ns s)).1

  used : String → ℕ → Store → ℕ
  used u day s = or_default (get (tpd u day) s) 0

  -- The other requests leave the counter alone while one of the user's checks runs.
  abbrev pub Undisturbed : String → ℕ → Type 0
  Undisturbed u day = (s : Store) → get (tpd u day) (others s) ≡ get (tpd u day) s

  used-check :
      (quota : ℕ) (u : String) (day midnight n : ℕ) (s : Store)
      → Undisturbed u day
      → used u day (check_daily_tokens quota u day midnight n s).1
        ≡ (if ltb quota (used u day s + n) then used u day s else used u day s + n)
  unfolding check_daily_tokens used
  used-check quota u day midnight n s alone =
      elim (Bool-cases (ltb quota (or_default (get (tpd u day) s) 0 + n))) [
        | inl e ↦ rw e refl
        | inr e ↦ rw (e, get-expire, get-incrby, alone) refl
      ]

  used-after :
      (quota : ℕ) (u : String) (day midnight : ℕ) (ns : List ℕ) (s : Store)
      → Undisturbed u day
      → get (tpd u day) s ≡ none
      → used u day (after_requests quota u day midnight ns s) ≡ granted quota ns
  unfolding after_requests
  used-after quota u day midnight [] s alone e = unfold used in rw e refl
  used-after quota u day midnight (n ∷ ns) s alone e =
      rw
        (
          used-check quota u day midnight n (after_requests quota u day midnight ns s) alone,
          used-after quota u day midnight ns s alone e,
        )
        refl

  -- Where no other request touches the user's counter between the read and the addition of a check, as
  -- when the user's requests come one after the other: after any requests of a day the counter holds
  -- the tokens of the granted ones, which never pass the limit; the next request is granted exactly if
  -- its tokens fit into what is left, and unless it is granted it changes nothing.
  pub check_daily_tokens_lem :
      (quota : ℕ) (u : String) (day midnight : ℕ) (ns : List ℕ) (n : ℕ) (s : Store)
      → Undisturbed u day
      → get (tpd u day) s ≡ none
      → let before = after_requests quota u day midnight ns s in
        let after = check_daily_tokens quota u day midnight n before in
        (or_default (get (tpd u day) before) 0 ≡ granted quota ns)
        × (granted quota ns ≤ quota)
        × (after.0 ≡ (if leb (granted quota ns + n) quota then ok tt else err (http 429)))
        × ((after.0 ≡ ok tt) ⊎ (after ≡ (err (http 429), before)))
  unfolding check_daily_tokens
  check_daily_tokens_lem quota u day midnight ns n s alone e =
      let count : or_default (get (tpd u day) (after_requests quota u day midnight ns s)) 0
          ≡ granted quota ns =
        unfold used in used-after quota u day midnight ns s alone e in
      (count, granted-le quota ns, rw count (ground arith), ground arith)

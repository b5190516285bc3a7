-- ===== src/Routes/Accounts/Usage/Totals.antt =====
-- The usage statistics against the books.
use gpu_relay.Common.{
  ℕ, ◌+◌, ◌<◌, ◌==◌, String, ◌≡◌, refl, false, ltb, List, [], ◌∷◌, All, filter, length, arith, inl,
  inr, Bool-cases,
}
use gpu_relay.Models.{User, Request}
use gpu_relay.Quota.Monthly.{is_ok, spent_since}
use gpu_relay.Cost.{CostConfig, Call, request_row, request_cost}
use gpu_relay.Routes.Accounts.Usage.{
  UsagePeriod, since, aggregate, day_of, group_in, daily, thirty_days_ago, get_usage,
}

-- The rows that cost nothing unless they succeeded.
abbrev pub Booked : List Request → Type 0
Booked = All (λ r. is_ok r.status ≡ false → r.cost_usd ≡ 0)

pub request_row-Booked :
    (c : CostConfig) (call : Call) (u : User) (rs : List Request)
    → Booked rs
    → Booked (request_row c call u ∷ rs)
unfolding request_row request_cost
request_row-Booked c call u rs h = (ground arith, h)

aggregate-spent :
    (u : String) (start period : ℕ) (rows : List Request)
    → Booked rows
    → (aggregate period (filter (since u start) rows)).cost_usd ≡ spent_since u start rows
unfolding aggregate spent_since
aggregate-spent u start period [] h = refl
aggregate-spent u start period (r ∷ rows) (now, later) =
    ground (arith, now, aggregate-spent u start period rows later)

abbrev pub sum_of : (UsagePeriod → ℕ) → List UsagePeriod → ℕ
sum_of f [] = 0
sum_of f (p ∷ days) = f p + sum_of f days

abbrev pub costs : List Request → ℕ
costs [] = 0
costs (r ∷ rows) = r.cost_usd + costs rows

-- The days follow one another.
abbrev pub Ascending : List UsagePeriod → Type 0
Ascending [] = Unit
Ascending (p ∷ days) = All (λ q. p.period < q.period) days × Ascending days

group-totals :
    (r : Request) (days : List UsagePeriod)
    → (sum_of (λ p. p.total_requests) (group_in r days) ≡ sum_of (λ p. p.total_requests) days + 1)
      × (sum_of (λ p. p.cost_usd) (group_in r days) ≡ r.cost_usd + sum_of (λ p. p.cost_usd) days)
group-totals r [] = (omega arith, omega arith)
group-totals r (p ∷ days) =
    (ground (arith, group-totals r days), ground (arith, group-totals r days))

group-later :
    (r : Request) (first : ℕ) (days : List UsagePeriod)
    → first < day_of r
    → All (λ q. first < q.period) days
    → All (λ q. first < q.period) (group_in r days)
group-later r first [] h a = (h, tt)
group-later r first (p ∷ days) h (now, later) =
    ground (arith, now, later, h, group-later r first days h later)

later_still :
    (a b : ℕ) (days : List UsagePeriod)
    → a < b
    → All (λ q. b < q.period) days
    → All (λ q. a < q.period) days
later_still a b [] h above = tt
later_still a b (q ∷ days) h (now, later) = (omega (arith, h, now), later_still a b days h later)

group-Ascending :
    (r : Request) (days : List UsagePeriod) → Ascending days → Ascending (group_in r days)
group-Ascending r [] h = (tt, tt)
group-Ascending r (p ∷ days) (now, later) = elim (Bool-cases (p.period == day_of r)) [
  | inl same ↦ rw same (now, later)
  | inr other ↦ elim (Bool-cases (ltb (day_of r) p.period)) [
    | inl before ↦
        let h : day_of r < p.period = ground (arith, before) in
        rw (other, before) (((h, later_still (day_of r) p.period days h now)), (now, later))
    | inr behind ↦
        let h : p.period < day_of r = ground (arith, other, behind) in
        rw (other, behind) (group-later r p.period days h now, group-Ascending r days later)
  ]
]

daily-totals :
    (rows : List Request)
    → (sum_of (λ p. p.total_requests) (daily rows) ≡ length rows)
      × (sum_of (λ p. p.cost_usd) (daily rows) ≡ costs rows)
unfolding daily
daily-totals [] = (refl, refl)
daily-totals (r ∷ rows) =
    let (totals, sums) = daily-totals rows in
    let (total, sum) = group-totals r (daily rows) in
    (omega (arith, totals, total), omega (arith, sums, sum))

daily-Ascending : (rows : List Request) → Ascending (daily rows)
unfolding daily
daily-Ascending [] = tt
daily-Ascending (r ∷ rows) = group-Ascending r (daily rows) (daily-Ascending rows)

-- What a user is shown agrees with the books: the month's cost is what the budget gate counts as
-- spent, with rows that cost nothing unless they succeeded. The days are in order, one entry each;
-- their requests add up to the user's rows since the 29th day before today, of any status, and
-- their costs to those rows' costs.
pub get_usage_lem :
    (now month_start : ℕ) (user : User) (rows : List Request)
    → Booked rows
    → let usage = get_usage now month_start user rows in
      let recent = filter (since user.id (thirty_days_ago now)) rows in
      (usage.this_month.cost_usd ≡ spent_since user.id month_start rows)
      × Ascending usage.last_30_days
      × (sum_of (λ p. p.total_requests) usage.last_30_days ≡ length recent)
      × (sum_of (λ p. p.cost_usd) usage.last_30_days ≡ costs recent)
unfolding get_usage
get_usage_lem now month_start user rows booked =
    let recent = filter (since user.id (thirty_days_ago now)) rows in
    (
      aggregate-spent user.id month_start month_start rows booked,
      daily-Ascending recent,
      (daily-totals recent).0,
      (daily-totals recent).1,
    )

group-ok :
    (r : Request) (days : List UsagePeriod)
    → All (λ p. p.ok_requests ≡ p.total_requests) days
    → All (λ p. p.ok_requests ≡ p.total_requests) (group_in r days)
group-ok r [] h = (refl, tt)
group-ok r (p ∷ days) (now, later) = ground (arith, now, later, group-ok r days later)

daily-ok : (rows : List Request) → All (λ p. p.ok_requests ≡ p.total_requests) (daily rows)
unfolding daily
daily-ok [] = tt
daily-ok (r ∷ rows) = group-ok r (daily rows) (daily-ok rows)

-- Every day's number of successful requests is the number of its requests, also of those that
-- failed.
pub daily_counts_errors :
    (now month_start : ℕ) (user : User) (rows : List Request)
    → All (λ p. p.ok_requests ≡ p.total_requests) (get_usage now month_start user rows).last_30_days
unfolding get_usage
daily_counts_errors now month_start user rows =
    daily-ok (filter (since user.id (thirty_days_ago now)) rows)

-- ===== src/Cost/Accounting.antt =====
-- The books: rows and balances agree, and what a row adds to the month's spending.
use gpu_relay.Common.{
  ℕ, ◌+◌, ◌≤◌, max, eq_refl, ◌≡◌, refl, none, some, List, ◌∷◌, arith, ◌⊎◌, inl, inr, true, false,
  ok, err, runtime_error, Bool-cases, if◌then◌else◌,
}
use gpu_relay.Models.{User, Request, RequestStatus}
use gpu_relay.Quota.Monthly.{spent_since}
use gpu_relay.Cost.{
  CostConfig, Call, has_error, is_prepaid, request_cost, request_row, charge, is_repeated,
  record_request, pod_cost,
}

-- The two ends of a recorded call. A key that the user has used before raises. Otherwise it adds one
-- row. What a prepaid user owes is its cost, a postpaid user nothing at once; the balance falls by
-- what is owed, and to 0 where it does not cover that. The user's id and monthly budget stay.
pub record_request_lem :
    (c : CostConfig) (call : Call) (u : User) (rs : List Request)
    → let row = request_row c call u in
      let owed = if is_prepaid u.billing_mode then row.cost_usd else 0 in
      ((is_repeated row rs ≡ true) × (record_request c call u rs ≡ err runtime_error))
      ⊎ ((is_repeated row rs ≡ false)
          × (record_request c call u rs ≡ ok (charge u (request_cost c call), row ∷ rs))
          × ((charge u (request_cost c call)).prepaid_balance_usd + owed
              ≡ max u.prepaid_balance_usd owed)
          × ((charge u (request_cost c call)).id ≡ u.id)
          × ((charge u (request_cost c call)).monthly_budget_usd ≡ u.monthly_budget_usd))
unfolding charge record_request
record_request_lem c call u rs = elim (Bool-cases (is_repeated (request_row c call u) rs)) [
  | inl e ↦ inl (e, rw (e, record_request) refl)
  | inr e ↦ inr (
    e,
    rw (e, record_request) refl,
    unfold request_row in ground arith,
    ground arith,
    ground arith,
  )
]

-- A row in the running period adds to what the quota counts as spent: its cost without an error,
-- nothing with an error message.
pub spent-request_row :
    (c : CostConfig) (call : Call) (u : User) (rs : List Request) (start : ℕ)
    → start ≤ call.now
    → spent_since u.id start (request_row c call u ∷ rs)
      ≡ (if has_error call.error_message then 0 else request_cost c call)
        + spent_since u.id start rs
unfolding request_row spent_since request_cost
spent-request_row c call u rs start h = ground (arith, eq_refl u.id)

-- An error whose message is the empty text is booked as a success, at the full cost.
pub empty_error_booked :
    (c : CostConfig) (call : Call) (u : User)
    → call.error_message ≡ some ""
    → (request_row c call u ≡ request_row c (record call { error_message = none }) u)
      × ((request_row c call u).status ≡ RequestStatus.ok)
unfolding request_row request_cost pod_cost
empty_error_booked c call u e = ground arith

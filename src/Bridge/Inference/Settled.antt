-- ===== src/Bridge/Inference/Settled.antt =====
-- What a request leaves behind, however its inference ends.
use gpu_relay.Common.{
  String, ◌≡◌, refl, ◌⊎◌, inl, inr, true, false, some, ◌∷◌, Result, Error, err, runtime_error,
  arith,
}
use gpu_relay.Models.{Request}
use gpu_relay.Instance.State.{World}
use gpu_relay.Cost.{
  CostConfig, Call, has_error, is_repeated, record_request, request_row, request_cost, charge,
}
use gpu_relay.Cost.Accounting.{record_request_lem}
use gpu_relay.Bridge.Inference.{Booking, Books, call_of, settled, run_inference}

-- The key was used before by the user: the request ends with that exception, and books nothing.
abbrev pub Refused : {A : Type 0} → Books → Request → Result A × Books → Type 0
Refused s row r =
    (is_repeated row s.requests ≡ true)
    × (r.0 ≡ err runtime_error)
    × (r.1.user ≡ s.user)
    × (r.1.requests ≡ s.requests)

-- Otherwise the row is booked, and its cost charged.
abbrev pub Settled : {A : Type 0} → Books → Request → Result A × Books → Type 0
Settled s row r =
    (is_repeated row s.requests ≡ false)
    × (r.1.requests ≡ row ∷ s.requests)
    × (r.1.user ≡ charge s.user row.cost_usd)

-- The `finally` block ends in one of the two ways, and leaves the world it is given.
pub settled-cases :
    {A : Type 0} (c : CostConfig) (call : Call) (w : World) (s : Books) (response : Result A)
    → let row = request_row c call s.user in
      let after = settled w s response (record_request c call s.user s.requests) in
      (after.1.world ≡ w) × (Refused s row after ⊎ (Settled s row after × (after.0 ≡ response)))
unfolding request_row
settled-cases c call w s response = elim (record_request_lem c call s.user s.requests) [
  | inl (e, h) ↦ rw (h) (refl, inl (e, refl, refl, refl))
  | inr (e, h, balance, id, budget) ↦ rw (h) (refl, inr ((e, refl, refl), refl))
]

-- A failed inference whose exception has a text costs the user nothing.
pub failed_inference_free :
    (c : CostConfig) (show : Error → String) (b : Booking) (e : Error) (s : Books)
    → has_error (some (show e)) ≡ true
    → (run_inference c show b (err e) s).1.user ≡ s.user
unfolding run_inference charge request_cost
failed_inference_free c show b e s h =
    elim (record_request_lem c (call_of show b (err e)) s.user s.requests) [
      | inl (key, raised) ↦ rw (raised) refl
      | inr (key, booked, balance, id, budget) ↦ rw (booked) (ground arith)
    ]

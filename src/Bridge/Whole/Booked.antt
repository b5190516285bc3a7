-- ===== src/Bridge/Whole/Booked.antt =====
-- What a request for a completion leaves behind, from its admission to its answer.
use gpu_relay.Common.{String, ◌≡◌, Option, Result, Error, err}
use gpu_relay.Models.{Request}
use gpu_relay.Redis.{Redis}
use gpu_relay.Instance.State.{World, active_count}
use gpu_relay.Bridge.Inference.{Books}
use gpu_relay.Bridge.Inference.Settled.{Settled}
use gpu_relay.Bridge.Payload.{Payload}

-- The request ended with an error, and neither the user nor the rows of requests have changed.
abbrev pub Unbooked : {A : Type 0} → Books → Result A × Books → Type 0
Unbooked s r = ((e : Error) × (r.0 ≡ err e)) × (r.1.user ≡ s.user) × (r.1.requests ≡ s.requests)

-- One row was booked and charged, with the user, the tier and the key, and the user had no row with
-- that key; all pods' counts are those of the world.
abbrev pub Booked :
    {A : Type 0} → Books → String → Option String → World → Result A × Books → Type 0
Booked s tier key w r =
    ((row : Request) × Settled s row r
      × (row.tier ≡ tier)
      × (row.user_id ≡ s.user.id)
      × (row.idempotency_key ≡ key))
    × ((j : String) → active_count r.1.world j ≡ active_count w j)

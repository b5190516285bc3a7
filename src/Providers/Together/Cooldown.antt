-- ===== src/Providers/Together/Cooldown.antt =====
-- How a launch ends, and what it leaves behind.
use gpu_relay.Common.{
  ℕ, ◌+◌, ◌≤◌, String, str_eq, ◌≡◌, refl, sym, subst, ◌⊎◌, inl, inr, Bool, true, false, List, [],
  ◌∷◌, lookup, Bool-cases, Option-cases, Result, Error, ok, err, key_error, provider_error, ltb,
  arith, if◌then◌else◌,
}
use gpu_relay.Instance.Spin.{PodInfo}
use gpu_relay.Providers.Together.{
  Api, Trace, Hardware, hardware_table, Created, endpoint, refused, unreadable, wait_for_running,
  pod_info, after_create, try_hardware, config_of, launch, capacity_cooldown_sec,
}

-- The three ends: a running endpoint; an error and no endpoint; an error behind the creation of an
-- endpoint that did not come up.
abbrev pub Ends : Api → ℕ → Trace → Result PodInfo × Trace → Type 0
Ends api later t r =
    ((info : PodInfo) × (r.0 ≡ ok info)
      × (r.1.created ≡ info.external_id ∷ t.created)
      × (wait_for_running (api.polls info.external_id) ≡ ok tt)
      × (r.1.capacity_miss_at ≡ t.capacity_miss_at))
    ⊎ (((e : Error) × (r.0 ≡ err e))
        × (r.1.created ≡ t.created)
        × ((r.1.capacity_miss_at ≡ t.capacity_miss_at) ⊎ (r.1.capacity_miss_at ≡ later)))
    ⊎ ((e : Error) × (id : String) × (r.0 ≡ err e)
        × (wait_for_running (api.polls id) ≡ err e)
        × (r.1.created ≡ id ∷ t.created)
        × (r.1.capacity_miss_at ≡ t.capacity_miss_at))

endpoint-Ends :
    (api : Api) (later : ℕ) (id model : String) (hw : Hardware) (t : Trace)
    (ready : Result (Unit {0}))
    → wait_for_running (api.polls id) ≡ ready
    → Ends api later t (pod_info id model hw ready, record t { created = id ∷ t.created })
endpoint-Ends api later id model hw t (ok tt) e = inl (_, refl, refl, e, refl)
endpoint-Ends api later id model hw t (err x) e = inr (inr (x, id, refl, e, refl, refl))

if-Ends :
    (api : Api) (later : ℕ) (t : Trace) (b : Bool) (r s : Result PodInfo × Trace)
    → Ends api later t r
    → Ends api later t s
    → Ends api later t (if b then r else s)
if-Ends api later t true r s hr hs = hr
if-Ends api later t false r s hr hs = hs

create-Ends :
    (api : Api) (later : ℕ) (model : String) (hw : Hardware) (t : Trace) (c : Created)
    (next : Result PodInfo × Trace)
    → Ends api later t next
    → Ends api later t (after_create api model hw t c next)
create-Ends api later model hw t (refused message) next h = h
create-Ends api later model hw t unreadable next h =
    inr (inl ((provider_error, refl), refl, inl refl))
create-Ends api later model hw t (endpoint id) next h =
    if-Ends api later t (str_eq id "") _ _ (inr (inl ((provider_error, refl), refl, inl refl)))
      (endpoint-Ends api later id model hw t (wait_for_running (api.polls id)) refl)

try_hardware-Ends :
    (api : Api) (later : ℕ) (model : String) (hws : List String) (t : Trace)
    → Ends api later t (try_hardware api later model hws t)
unfolding try_hardware
try_hardware-Ends api later model [] t = inr (inl ((provider_error, refl), refl, inr refl))
try_hardware-Ends api later model (h ∷ hws) t = elim (Option-cases (lookup h hardware_table)) [
  | inl e ↦ rw (e, try_hardware) (inr (inl ((key_error, refl), refl, inl refl)))
  | inr (hw, e) ↦
      rw (e, try_hardware)
        (create-Ends api later model hw (record t { tried = h ∷ t.tried }) (api.create model h) _
          (try_hardware-Ends api later model hws (record t { tried = h ∷ t.tried })))
]

-- Within ten minutes of the last miss a launch fails and calls nothing. Otherwise it creates at most
-- one endpoint: it gives the endpoint once that is running; or it fails and has created nothing; or
-- it fails because the endpoint that it has created does not come up, and then the endpoint is left
-- and the next launch is not held back.
pub launch_lem :
    (api : Api) (now later : ℕ) (tier : String) (t : Trace)
    → ((now + 1 ≤ t.capacity_miss_at + capacity_cooldown_sec)
        × (launch api now later tier t ≡ (err provider_error, t)))
      ⊎ ((t.capacity_miss_at + capacity_cooldown_sec ≤ now)
          × Ends api later t (launch api now later tier t))
unfolding launch
launch_lem api now later tier t =
    elim (Bool-cases (ltb now (t.capacity_miss_at + capacity_cooldown_sec))) [
      | inl cooling ↦ inl (ground arith, rw (cooling) refl)
      | inr warm ↦ inr (
        ground arith,
        subst
            (λ b. Ends api later t (
              if b
              then (err provider_error, t)
              else try_hardware api later (config_of tier).1 (config_of tier).0 t))
            (sym warm) (try_hardware-Ends api later (config_of tier).1 (config_of tier).0 t),
      )
    ]

-- ===== src/Instance/Tried.antt =====
-- The loop of `acquire` over the providers.
use gpu_relay.Common.{
  String, eq_refl, ◌≡◌, refl, some, List, [], ◌∷◌, lookup, lookup-insert, Result, Error, ◌⊎◌, none,
  ◌++◌, ok, err, ok-injective, Option-cases, inl, inr, arith, ap, subst, key_error, value_error,
  runtime_error, provider_error, volume_error, http,
}
use gpu_relay.Schemas.{PodHandle}
use gpu_relay.Instance.State.{World, Provider}
use gpu_relay.Instance.Acquire.{after_launch, try_providers}

module _ (launch : String → Provider → World → Result PodHandle × World) (tier : String) where
  -- The providers of the list fail one after the other, from the first world to the second: each one
  -- is not configured, or its launch raises, and another error than that of the storage policy.
  abbrev pub Failed : List String → World → World → Type 0
  Failed [] w v = w ≡ v
  Failed (name ∷ names) w v =
      ((lookup name w.providers ≡ none) × Failed names w v)
      ⊎ ((p : Provider) × (x : Error) × (between : World) × (lookup name w.providers ≡ some p)
          × (launch name p w ≡ (err x, between))
          × Failed names between v)

  -- The handle is that of a launch by a configured provider of the list, after all earlier ones have
  -- failed, and the cache has its id.
  abbrev pub Launched : List String → World → Result PodHandle × World → PodHandle → Type 0
  Launched names w r h =
      (earlier later : List String) × (name : String) × (p : Provider) × (before : World) × (names
        ≡ earlier ++ name ∷ later)
      × Failed earlier w before
      × (lookup name before.providers ≡ some p)
      × ((launch name p before).0 ≡ ok h)
      × (lookup tier r.1.pods ≡ some h.pod_id)

  missing-later :
      (name : String) (names : List String) (w : World) (r : Result PodHandle × World)
      (h : PodHandle)
      → lookup name w.providers ≡ none
      → Launched names w r h
      → Launched (name ∷ names) w r h
  missing-later name names w r h none_there
        (es, ls, n, p, before, parts, failed, known, done, cached) =
      (
        name ∷ es,
        ls,
        n,
        p,
        before,
        ap (◌∷◌ name) parts,
        inl (none_there, failed),
        known,
        done,
        cached,
      )

  failed-later :
      (name : String) (names : List String) (w v : World) (r : Result PodHandle × World)
      (h : PodHandle) (p : Provider) (x : Error)
      → lookup name w.providers ≡ some p
      → launch name p w ≡ (err x, v)
      → Launched names v r h
      → Launched (name ∷ names) w r h
  failed-later name names w v r h p x known raised
        (es, ls, n, q, before, parts, failed, there, done, cached) =
      (
        name ∷ es,
        ls,
        n,
        q,
        before,
        ap (◌∷◌ name) parts,
        inr (p, x, v, known, raised, failed),
        there,
        done,
        cached,
      )

  after :
      (name : String) (names : List String) (p : Provider) (w : World)
      (r : Result PodHandle × World) (next : World → Result PodHandle × World) (h : PodHandle)
      → lookup name w.providers ≡ some p
      → launch name p w ≡ r
      → ((w' : World) → (next w').0 ≡ ok h → Launched names w' (next w') h)
      → (after_launch tier r next).0 ≡ ok h
      → Launched (name ∷ names) w (after_launch tier r next) h
  after name names p w (ok g, w') next h known e more done =
      subst (λ x. Launched (name ∷ names) w (after_launch tier (ok g, w') next) x)
        (ok-injective done)
        (
          [],
          names,
          name,
          p,
          w,
          refl,
          refl,
          known,
          ap (λ (x : Result PodHandle × World). x.0) e,
          ground (arith, lookup-insert tier tier g.pod_id w'.pods, eq_refl tier),
        )
  after name names p w (err volume_error, w') next h known e more done = cc
  after name names p w (err (http n), w') next h known e more done =
      failed-later name names w w' (next w') h p _ known e (more w' done)
  after name names p w (err key_error, w') next h known e more done =
      failed-later name names w w' (next w') h p _ known e (more w' done)
  after name names p w (err value_error, w') next h known e more done =
      failed-later name names w w' (next w') h p _ known e (more w' done)
  after name names p w (err runtime_error, w') next h known e more done =
      failed-later name names w w' (next w') h p _ known e (more w' done)
  after name names p w (err provider_error, w') next h known e more done =
      failed-later name names w w' (next w') h p _ known e (more w' done)

-- A handle that the loop over the providers returns is that of the first provider of the list whose
-- launch succeeds, and from then on the tier's cache entry is that pod.
pub try_providers-Launched :
    (launch : String → Provider → World → Result PodHandle × World) (tier : String)
    (names : List String) (w : World) (h : PodHandle)
    → (try_providers launch tier names w).0 ≡ ok h
    → Launched launch tier names w (try_providers launch tier names w) h
unfolding try_providers
try_providers-Launched launch tier [] w h e = cc
try_providers-Launched launch tier (name ∷ names) w h e =
    elim (Option-cases (lookup name w.providers)) [
      | inl missing ↦
          rw (missing, try_providers)
            (missing-later launch tier name names w (try_providers launch tier names w) h missing
              (try_providers-Launched launch tier names w h (rw (missing, try_providers) at e)))
      | inr (p, known) ↦
          rw (known, try_providers)
            (after launch tier name names p w (launch name p w)
              (λ w'. try_providers launch tier names w') h known refl
              (λ w' done. try_providers-Launched launch tier names w' h done)
              (rw (known, try_providers) at e))
    ]

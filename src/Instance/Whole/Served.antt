-- ===== src/Instance/Whole/Served.antt =====
-- What `acquire` hands out, and that a wait ends when a pod is ready.
use gpu_relay.Common.{
  ℕ, String, eq_refl, ◌≡◌, refl, ◌⊎◌, inl, inr, false, none, some, List, [], ◌∷◌, ◌++◌, contains,
  lookup, insert, lookup-insert, Result, ok, Option-cases, Bool-cases, ok-injective, ap, sym, subst,
  ◌∙◌,
}
use gpu_relay.Models.{Pod}
use gpu_relay.Schemas.{PodHandle}
use gpu_relay.Instance.State.{
  World, Settings, Picker, Provider, get_ready_pod, get_in_progress_pod, handle,
}
use gpu_relay.Instance.Acquire.{Wish, found, wait, spin, poll, claim, spin_tier, discard, priority}
use gpu_relay.Instance.Tried.{Launched, try_providers-Launched}
use gpu_relay.Instance.Whole.{wait_for_pod, after_claim, after_poll, acquire}

-- The handle is that of the ready pod that the query picks from the table of a world, and the cache
-- of that world has its id for the tier.
abbrev pub Picked : Picker → Wish → World → PodHandle → Type 0
Picked k q w h =
    (row : Pod) × (get_ready_pod k q.tier q.provider_override q.disabled_providers w.db ≡ some row)
    × (h ≡ handle row false)
    × (lookup q.tier w.pods ≡ some h.pod_id)

-- Two ways to get a handle. It is that of the ready pod which the query picks from the table of the
-- world that the call leaves. Or the claim, from the world that it starts from, is to launch, and it
-- is the handle of the first provider in the order of `priority` whose launch succeeds. The cache has
-- its id for the tier.
abbrev pub Served :
    (String → Provider → World → Result PodHandle × World)
    → Picker
    → Settings
    → ℕ
    → List String
    → Wish
    → World
    → Result PodHandle × World
    → PodHandle
    → Type 0
Served launch k s now overrides q claimed r h =
    Picked k q r.1 h
    ⊎ ((v : World) × (claim k s now q claimed ≡ (spin, v))
        × Launched launch q.tier (priority s overrides q v.providers) v r h)

poll-cases :
    (k : Picker) (q : Wish) (w : World)
    → ((row : Pod) × (w' : World) × (get_ready_pod k q.tier q.provider_override q.disabled_providers
            w.db
          ≡ some row)
        × (poll k q w ≡ (found (handle row false), w'))
        × Picked k q w' (handle row false))
      ⊎ ((poll k q w ≡ (wait, w))
          × (get_ready_pod k q.tier q.provider_override q.disabled_providers w.db ≡ none))
unfolding poll handle
poll-cases k q w =
    elim (Option-cases (get_ready_pod k q.tier q.provider_override q.disabled_providers w.db)) [
      | inl e ↦ inr (rw (e, poll) refl, e)
      | inr (row, e) ↦ inl (
        row,
        record w { pods = insert q.tier row.id w.pods },
        e,
        rw (e, poll) refl,
        (row, e, refl, rw (lookup-insert q.tier q.tier row.id w.pods, eq_refl q.tier) refl),
      )
    ]

wait-found :
    (k : Picker) (q : Wish) (rounds : List (World → World)) (others : World → World) (w : World)
    (h : PodHandle) (w' : World)
    → poll k q (others w) ≡ (found h, w')
    → wait_for_pod k q (others ∷ rounds) w ≡ (ok h, w')
unfolding wait_for_pod
wait-found k q rounds others w h w' e = ap (after_poll (λ v. wait_for_pod k q rounds v)) e

wait-wait :
    (k : Picker) (q : Wish) (rounds : List (World → World)) (others : World → World) (w : World)
    → poll k q (others w) ≡ (wait, others w)
    → wait_for_pod k q (others ∷ rounds) w ≡ wait_for_pod k q rounds (others w)
unfolding wait_for_pod
wait-wait k q rounds others w e = ap (after_poll (λ v. wait_for_pod k q rounds v)) e

abbrev pub run_all : List (World → World) → World → World
run_all [] w = w
run_all (f ∷ fs) w = run_all fs (f w)

-- The wait ends in the first round at whose end the query picks a pod, with that pod's handle.
abbrev pub FirstReady : Picker → Wish → List (World → World) → World → PodHandle → Type 0
FirstReady k q [] w h = ⊥
FirstReady k q (f ∷ rounds) w h =
    ((row : Pod) × (get_ready_pod k q.tier q.provider_override q.disabled_providers (f w).db
        ≡ some row)
      × (h ≡ handle row false))
    ⊎ ((get_ready_pod k q.tier q.provider_override q.disabled_providers (f w).db ≡ none)
        × FirstReady k q rounds (f w) h)

-- Where at the end of some round a pod is ready that the query picks, the wait gives the handle of the
-- pod that is picked at the end of the first such round, whatever happens in later rounds.
pub wait_for_pod-live :
    (k : Picker) (q : Wish) (before after : List (World → World)) (others : World → World)
    (w : World) (row : Pod)
    → get_ready_pod k q.tier q.provider_override q.disabled_providers (others (run_all before w)).db
      ≡ some row
    → (h : PodHandle) × ((wait_for_pod k q (before ++ others ∷ after) w).0 ≡ ok h)
      × FirstReady k q (before ++ others ∷ []) w h
wait_for_pod-live k q [] after others w row ready = elim (poll-cases k q (others w)) [
  | inl (row', w', there, e, picked) ↦ (
    handle row' false,
    ap (λ (r : Result PodHandle × World). r.0)
        (wait-found k q after others w (handle row' false) w' e),
    inl (row', there, refl),
  )
  | inr (e, missing) ↦ cc
]
wait_for_pod-live k q (f ∷ before) after others w row ready = elim (poll-cases k q (f w)) [
  | inl (row', w', there, e, picked) ↦ (
    handle row' false,
    ap (λ (r : Result PodHandle × World). r.0)
        (wait-found k q (before ++ others ∷ after) f w (handle row' false) w' e),
    inl (row', there, refl),
  )
  | inr (e, missing) ↦
      let (h, done, first) = wait_for_pod-live k q before after others (f w) row ready in
      (
        h,
        ap (λ (r : Result PodHandle × World). r.0) (wait-wait k q (before ++ others ∷ after) f w e)
            ∙ done,
        inr (missing, first),
      )
]

abbrev Shown : Picker → Wish → PodHandle → Result PodHandle × World → Type 0
Shown k q h r = Picked k q r.1 h

wait-Picked :
    (k : Picker) (q : Wish) (rounds : List (World → World)) (w : World) (h : PodHandle)
    → (wait_for_pod k q rounds w).0 ≡ ok h
    → Picked k q (wait_for_pod k q rounds w).1 h
unfolding wait_for_pod
wait-Picked k q [] w h e = cc
wait-Picked k q (f ∷ rounds) w h e = elim (poll-cases k q (f w)) [
  | inl (row, w', there, p, picked) ↦
      let same : handle row false ≡ h = ok-injective (
        ap (λ (r : Result PodHandle × World). r.0)
          (sym (wait-found k q rounds f w (handle row false) w' p))
        ∙ e) in
      subst (Shown k q h) (sym (wait-found k q rounds f w (handle row false) w' p))
        (subst (λ x. Picked k q w' x) same picked)
  | inr (p, missing) ↦
      let on = wait-wait k q rounds f w p in
      subst (Shown k q h) (sym on)
        (wait-Picked k q rounds (f w) h (ap (λ (r : Result PodHandle × World). r.0) (sym on) ∙ e))
]

-- The ends of the section under the lock.
claim-cases :
    (k : Picker) (s : Settings) (now : ℕ) (q : Wish) (w : World)
    → ((row : Pod) × (w' : World) × (claim k s now q w ≡ (found (handle row false), w'))
        × Picked k q w' (handle row false))
      ⊎ ((v : World) × (claim k s now q w ≡ (spin, v)))
      ⊎ (claim k s now q w ≡ (wait, w))
unfolding claim handle
claim-cases k s now q w =
    elim (Option-cases (get_ready_pod k q.tier q.provider_override q.disabled_providers w.db)) [
      | inr (row, e) ↦ inl (
        row,
        record w { pods = insert q.tier row.id w.pods },
        rw (e, claim) refl,
        (row, e, refl, rw (lookup-insert q.tier q.tier row.id w.pods, eq_refl q.tier) refl),
      )
      | inl e ↦ elim (Option-cases (get_in_progress_pod k s now q.tier q.disabled_providers w.db)) [
        | inr (row, f) ↦ inr (inr (rw (e, f, claim) refl))
        | inl f ↦ elim (Bool-cases (contains q.tier w.spinning_tiers)) [
          | inl g ↦ inr (inr (rw (e, f, g, claim) refl))
          | inr g ↦ inr (inl ((claim k s now q w).1, rw (e, f, g, claim) refl))
        ]
      ]
    ]

module _ (k : Picker) (s : Settings) (now : ℕ)
    (launch : String → Provider → World → Result PodHandle × World) (overrides : List String)
    (rounds : List (World → World)) (q : Wish) (claimed : World) (h : PodHandle) where
  found-ok :
      (g : PodHandle) (w : World)
      → Picked k q w g
      → g ≡ h
      → Served launch k s now overrides q claimed (ok g, w) h
  found-ok g w picked same =
      subst (λ x. Served launch k s now overrides q claimed (ok g, w) x) same (inl picked)

  spin-ok :
      (v : World)
      → claim k s now q claimed ≡ (spin, v)
      → (spin_tier launch s overrides q v).0 ≡ ok h
      → Served launch k s now overrides q claimed (spin_tier launch s overrides q v) h
  unfolding spin_tier discard
  spin-ok v c e =
      inr (v, c, try_providers-Launched launch q.tier (priority s overrides q v.providers) v h e)

  claim-ok :
      (after_claim k s launch overrides rounds q (claim k s now q claimed)).0 ≡ ok h
      → Served launch k s now overrides q claimed
          (after_claim k s launch overrides rounds q (claim k s now q claimed))
          h
  claim-ok e = elim (claim-cases k s now q claimed) [
    | inl (row, w', c, picked) ↦
        let step = ap (λ r. after_claim k s launch overrides rounds q r) c in
        subst (λ r. Served launch k s now overrides q claimed r h) (sym step)
          (found-ok (handle row false) w' picked
            (ok-injective (ap (λ (r : Result PodHandle × World). r.0) (sym step) ∙ e)))
    | inr (inl (v, c)) ↦
        let step = ap (λ r. after_claim k s launch overrides rounds q r) c in
        subst (λ r. Served launch k s now overrides q claimed r h) (sym step)
          (spin-ok v c (ap (λ (r : Result PodHandle × World). r.0) (sym step) ∙ e))
    | inr (inr c) ↦
        let step = ap (λ r. after_claim k s launch overrides rounds q r) c in
        subst (λ r. Served launch k s now overrides q claimed r h) (sym step)
          (inl (
            wait-Picked k q rounds claimed h
              (ap (λ (r : Result PodHandle × World). r.0) (sym step) ∙ e)))
  ]

-- A handle that `acquire` returns, whatever the other coroutines do meanwhile, is one of two things.
-- Either that of the ready pod which the query, with the tier, the provider and the disabled
-- providers of the wish, picks from the table of the world that the call leaves. Or the claim, from
-- the world that the others have left, is to launch, and the handle is that of the first provider in
-- the order of `priority` whose launch succeeds, after each earlier one was not configured or its
-- launch has raised. Either way the tier's entry in the cache is that pod.
pub acquire-Served :
    (k : Picker) (s : Settings) (now : ℕ)
    (launch : String → Provider → World → Result PodHandle × World) (overrides : List String)
    (others : World → World) (rounds : List (World → World)) (q : Wish) (w : World) (h : PodHandle)
    → (acquire k s now launch overrides others rounds q w).0 ≡ ok h
    → Served launch k s now overrides q
        (others w)
        (acquire k s now launch overrides others rounds q w)
        h
unfolding acquire
acquire-Served k s now launch overrides others rounds q w h e = elim (poll-cases k q w) [
  | inl (row, w', there, p, picked) ↦
      let step =
        ap
          (after_poll (λ v. after_claim k s launch overrides rounds q (claim k s now q (others v))))
          p in
      subst (λ r. Served launch k s now overrides q (others w) r h) (sym step)
        (found-ok k s now launch overrides rounds q (others w) h (handle row false) w' picked
          (ok-injective (ap (λ (r : Result PodHandle × World). r.0) (sym step) ∙ e)))
  | inr (p, missing) ↦
      let step =
        ap
          (after_poll (λ v. after_claim k s launch overrides rounds q (claim k s now q (others v))))
          p in
      subst (λ r. Served launch k s now overrides q (others w) r h) (sym step)
        (claim-ok k s now launch overrides rounds q (others w) h
          (ap (λ (r : Result PodHandle × World). r.0) (sym step) ∙ e))
]

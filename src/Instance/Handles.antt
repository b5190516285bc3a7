-- ===== src/Instance/Handles.antt =====
-- What a section of `acquire` promises.
use gpu_relay.Common.{
  ℕ, String, eq_refl, ◌≡◌, refl, ◌⊎◌, true, false, Option, none, some, List, [], filter, filter-All,
  contains, lookup, Option-cases, Bool-cases, inl, inr, lookup-insert,
}
use gpu_relay.Models.{Pod}
use gpu_relay.Instance.State.{
  World, Settings, Picker, ready_for, in_progress_for, get_ready_pod, get_in_progress_pod, handle,
}
use gpu_relay.Instance.Acquire.{Wish, found, wait, spin, claim}

-- A picked row is one that the query selects.
pub ready-picked :
    (k : Picker) (tier : String) (provider : Option String) (excluded : List String) (db : List Pod)
    (row : Pod)
    → get_ready_pod k tier provider excluded db ≡ some row
    → ready_for tier provider excluded row ≡ true
unfolding get_ready_pod
ready-picked k tier provider excluded db row e =
    k.pick-all (ready_for tier provider excluded) _ row
      (filter-All (ready_for tier provider excluded) db) e

no_ready :
    (k : Picker) (q : Wish) (w : World)
    → get_ready_pod k q.tier q.provider_override q.disabled_providers w.db ≡ none
    → filter (ready_for q.tier q.provider_override q.disabled_providers) w.db ≡ []
unfolding get_ready_pod
no_ready k q w e = k.pick-none _ e

no_launch :
    (k : Picker) (s : Settings) (now : ℕ) (q : Wish) (w : World)
    → get_in_progress_pod k s now q.tier q.disabled_providers w.db ≡ none
    → filter (in_progress_for s now q.tier q.disabled_providers) w.db ≡ []
unfolding get_in_progress_pod
no_launch k s now q w e = k.pick-none _ e

-- The section under the lock, on each of its three ends. A handle is that of a ready pod of the
-- tier which the user's providers allow, and the cache points to it. The right to launch is given
-- only if there is no such pod, no launch in the database and none in this process, and it marks
-- the tier. Otherwise nothing changes.
pub claim_lem :
    (k : Picker) (s : Settings) (now : ℕ) (q : Wish) (w : World)
    → ((row : Pod) × (ready_for q.tier q.provider_override q.disabled_providers row ≡ true)
        × ((claim k s now q w).0 ≡ found (handle row false))
        × (lookup q.tier (claim k s now q w).1.pods ≡ some row.id))
      ⊎ (((claim k s now q w).0 ≡ spin)
          × (filter (ready_for q.tier q.provider_override q.disabled_providers) w.db ≡ [])
          × (filter (in_progress_for s now q.tier q.disabled_providers) w.db ≡ [])
          × (contains q.tier w.spinning_tiers ≡ false)
          × (contains q.tier (claim k s now q w).1.spinning_tiers ≡ true))
      ⊎ (claim k s now q w ≡ (wait, w))
unfolding claim
claim_lem k s now q w =
    elim (Option-cases (get_ready_pod k q.tier q.provider_override q.disabled_providers w.db)) [
      | inr (row, e) ↦ inl (
        row,
        ready-picked k q.tier q.provider_override q.disabled_providers w.db row e,
        rw (e, claim) refl,
        rw (e, claim) (rw (lookup-insert q.tier q.tier row.id w.pods, eq_refl q.tier) refl),
      )
      | inl e ↦ elim (Option-cases (get_in_progress_pod k s now q.tier q.disabled_providers w.db)) [
        | inr (row, f) ↦ inr (inr (rw (e, f, claim) refl))
        | inl f ↦ elim (Bool-cases (contains q.tier w.spinning_tiers)) [
          | inl g ↦ inr (inr (rw (e, f, g, claim) refl))
          | inr g ↦ inr (
              inl (
                rw (e, f, g, claim) refl,
                no_ready k q w e,
                no_launch k s now q w f,
                g,
                rw (e, f, g, eq_refl q.tier, claim) refl,
              ))
        ]
      ]
    ]

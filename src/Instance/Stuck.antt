-- ===== src/Instance/Stuck.antt =====
-- Launches that end before the pod is ready, and what they leave behind.
use gpu_relay.Common.{
  ℕ, ◌+◌, ◌≤◌, String, str_eq, eq_refl, ◌≡◌, refl, subst, true, false, Option, none, some, List,
  ◌∷◌, filter, contains, Error, ok, err, volume_error, le→leb, arith, Option-cases, inl, inr,
}
use gpu_relay.Models.{User, Pod, PodStatus, NoVolumePolicy}
use gpu_relay.Instance.State.{
  World, Settings, Picker, Provider, get_ready_pod, get_in_progress_pod, get_pod, ready_for,
  in_progress_for, update_pod,
}
use gpu_relay.Instance.Acquire.{Wish, wait, claim}
use gpu_relay.Instance.Spin.{
  Owner, Outside, PodInfo, Volume, spin_pod, resolve_user_volume, make_ready, new_row, is_api,
  of_user,
}

rejected :
    (s : Settings) (name : String) (o : Owner) (u : User)
    → o.user ≡ some u
    → o.volume_key ≡ none
    → u.no_volume_policy ≡ some NoVolumePolicy.block
    → resolve_user_volume s name (some o) ≡ err volume_error
unfolding resolve_user_volume
rejected s name o u user key block = rw (key, user, block, resolve_user_volume, of_user) refl

-- The row of a launch is not a ready one, and it is one in progress until the timeout.
new-not-ready :
    (out : Outside) (name tier wanted : String) (provider : Option String) (excluded : List String)
    → ready_for wanted provider excluded (new_row out name tier) ≡ false
unfolding ready_for new_row
new-not-ready out name tier wanted provider excluded = ground arith

new-in_progress :
    (s : Settings) (now : ℕ) (out : Outside) (name tier : String) (excluded : List String)
    → contains name excluded ≡ false
    → now ≤ out.started + s.cold_start_timeout_sec
    → in_progress_for s now tier excluded (new_row out name tier) ≡ true
unfolding in_progress_for new_row
new-in_progress s now out name tier excluded allowed soon =
    rw (eq_refl tier, allowed, le→leb _ _ soon) refl

still-no-ready :
    (k : Picker) (q : Wish) (out : Outside) (name tier : String) (db : List Pod)
    → get_ready_pod k q.tier q.provider_override q.disabled_providers db ≡ none
    → get_ready_pod k q.tier q.provider_override q.disabled_providers (new_row out name tier ∷ db)
      ≡ none
unfolding get_ready_pod
still-no-ready k q out name tier db h =
    rw (new-not-ready out name tier q.tier q.provider_override q.disabled_providers, get_ready_pod)
      h

pick-some : (k : Picker) (row : Pod) (rows : List Pod) → (p : Pod) × (k.pick (row ∷ rows) ≡ some p)
pick-some k row rows = elim (Option-cases (k.pick (row ∷ rows))) [
  | inl e ↦ let gone = k.pick-none (row ∷ rows) e in cc
  | inr p ↦ p
]

seen-in-progress :
    (k : Picker) (s : Settings) (now : ℕ) (tier : String) (excluded : List String) (row : Pod)
    (db : List Pod)
    → in_progress_for s now tier excluded row ≡ true
    → (p : Pod) × (get_in_progress_pod k s now tier excluded (row ∷ db) ≡ some p)
unfolding get_in_progress_pod
seen-in-progress k s now tier excluded row db h =
    rw (h, get_in_progress_pod) (pick-some k row (filter (in_progress_for s now tier excluded) db))

get-updated :
    (id : String) (f : Pod → Pod) (row : Pod) (db : List Pod)
    → str_eq row.id id ≡ true
    → str_eq (f row).id id ≡ true
    → get_pod (update_pod id f (row ∷ db)) id ≡ some (f row)
unfolding get_pod update_pod
get-updated id f row db h g = rw (h, g) refl

waits :
    (k : Picker) (s : Settings) (now : ℕ) (q : Wish) (w : World) (p : Pod)
    → get_ready_pod k q.tier q.provider_override q.disabled_providers w.db ≡ none
    → get_in_progress_pod k s now q.tier q.disabled_providers w.db ≡ some p
    → claim k s now q w ≡ (wait, w)
unfolding claim
waits k s now q w p e f = rw (e, f, claim) refl

-- A launch of a pod that the storage policy of its user rejects fails and leaves its row in the
-- table. In the world that it leaves, where no pod was ready before for the wish, and until the cold
-- start timeout has passed, the claim of any wish for that tier which does not exclude the provider,
-- whoever's wish it is, is told to wait, and changes nothing.
pub rejected_launch_stalls :
    (s : Settings) (o : Owner) (u : User) (out : Outside) (tier name : String) (p : Provider)
    (w : World) (k : Picker) (q : Wish) (now : ℕ)
    → is_api p.provider_type ≡ false
    → o.user ≡ some u
    → o.volume_key ≡ none
    → u.no_volume_policy ≡ some NoVolumePolicy.block
    → q.tier ≡ tier
    → contains name q.disabled_providers ≡ false
    → get_ready_pod k q.tier q.provider_override q.disabled_providers w.db ≡ none
    → now ≤ out.started + s.cold_start_timeout_sec
    → let (r, w') = spin_pod s (some o) out tier name p w in
      (r ≡ err volume_error) × (claim k s now q w' ≡ (wait, w'))
unfolding spin_pod
rejected_launch_stalls s o u out tier name p w k q now api user key block same allowed no_ready
      soon =
    rw (api, rejected s name o u user key block)
      (
        refl,
        subst
            (λ t.
              claim k s now q (record w { db = new_row out name t ∷ w.db })
              ≡ (wait, record w { db = new_row out name t ∷ w.db }))
            same
            (let (seen, f) =
                seen-in-progress k s now q.tier q.disabled_providers (new_row out name q.tier) w.db
                  (new-in_progress s now out name q.tier q.disabled_providers allowed soon) in
              waits k s now q (record w { db = new_row out name q.tier ∷ w.db }) seen
                (still-no-ready k q out name q.tier w.db no_ready) f),
      )

-- A pod that the provider has launched but that does not become ready, or whose model cannot be
-- pulled, is left running: the launch fails, no provider is told to terminate anything, and the
-- row stays "starting", with the pod's id.
pub unready_pod_left_running :
    (s : Settings) (owner : Option Owner) (out : Outside) (tier name : String) (p : Provider)
    (w : World) (v : Volume) (info : PodInfo) (e : Error)
    → is_api p.provider_type ≡ false
    → resolve_user_volume s name owner ≡ ok v
    → out.launch v ≡ ok info
    → make_ready p out info ≡ err e
    → let (r, w') = spin_pod s owner out tier name p w in
      (r ≡ err e)
      × (w'.terminations ≡ w.terminations)
      × (row : Pod) × (get_pod w'.db out.new_id ≡ some row)
      × (row.status ≡ PodStatus.starting)
      × (row.external_id ≡ info.external_id)
unfolding spin_pod new_row
unready_pod_left_running s owner out tier name p w v info e api vol launched slow =
    rw (api, vol, launched, slow)
      (
        refl,
        refl,
        _,
        get-updated out.new_id _ _ w.db (eq_refl out.new_id) (eq_refl out.new_id),
        refl,
        refl,
      )

-- ===== src/Routes/Admin/Killed.antt =====
-- A killed pod: what the kill leaves, and what a launch that is still under way makes of it.
use gpu_relay.Common.{
  ℕ, String, str_eq, eq_iff, ◌≡◌, refl, sym, ap, subst, Bool, true, false, not, ◌&&◌, Option, some,
  List, [], ◌∷◌, filter, All, ok, arith, inl, inr, Bool-cases, Option-cases,
}
use gpu_relay.Models.{Pod, PodStatus}
use gpu_relay.Schemas.{PodHandle}
use gpu_relay.Instance.State.{
  World, Picker, get_ready_pod, ready_for, is_ready, get_pod, update_pod,
}
use gpu_relay.Instance.Handles.{ready-picked}
use gpu_relay.Instance.Loops.{end_row}
use gpu_relay.Instance.Spin.{Outside, PodInfo, finish}
use gpu_relay.Routes.Admin.{admin_kill_pod, kill_row}

abbrev apart : String → Pod → Bool
apart id row = not (str_eq row.id id && is_ready row.status)

ended-apart :
    (id : String) (now : ℕ) (p : Pod → Bool) (db : List Pod)
    → All (λ row. apart id row ≡ true) (filter p (update_pod id (end_row now) db))
unfolding update_pod
ended-apart id now p [] = tt
ended-apart id now p (row ∷ db) = ground (arith, ended-apart id now p db)

found-id :
    (db : List Pod) (id : String) (pod : Pod) → get_pod db id ≡ some pod → str_eq pod.id id ≡ true
unfolding get_pod
found-id [] id pod e = cc
found-id (row ∷ db) id pod e = ground (arith, found-id db id pod)

get-update :
    (db : List Pod) (id : String) (pod : Pod) (f : Pod → Pod)
    → ((p : Pod) → (f p).id ≡ p.id)
    → get_pod db id ≡ some pod
    → get_pod (update_pod id f db) id ≡ some (f pod)
unfolding get_pod update_pod
get-update [] id pod f keeps e = cc
get-update (row ∷ db) id pod f keeps e = elim (Bool-cases (str_eq row.id id)) [
  | inl y ↦
      let same : row ≡ pod = cc (rw y at e) in
      let held : str_eq (f row).id id ≡ true = rw (keeps row) y in
      rw (y, held) (ap (λ p. some (f p)) same)
  | inr n ↦ rw (n, n) (get-update db id pod f keeps (rw n at e))
]

-- In the world that an administrator's kill of a pod leaves, no query for a ready pod answers that
-- pod, whatever the tier, the provider and the excluded providers.
pub killed_never_picked :
    (k : Picker) (pod_id : String) (now : ℕ) (w w' : World) (tier : String)
    (provider : Option String) (excluded : List String) (row : Pod)
    → admin_kill_pod pod_id now w ≡ (ok tt, w')
    → get_ready_pod k tier provider excluded w'.db ≡ some row
    → str_eq row.id pod_id ≡ false
unfolding admin_kill_pod get_ready_pod ready_for
killed_never_picked k pod_id now w w' tier provider excluded row e picked =
    elim (Option-cases (get_pod w.db pod_id)) [
      | inl missing ↦ cc (rw (missing, admin_kill_pod) at e)
      | inr (pod, found) ↦
          let same : kill_row now pod w ≡ w' = cc (rw (found, admin_kill_pod) at e) in
          let here : get_ready_pod k tier provider excluded (kill_row now pod w).db ≡ some row =
            subst (λ v. get_ready_pod k tier provider excluded v.db ≡ some row) (sym same) picked in
          let gone =
            k.pick-all (apart pod.id) _ row
              (ended-apart pod.id now (ready_for tier provider excluded) w.db) here in
          let ready = ready-picked k tier provider excluded w'.db row picked in
          ground (arith, gone, ready, found-id w.db pod_id pod found, eq_iff pod.id pod_id)
    ]

-- A pod is killed while its launch waits for it to become ready, and its readiness check and the
-- pull of its model, which end after the kill, succeed nevertheless. Then the launch hands the pod
-- out, and its row has the status "ready" and the time of its termination.
pub killed_launch_revived :
    (o : Outside) (name tier : String) (info : PodInfo) (now : ℕ) (w : World) (pod : Pod)
    → get_pod w.db o.new_id ≡ some pod
    → let killed = admin_kill_pod o.new_id now w in
      let after = finish o name tier info killed.1 (ok tt) in
      (killed.0 ≡ ok tt)
      × ((handle : PodHandle) × (after.0 ≡ ok handle) × (handle.pod_id ≡ o.new_id))
      × ((row : Pod) × (get_pod after.1.db o.new_id ≡ some row)
          × (row.status ≡ PodStatus.ready)
          × (row.terminated_at ≡ some now))
unfolding admin_kill_pod
killed_launch_revived o name tier info now w pod e =
    let same : pod.id ≡ o.new_id = (eq_iff pod.id o.new_id).0 (found-id w.db o.new_id pod e) in
    let ended = get-update w.db o.new_id pod (end_row now) (λ p. refl) e in
    rw (e, admin_kill_pod)
      (
        refl,
        (_, refl, refl),
        (
          _,
          get-update _ o.new_id (end_row now pod) _ (λ p. refl)
              (subst
                (λ i. get_pod (update_pod i (end_row now) w.db) o.new_id ≡ some (end_row now pod))
                (sym same) ended),
          refl,
          refl,
        ),
      )

-- ===== src/Instance/Reaped.antt =====
-- The idle reaper, the counts of the requests in flight, and the cleanups at start and stop.
use gpu_relay.Common.{
  ℕ, ◌+◌, ◌-◌, ◌<◌, String, str_eq, eq_iff, eq_refl, ◌≡◌, refl, ap, ◌∙◌, Bool, true, false, not,
  Option, none, some, List, [], ◌∷◌, filter, map, Dict, lookup, lookup-insert, arith, if◌then◌else◌,
  ltb, inl, inr, Bool-cases,
}
use gpu_relay.Models.{Pod, PodStatus}
use gpu_relay.Router.Tiers.{TierCfg}
use gpu_relay.Instance.State.{
  World, Provider, is_ready, is_launching, get_pod, update_pod, active_count, mark_active, release,
}
use gpu_relay.Instance.Loops.{
  idles, Meanwhile, reap_commit, reap_evict, after_commit, reap_one, reap_all, reaper_round,
  end_row, fail_launching, running, stop, stop_row, runs_pods, runs_local_or_api, start_cleanup,
  cleanup_stale_pods, reset_api_provider_pods, cleanup_dedicated_pods,
}

abbrev pub is_launching_row : Pod → Bool
is_launching_row row = is_launching row.status

mark-count :
    (id j : String) (w : World)
    → active_count (mark_active id w) j
      ≡ (if str_eq id j then active_count w id + 1 else active_count w j)
unfolding active_count mark_active
mark-count id j w = ground (arith, lookup-insert id j (active_count w id + 1) w.active_requests)

release-count :
    (now : ℕ) (id j : String) (w : World)
    → active_count (release now id w) j
      ≡ (if str_eq id j then active_count w id - 1 else active_count w j)
unfolding active_count release
release-count now id j w =
    ground (arith, lookup-insert id j (active_count w id - 1) w.active_requests)

-- A request that ends gives back exactly what it took, and the count of no other pod has changed.
pub release-mark_active :
    (now : ℕ) (id j : String) (w : World)
    → active_count (release now id (mark_active id w)) j ≡ active_count w j
release-mark_active now id j w = ground (
  arith,
  eq_iff id j,
  eq_refl id,
  mark-count id id w,
  mark-count id j w,
  release-count now id j (mark_active id w),
)

get-end_row :
    (now : ℕ) (id j : String) (db : List Pod)
    → str_eq j id ≡ false
    → get_pod (update_pod j (end_row now) db) id ≡ get_pod db id
unfolding get_pod update_pod
get-end_row now id j [] h = refl
get-end_row now id j (row ∷ db) h =
    ground (arith, eq_iff row.id j, eq_iff row.id id, eq_iff j id, get-end_row now id j db h)

abbrev pub status_of : Option Pod → Option PodStatus
status_of none = none
status_of (some row) = some row.status

-- A change of the world by other coroutines during which the pod serves a request all the time, and
-- which does not change the status of its row.
abbrev pub KeepsServing : String → (World → World) → Type 0
KeepsServing id f =
    (w : World)
    → 0 < active_count w id
    → (0 < active_count (f w) id) × (status_of (get_pod (f w).db id) ≡ status_of (get_pod w.db id))

abbrev Kept : String → World → World → Type 0
Kept id w w' =
    (0 < active_count w' id) × (status_of (get_pod w'.db id) ≡ status_of (get_pod w.db id))

commit-other :
    (now : ℕ) (locked : Bool) (row : Pod) (w : World) (id : String)
    → str_eq row.id id ≡ false
    → (get_pod (reap_commit now locked row w).1.db id ≡ get_pod w.db id)
      × (active_count (reap_commit now locked row w).1 id ≡ active_count w id)
unfolding reap_commit active_count
commit-other now locked row w id h =
    (ground (arith, get-end_row now id row.id w.db h), ground arith)

evict-same :
    (row : Pod) (w : World) (id : String)
    → (get_pod (reap_evict row w).db id ≡ get_pod w.db id)
      × (active_count (reap_evict row w) id ≡ active_count w id)
unfolding reap_evict active_count
evict-same row w id = (refl, refl)

after_commit-keeps :
    (row : Pod) (m : Meanwhile) (r : Bool × World) (id : String)
    → KeepsServing id m.behind
    → 0 < active_count r.1 id
    → Kept id r.1 (after_commit row m r)
after_commit-keeps row m (false, w) id keeps h = keeps w h
after_commit-keeps row m (true, w) id keeps h =
    let (on, same) = keeps w h in
    let (row_same, count) = evict-same row (m.behind w) id in
    (omega (arith, on, count), ap status_of row_same ∙ same)

reap_one-keeps :
    (tiers : Dict TierCfg) (now : ℕ) (m : Meanwhile) (row : Pod) (w : World) (id : String)
    → KeepsServing id m.before
    → KeepsServing id m.behind
    → 0 < active_count w id
    → Kept id w (reap_one tiers now m row w)
unfolding reap_one active_count get_pod
reap_one-keeps tiers now m row w id before behind h =
    elim (Bool-cases (ltb 0 (active_count w row.id))) [
      | inl busy ↦ rw (busy, reap_one) (h, refl)
      | inr free ↦ elim (Bool-cases (idles tiers now row)) [
        | inr fresh ↦ rw (free, fresh, reap_one) (h, refl)
        | inl idle ↦
            let other : str_eq row.id id ≡ false = ground (arith, free, h, eq_iff row.id id) in
            let (on, same) = before w h in
            let (row_same, count) = commit-other now m.locked row (m.before w) id other in
            let (serves, kept) =
              after_commit-keeps row m (reap_commit now m.locked row (m.before w)) id behind
                (omega (arith, on, count)) in
            rw (free, idle, reap_one) (serves, kept ∙ ap status_of row_same ∙ same)
      ]
    ]

reap_all-keeps :
    (tiers : Dict TierCfg) (now : ℕ) (others : Pod → Meanwhile) (rows : List Pod) (w : World)
    (id : String)
    → ((row : Pod) → KeepsServing id (others row).before × KeepsServing id (others row).behind)
    → 0 < active_count w id
    → Kept id w (reap_all tiers now others rows w)
unfolding reap_all
reap_all-keeps tiers now others [] w id keeps h = (h, refl)
reap_all-keeps tiers now others (row ∷ rows) w id keeps h =
    let (before, behind) = keeps row in
    let (on, same) = reap_one-keeps tiers now (others row) row w id before behind h in
    let (serves, kept) =
      reap_all-keeps tiers now others rows (reap_one tiers now (others row) row w) id keeps on in
    (serves, kept ∙ same)

-- A round of the reaper does not change the status of a pod that serves a request all the time while
-- the round runs, however long it has idled according to its row: whatever other coroutines do at the
-- awaits of the round, as long as the pod keeps a request and they do not change its status.
pub busy_never_reaped :
    (tiers : Dict TierCfg) (now : ℕ) (read : World → World) (others : Pod → Meanwhile) (w : World)
    (id : String)
    → KeepsServing id read
    → ((row : Pod) → KeepsServing id (others row).before × KeepsServing id (others row).behind)
    → 0 < active_count w id
    → status_of (get_pod (reaper_round tiers now read others w).db id) ≡ status_of (get_pod w.db id)
unfolding reaper_round
busy_never_reaped tiers now read others w id reads keeps h =
    let (on, same) = reads w h in
    let (serves, kept) =
      reap_all-keeps tiers now others (filter (λ row. is_ready row.status) w.db) (read w) id keeps
        on in
    kept ∙ same

none-running : (now : ℕ) (db : List Pod) → filter running (map (stop_row now) db) ≡ []
none-running now [] = refl
none-running now (row ∷ db) = ground (arith, none-running now db)

same-ids :
    (now : ℕ) (db : List Pod)
    → map (λ (row : Pod). row.id) (map (stop_row now) db) ≡ map (λ (row : Pod). row.id) db
same-ids now [] = refl
same-ids now (row ∷ db) = ground (arith, same-ids now db)

-- After a shutdown no row says that a pod runs, and no row is lost.
pub stop-running :
    (now : ℕ) (w : World)
    → (filter running (stop now w).db ≡ [])
      × (map (λ (row : Pod). row.id) (stop now w).db ≡ map (λ (row : Pod). row.id) w.db)
unfolding stop
stop-running now w = (none-running now w.db, same-ids now w.db)

abbrev pub configured : Option Provider → Bool
configured none = false
configured (some p) = true

none-launching : (db : List Pod) → filter is_launching_row (map fail_launching db) ≡ []
none-launching [] = refl
none-launching (row ∷ db) = ground (arith, none-launching db)

filter-none :
    (p q : Pod → Bool) (rows : List Pod) → filter q rows ≡ [] → filter q (filter p rows) ≡ []
filter-none p q [] h = refl
filter-none p q (row ∷ rows) h = ground (arith, filter-none p q rows)

none-configured :
    (providers : Dict Provider) (db : List Pod)
    → filter
        (λ row. configured (lookup row.provider providers))
        (filter
          (λ row. not (runs_pods (lookup row.provider providers)))
          (filter (λ row. not (runs_local_or_api (lookup row.provider providers))) db))
      ≡ []
none-configured providers [] = refl
none-configured providers (row ∷ db) = ground (arith, none-configured providers db)

-- After the cleanups of a start, no row waits for a launch that no process runs any more, and no
-- row is left of a provider that is configured: each of its pods is launched anew.
pub start_cleanup_lem :
    (w : World)
    → (filter is_launching_row (start_cleanup w).db ≡ [])
      × (filter (λ row. configured (lookup row.provider w.providers)) (start_cleanup w).db ≡ [])
unfolding start_cleanup cleanup_stale_pods reset_api_provider_pods cleanup_dedicated_pods
start_cleanup_lem w = (
  filter-none (λ x. not (runs_pods (lookup x.provider w.providers))) is_launching_row
      (filter (λ x. not (runs_local_or_api (lookup x.provider w.providers)))
        (map fail_launching w.db))
      (filter-none (λ x. not (runs_local_or_api (lookup x.provider w.providers))) is_launching_row
        (map fail_launching w.db) (none-launching w.db)),
  none-configured w.providers (map fail_launching w.db),
)

-- ===== src/Instance/Exclusion.antt =====
-- `_spinning_tiers` as a lock: the coroutines of one process, their sections in any order.
use gpu_relay.Common.{
  ℕ, ◌+◌, ◌≤◌, String, str_eq, eq_iff, ◌≡◌, refl, ◌∙◌, Bool, true, false, not, ◌&&◌, Option, List,
  [], ◌∷◌, filter, contains, insert, arith, if◌then◌else◌,
}
use gpu_relay.Models.{Pod}
use gpu_relay.Instance.State.{
  World, Settings, Picker, Provider, mark_active, release, mark_pod_failed,
}
use gpu_relay.Schemas.{PodHandle}
use gpu_relay.Instance.Acquire.{Wish, found, spin, poll, claim, discard}
use gpu_relay.Instance.Spin.{Owner, Outside, spin_pod, spin_api_pod}
use gpu_relay.Instance.Loops.{reap_commit, reap_evict, health_one, health_all, health_round}

-- The process: the manager's state, and the tiers of the coroutines that launch a pod.
pub record Process : Type 0 where
  pub world : World
  pub launching : List String

abbrev pub process : World → List String → Process
process w ts = record { world = w; launching = ts }

-- One coroutine of the tier ends.
abbrev pub drop_one : String → List String → List String
drop_one t [] = []
drop_one t (u ∷ us) = if str_eq u t then us else u ∷ drop_one t us

abbrev pub count : String → List String → ℕ
count t [] = 0
count t (u ∷ us) = (if str_eq u t then 1 else 0) + count t us

-- One section of one coroutine.
pub data Step : Process → Process → Type 0 where
  claims :
      (k : Picker) (s : Settings) (now : ℕ) (q : Wish) {w w' : World} {ts : List String}
      → claim k s now q w ≡ (spin, w')
      → Step (process w ts) (process w' (q.tier ∷ ts))
  polls :
      (k : Picker) (q : Wish) {w : World} {ts : List String}
      → Step (process w ts) (process (poll k q w).1 ts)
  serves :
      (k : Picker) (s : Settings) (now : ℕ) (q : Wish) (h : PodHandle) {w w' : World}
      {ts : List String}
      → claim k s now q w ≡ (found h, w')
      → Step (process w ts) (process w' ts)
  caches :
      (tier id : String) {w : World} {ts : List String}
      → Step (process w ts) (process (record w { pods = insert tier id w.pods }) ts)
  launches :
      (s : Settings) (owner : Option Owner) (o : Outside) (tier name : String) (p : Provider)
      {w : World} {ts : List String}
      → Step (process w ts) (process (spin_pod s owner o tier name p w).1 ts)
  ends :
      (tier : String) {w : World} {ts : List String}
      → contains tier ts ≡ true
      → Step (process w ts) (process (discard tier w) (drop_one tier ts))
  marks :
      (id : String) {w : World} {ts : List String}
      → Step (process w ts) (process (mark_active id w) ts)
  releases :
      (now : ℕ) (id : String) {w : World} {ts : List String}
      → Step (process w ts) (process (release now id w) ts)
  fails :
      (id : String) {w : World} {ts : List String}
      → Step (process w ts) (process (mark_pod_failed id w) ts)
  reaps :
      (now : ℕ) (locked : Bool) (row : Pod) {w : World} {ts : List String}
      → Step (process w ts) (process (reap_commit now locked row w).1 ts)
  evicts :
      (row : Pod) {w : World} {ts : List String}
      → Step (process w ts) (process (reap_evict row w) ts)
  checks :
      (s : Settings) (healthy : Pod → Bool) {w : World} {ts : List String}
      → Step (process w ts) (process (health_round s healthy w) ts)

pub data Steps : Process → Process → Type 0 where
  stay : {p : Process} → Steps p p
  step : {p q r : Process} → Step p q → Steps q r → Steps p r

-- One launching coroutine for each marked tier, none for the others.
abbrev pub Exclusive : Process → Type 0
Exclusive p =
    (t : String) → count t p.launching ≡ (if contains t p.world.spinning_tiers then 1 else 0)

reap-spinning :
    (now : ℕ) (locked : Bool) (row : Pod) (w : World)
    → ((reap_commit now locked row w).1.spinning_tiers ≡ w.spinning_tiers)
      × ((reap_evict row w).spinning_tiers ≡ w.spinning_tiers)
unfolding reap_commit reap_evict
reap-spinning now locked row w = (ground arith, refl)

health_all-spinning :
    (s : Settings) (healthy : Pod → Bool) (rows : List Pod) (w : World)
    → (health_all s healthy rows w).spinning_tiers ≡ w.spinning_tiers
unfolding health_all health_one
health_all-spinning s healthy [] w = refl
health_all-spinning s healthy (row ∷ rows) w =
    health_all-spinning s healthy rows (health_one s healthy row w) ∙ ground arith

mark_pod_failed-spinning :
    (id : String) (w : World) → (mark_pod_failed id w).spinning_tiers ≡ w.spinning_tiers
unfolding mark_pod_failed
mark_pod_failed-spinning id w = ground arith

spin_api-spinning :
    (o : Outside) (tier name : String) (w : World)
    → (spin_api_pod o tier name w).1.spinning_tiers ≡ w.spinning_tiers
unfolding spin_api_pod
spin_api-spinning o tier name w = ground arith

spin_pod-spinning :
    (s : Settings) (owner : Option Owner) (o : Outside) (tier name : String) (p : Provider)
    (w : World)
    → (spin_pod s owner o tier name p w).1.spinning_tiers ≡ w.spinning_tiers
unfolding spin_pod
spin_pod-spinning s owner o tier name p w = ground (arith, spin_api-spinning o tier name w)

claim-spin :
    (k : Picker) (s : Settings) (now : ℕ) (q : Wish) (w w' : World)
    → claim k s now q w ≡ (spin, w')
    → (contains q.tier w.spinning_tiers ≡ false) × (w'.spinning_tiers ≡ q.tier ∷ w.spinning_tiers)
unfolding claim
claim-spin k s now q w w' e = ground arith

claim-found :
    (k : Picker) (s : Settings) (now : ℕ) (q : Wish) (h : PodHandle) (w w' : World)
    → claim k s now q w ≡ (found h, w')
    → w'.spinning_tiers ≡ w.spinning_tiers
unfolding claim
claim-found k s now q h w w' e = ground arith

poll-spinning :
    (k : Picker) (q : Wish) (w : World) → (poll k q w).1.spinning_tiers ≡ w.spinning_tiers
unfolding poll
poll-spinning k q w = ground arith

count-drop_one :
    (t u : String) (ts : List String)
    → contains u ts ≡ true
    → count t ts ≡ count t (drop_one u ts) + (if str_eq u t then 1 else 0)
count-drop_one t u [] h = cc
count-drop_one t u (x ∷ xs) h =
    ground (arith, eq_iff u x, eq_iff x u, eq_iff x t, eq_iff u t, count-drop_one t u xs)

contains-discard :
    (t u : String) (ts : List String)
    → contains t (filter (λ x. not (str_eq x u)) ts) ≡ (contains t ts && not (str_eq u t))
contains-discard t u [] = ground arith
contains-discard t u (x ∷ xs) =
    ground (arith, eq_iff t x, eq_iff x u, eq_iff u t, contains-discard t u xs)

health-spinning :
    (s : Settings) (healthy : Pod → Bool) (w : World)
    → (health_round s healthy w).spinning_tiers ≡ w.spinning_tiers
unfolding health_round
health-spinning s healthy w = health_all-spinning s healthy _ w

marks-spinning :
    (now : ℕ) (id : String) (w : World)
    → ((mark_active id w).spinning_tiers ≡ w.spinning_tiers)
      × ((release now id w).spinning_tiers ≡ w.spinning_tiers)
unfolding mark_active release
marks-spinning now id w = (refl, refl)

discard-spinning :
    (t tier : String) (w : World)
    → contains t (discard tier w).spinning_tiers
      ≡ (contains t w.spinning_tiers && not (str_eq tier t))
unfolding discard
discard-spinning t tier w = contains-discard t tier w.spinning_tiers

keeps :
    (t : String) (old new ts : List String)
    → new ≡ old
    → count t ts ≡ (if contains t old then 1 else 0)
    → count t ts ≡ (if contains t new then 1 else 0)
keeps t old new ts same h = rw (same) h

ended :
    (t tier : String) (old new ts : List String)
    → contains tier ts ≡ true
    → contains t new ≡ (contains t old && not (str_eq tier t))
    → count t ts ≡ (if contains t old then 1 else 0)
    → count t (drop_one tier ts) ≡ (if contains t new then 1 else 0)
ended t tier old new ts running e h = rw (e) (ground (arith, count-drop_one t tier ts running))

claimed :
    (t tier : String) (old new ts : List String)
    → contains tier old ≡ false
    → new ≡ tier ∷ old
    → count t ts ≡ (if contains t old then 1 else 0)
    → count t (tier ∷ ts) ≡ (if contains t new then 1 else 0)
claimed t tier old new ts free e h = rw (e) (ground (arith, eq_iff t tier, eq_iff tier t))

-- Every section keeps the marks and the launches in step.
pub Step-Exclusive : {p q : Process} → Step p q → Exclusive p → Exclusive q
Step-Exclusive (claims k s now q {w = w} {w' = w'} {ts = ts} e) h t =
    let (free, new) = claim-spin k s now q w w' e in
    claimed t q.tier w.spinning_tiers w'.spinning_tiers ts free new (h t)
Step-Exclusive (polls k q {w = w} {ts = ts}) h t =
    keeps t w.spinning_tiers _ ts (poll-spinning k q w) (h t)
Step-Exclusive (serves k s now q handle {w = w} {w' = w'} {ts = ts} e) h t =
    keeps t w.spinning_tiers _ ts (claim-found k s now q handle w w' e) (h t)
Step-Exclusive (caches tier id {w = w} {ts = ts}) h t = keeps t w.spinning_tiers _ ts refl (h t)
Step-Exclusive (launches s owner o tier name p {w = w} {ts = ts}) h t =
    keeps t w.spinning_tiers _ ts (spin_pod-spinning s owner o tier name p w) (h t)
Step-Exclusive (ends tier {w = w} {ts = ts} e) h t =
    ended t tier w.spinning_tiers _ ts e (discard-spinning t tier w) (h t)
Step-Exclusive (marks id {w = w} {ts = ts}) h t =
    keeps t w.spinning_tiers _ ts (marks-spinning 0 id w).0 (h t)
Step-Exclusive (releases now id {w = w} {ts = ts}) h t =
    keeps t w.spinning_tiers _ ts (marks-spinning now id w).1 (h t)
Step-Exclusive (fails id {w = w} {ts = ts}) h t =
    keeps t w.spinning_tiers _ ts (mark_pod_failed-spinning id w) (h t)
Step-Exclusive (reaps now locked row {w = w} {ts = ts}) h t =
    keeps t w.spinning_tiers _ ts (reap-spinning now locked row w).0 (h t)
Step-Exclusive (evicts row {w = w} {ts = ts}) h t =
    keeps t w.spinning_tiers _ ts (reap-spinning 0 false row w).1 (h t)
Step-Exclusive (checks s healthy {w = w} {ts = ts}) h t =
    keeps t w.spinning_tiers _ ts (health-spinning s healthy w) (h t)

Steps-Exclusive : {p q : Process} → Steps p q → Exclusive p → Exclusive q
Steps-Exclusive stay h = h
Steps-Exclusive (step a more) h = Steps-Exclusive more (Step-Exclusive a h)

start-Exclusive : (w : World) → w.spinning_tiers ≡ [] → Exclusive (process w [])
start-Exclusive w e t = rw (e) refl

-- From a process in which no tier is marked and nothing launches, and whatever the order of the
-- sections of its coroutines, at most one coroutine at a time launches a pod of a tier.
pub one_launch_per_tier :
    (w : World) (q : Process) (t : String)
    → w.spinning_tiers ≡ []
    → Steps (process w []) q
    → count t q.launching ≤ 1
one_launch_per_tier w q t e run =
    let h = Steps-Exclusive run (start-Exclusive w e) t in ground arith

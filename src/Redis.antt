-- ===== src/Redis.antt =====
-- Redis, which the bridge calls and does not implement: the commands that it uses and what their
-- documentation promises of them. The program's keys are texts with a prefix for each use; here
-- each use is a constructor.
use native.Mathlib.Decide.{ℕ_discrete}
use gpu_relay.Common.{
  ℕ, ◌+◌, String, ◌≡◌, ◌≢◌, List, ◌∷◌, Option, some, or_default, filter, Bool-cases, str_eq, eq_iff,
  inl, inr, ltb,
}

-- "rpm:{user}", "tpd:{user}:{day}", "budget_alert:{user}:{month}:{threshold}" and "pod_users:{pod}"
pub data Key : Type 0 where
  rpm : String → Key
  tpd : String → ℕ → Key
  budget_alert : String → ℕ → ℕ → Key
  pod_users : String → Key

-- A sorted set is seen as the list of its scores, the last added first: the members that the
-- program adds are all different. `zremrangebyscore k b` is that with the range from "-inf" to b.
-- `get` reads a number, or the text "1". `others` is what the other requests do to the store while a
-- request waits for an answer.
pub record Redis : Type 1 where
  pub Store : Type 0
  pub others : Store → Store
  pub scores : Key → Store → List ℕ
  pub zremrangebyscore : Key → ℕ → Store → Store
  pub zadd : Key → ℕ → Store → Store
  pub get : Key → Store → Option ℕ
  pub incrby : Key → ℕ → Store → Store
  pub setex : Key → Store → Store
  pub expire : Key → ℕ → Store → Store
  pub scores-zrem :
      (k : Key) (b : ℕ) (s : Store)
      → scores k (zremrangebyscore k b s) ≡ filter (λ t. ltb b t) (scores k s)
  pub scores-zadd : (k : Key) (t : ℕ) (s : Store) → scores k (zadd k t s) ≡ t ∷ scores k s
  pub scores-expire : (k : Key) (n : ℕ) (s : Store) → scores k (expire k n s) ≡ scores k s
  pub get-incrby :
      (k : Key) (n : ℕ) (s : Store) → get k (incrby k n s) ≡ some (or_default (get k s) 0 + n)
  pub get-expire : (k : Key) (n : ℕ) (s : Store) → get k (expire k n s) ≡ get k s
  pub get-setex : (k : Key) (s : Store) → get k (setex k s) ≡ some 1
  pub get-setex_ne : (k j : Key) (s : Store) → j ≢ k → get j (setex k s) ≡ get j s

String-discrete : Discrete String
String-discrete s t = elim (Bool-cases (str_eq s t)) [
  | inl e ↦ yes ((eq_iff s t).0 e)
  | inr e ↦ no (λ p. cc (e, (eq_iff s t).1 p))
]

pub Key-discrete : Discrete Key
Key-discrete = hlevel (String-discrete, ℕ_discrete)

-- ===== src/Examples/Store.antt =====
-- A store that answers as Redis does: for each use, a list of scores and a counter.
use gpu_relay.Common.{
  ℕ, ◌+◌, str_eq, eq_iff, eq_refl, ◌≡◌, ◌≢◌, refl, Bool, true, false, ◌&&◌, ◌==◌, Option, none,
  some, List, [], ◌∷◌, filter, ltb, or_default, if◌then◌else◌, ap, Bool-cases, inl, inr, arith,
}
use gpu_relay.Redis.{Redis, Key, rpm, tpd, budget_alert, pod_users}

abbrev pub key_eq : Key → Key → Bool
key_eq (rpm a) (rpm b) = str_eq a b
key_eq (tpd a d) (tpd b e) = str_eq a b && d == e
key_eq (budget_alert a m t) (budget_alert b n u) = str_eq a b && m == n && t == u
key_eq (pod_users a) (pod_users b) = str_eq a b
key_eq _ _ = false

pub key_eq_refl : (k : Key) → key_eq k k ≡ true
key_eq_refl (rpm a) = ground (arith, eq_refl a)
key_eq_refl (tpd a d) = ground (arith, eq_refl a)
key_eq_refl (budget_alert a m t) = ground (arith, eq_refl a)
key_eq_refl (pod_users a) = ground (arith, eq_refl a)

pub key_eq_sound : (j k : Key) → key_eq j k ≡ true → j ≡ k
key_eq_sound (rpm a) (rpm b) h = ground (arith, eq_iff a b)
key_eq_sound (tpd a d) (tpd b e) h = ground (arith, eq_iff a b)
key_eq_sound (budget_alert a m t) (budget_alert b n u) h = ground (arith, eq_iff a b)
key_eq_sound (pod_users a) (pod_users b) h = ground (arith, eq_iff a b)
key_eq_sound (rpm a) (tpd b e) h = cc
key_eq_sound (rpm a) (budget_alert b n u) h = cc
key_eq_sound (rpm a) (pod_users b) h = cc
key_eq_sound (tpd a d) (rpm b) h = cc
key_eq_sound (tpd a d) (budget_alert b n u) h = cc
key_eq_sound (tpd a d) (pod_users b) h = cc
key_eq_sound (budget_alert a m t) (rpm b) h = cc
key_eq_sound (budget_alert a m t) (tpd b e) h = cc
key_eq_sound (budget_alert a m t) (pod_users b) h = cc
key_eq_sound (pod_users a) (rpm b) h = cc
key_eq_sound (pod_users a) (tpd b e) h = cc
key_eq_sound (pod_users a) (budget_alert b n u) h = cc

abbrev pub Store : Type 0
Store = Key → List ℕ × Option ℕ

abbrev pub put : Key → List ℕ × Option ℕ → Store → Store
put k v s = λ j. if key_eq j k then v else s j

pub put-same : (k : Key) (v : List ℕ × Option ℕ) (s : Store) → put k v s k ≡ v
put-same k v s = rw (key_eq_refl k) refl

pub put-other : (k j : Key) (v : List ℕ × Option ℕ) (s : Store) → j ≢ k → put k v s j ≡ s j
put-other k j v s ne = elim (Bool-cases (key_eq j k)) [
  | inl e ↦ absurd (ne (key_eq_sound j k e))
  | inr e ↦ rw e refl
]

abbrev pub store : Redis
store = record {
  Store = Store;
  others = λ s. s;
  scores = λ k s. (s k).0;
  zremrangebyscore = λ k b s. put k (filter (λ t. ltb b t) (s k).0, (s k).1) s;
  zadd = λ k t s. put k (t ∷ (s k).0, (s k).1) s;
  get = λ k s. (s k).1;
  incrby = λ k n s. put k ((s k).0, some (or_default (s k).1 0 + n)) s;
  setex = λ k s. put k ((s k).0, some 1) s;
  expire = λ k n s. s;
  scores-zrem = λ k b s. ap (λ v. v.0) (put-same k _ s);
  scores-zadd = λ k t s. ap (λ v. v.0) (put-same k _ s);
  scores-expire = λ k n s. refl;
  get-incrby = λ k n s. ap (λ v. v.1) (put-same k _ s);
  get-expire = λ k n s. refl;
  get-setex = λ k s. ap (λ v. v.1) (put-same k _ s);
  get-setex_ne = λ k j s ne. ap (λ v. v.1) (put-other k j _ s ne);
}

abbrev pub empty_store : Store
empty_store k = ([], none)

-- ===== src/Bridge/Inference/Attempts.antt =====
-- The loop of attempts: how many calls it makes, and what it gives back.
use gpu_relay.Common.{
  ℕ, zero, suc, ◌+◌, ◌≤◌, String, str_eq, ◌≡◌, refl, ◌⊎◌, inl, inr, true, false, List, [], ◌∷◌,
  length, Result, ok, err, runtime_error, ltb, arith, Result-cases, ok-injective, subst, ◌∙◌,
}
use gpu_relay.Bridge.Inference.{
  HttpResponse, is_success, is_model_not_found, retry, fallback, failed, answered, verdict,
  attempts, post_completion,
}

-- The cases of a verdict.
verdict-cases :
    (left : ℕ) (p m : String) (r : HttpResponse)
    → ((verdict left p m r ≡ retry) × (ltb 0 left ≡ true))
      ⊎ ((verdict left p m r ≡ fallback) × (is_model_not_found r ≡ true))
      ⊎ (verdict left p m r ≡ failed)
      ⊎ ((verdict left p m r ≡ answered) × (is_success r ≡ true))
unfolding verdict
verdict-cases left p m r = ground arith

attempts-length :
    (call : ℕ → String → Result HttpResponse) (p : String) (left n : ℕ) (m : String)
    (last : Result HttpResponse) (sent : List String)
    → length (attempts call p left n m last sent).1 ≤ left + length sent
unfolding attempts
attempts-length call p zero n m last sent = omega arith
attempts-length call p (suc left) n m last sent = elim (Result-cases (call n m)) [
  | inl (e, h) ↦ rw (h, attempts) (omega arith)
  | inr (r, h) ↦ elim (verdict-cases left p m r) [
    | inl (v, more) ↦
        rw (h, v, attempts) (omega (arith, attempts-length call p left (n + 1) m (ok r) (m ∷ sent)))
    | inr (inl (v, nf)) ↦
        rw (h, v, attempts) (omega (arith, attempts-length call p left (n + 1) p (ok r) (m ∷ sent)))
    | inr (inr (inl v)) ↦ rw (h, v, attempts) (omega arith)
    | inr (inr (inr (v, good))) ↦ rw (h, v, attempts) (omega arith)
  ]
]

-- One request makes at most three calls of the pod, whatever the pod answers.
pub length-post_completion :
    (call : ℕ → String → Result HttpResponse) (pod_model model : String)
    → length (post_completion call pod_model model).1 ≤ 3
unfolding post_completion
length-post_completion call p m = attempts-length call p 3 0 m (err runtime_error) []

-- What a response of the loop is: a success; or an answer that the model is not there, after all of
-- the rounds that were left; or the last response, where no round was left.
abbrev pub Ends : ℕ → List String → Result HttpResponse → HttpResponse → List String → Type 0
Ends left sent last r all =
    (is_success r ≡ true)
    ⊎ ((is_model_not_found r ≡ true) × (length all ≡ left + length sent))
    ⊎ ((left ≡ 0) × (last ≡ ok r) × (length all ≡ length sent))

later :
    (left : ℕ) (m : String) (sent all : List String) (last prev : Result HttpResponse)
    (r : HttpResponse)
    → ltb 0 left ≡ true
    → Ends left (m ∷ sent) last r all
    → Ends (suc left) sent prev r all
later left m sent all last prev r more h = ground arith

last_fallback :
    (left : ℕ) (m : String) (sent all : List String) (a r : HttpResponse)
    (prev : Result HttpResponse)
    → is_model_not_found a ≡ true
    → Ends left (m ∷ sent) (ok a) r all
    → Ends (suc left) sent prev r all
last_fallback left m sent all a r prev nf (inl good) = inl good
last_fallback left m sent all a r prev nf (inr (inl (h, n))) = inr (inl (h, omega (arith, n)))
last_fallback left m sent all a r prev nf (inr (inr (z, e, n))) =
    inr (inl (subst (λ x. is_model_not_found x ≡ true) (ok-injective e) nf, omega (arith, z, n)))

limited :
    (left : ℕ) (p m : String) (r : HttpResponse)
    → r.status_code ≡ 429
    → verdict (suc left) p m r ≡ retry
unfolding verdict
limited left p m r h = ground arith

falls_back :
    (p m : String) (r : HttpResponse)
    → is_model_not_found r ≡ true
    → str_eq m p ≡ false
    → str_eq p "" ≡ false
    → verdict 0 p m r ≡ fallback
unfolding verdict is_model_not_found
falls_back p m r nf other named = ground arith

-- A response that the loop hands on ends it.
attempts-ok :
    (call : ℕ → String → Result HttpResponse) (p : String) (left n : ℕ) (m : String)
    (last : Result HttpResponse) (sent : List String) (r : HttpResponse)
    → (attempts call p left n m last sent).0 ≡ ok r
    → Ends left sent last r (attempts call p left n m last sent).1
unfolding attempts
attempts-ok call p zero n m last sent r e = inr (inr (refl, e, refl))
attempts-ok call p (suc left) n m last sent r e = elim (Result-cases (call n m)) [
  | inl (x, h) ↦ cc (rw (h, attempts) at e)
  | inr (a, h) ↦ elim (verdict-cases left p m a) [
    | inl (v, more) ↦
        rw (h, v, attempts)
          (later left m sent (attempts call p left (n + 1) m (ok a) (m ∷ sent)).1 (ok a) last r more
            (attempts-ok call p left (n + 1) m (ok a) (m ∷ sent) r (rw (h, v, attempts) at e)))
    | inr (inl (v, nf)) ↦
        rw (h, v, attempts)
          (last_fallback left m sent (attempts call p left (n + 1) p (ok a) (m ∷ sent)).1 a r last
            nf (attempts-ok call p left (n + 1) p (ok a) (m ∷ sent) r (rw (h, v, attempts) at e)))
    | inr (inr (inl v)) ↦ cc (rw (h, v, attempts) at e)
    | inr (inr (inr (v, good))) ↦
        inl (subst (λ x. is_success x ≡ true) (ok-injective (rw (h, v, attempts) at e)) good)
  ]
]

-- What the code reads as the pod's answer is a success, unless all three rounds of the loop are used
-- up and the response says that the model is not there: then that error response is read. In
-- particular such a response in an earlier round does not end the loop.
pub post_completion-ok :
    (call : ℕ → String → Result HttpResponse) (pod_model model : String) (r : HttpResponse)
    → (post_completion call pod_model model).0 ≡ ok r
    → (is_success r ≡ true)
      ⊎ ((is_model_not_found r ≡ true) × (length (post_completion call pod_model model).1 ≡ 3))
unfolding post_completion
post_completion-ok call p m r e = elim (attempts-ok call p 3 0 m (err runtime_error) [] r e) [
  | inl good ↦ inl good
  | inr (inl nf) ↦ inr nf
  | inr (inr (left, last, n)) ↦ cc
]

retry-step :
    (call : ℕ → String → Result HttpResponse) (p : String) (left n : ℕ) (m : String)
    (last : Result HttpResponse) (sent : List String) (r : HttpResponse)
    → call n m ≡ ok r
    → verdict left p m r ≡ retry
    → attempts call p (suc left) n m last sent ≡ attempts call p left (n + 1) m (ok r) (m ∷ sent)
unfolding attempts
retry-step call p left n m last sent r h v = rw (h, v, attempts) refl

fallback-step :
    (call : ℕ → String → Result HttpResponse) (p : String) (left n : ℕ) (m : String)
    (last : Result HttpResponse) (sent : List String) (r : HttpResponse)
    → call n m ≡ ok r
    → verdict left p m r ≡ fallback
    → attempts call p (suc left) n m last sent ≡ attempts call p left (n + 1) p (ok r) (m ∷ sent)
unfolding attempts
fallback-step call p left n m last sent r h v = rw (h, v, attempts) refl

-- Two refusals for the rate of requests and then "not found" for the alternative model: the pod's
-- own model, which the fallback is for, is never asked, and the error response is read as an answer.
pub fallback_never_sent :
    (call : ℕ → String → Result HttpResponse) (pod_model model : String) (a b r : HttpResponse)
    → call 0 model ≡ ok a
    → call 1 model ≡ ok b
    → call 2 model ≡ ok r
    → a.status_code ≡ 429
    → b.status_code ≡ 429
    → is_model_not_found r ≡ true
    → str_eq model pod_model ≡ false
    → str_eq pod_model "" ≡ false
    → post_completion call pod_model model ≡ (ok r, model ∷ model ∷ model ∷ [])
unfolding post_completion attempts
fallback_never_sent call p m a b r h0 h1 h2 ra rb nf other named =
    retry-step call p 2 0 m (err runtime_error) [] a h0 (limited 1 p m a ra)
    ∙ retry-step call p 1 1 m (ok a) (m ∷ []) b h1 (limited 0 p m b rb)
    ∙ fallback-step call p 0 2 m (ok b) (m ∷ m ∷ []) r h2 (falls_back p m r nf other named)

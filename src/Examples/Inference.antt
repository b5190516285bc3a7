-- ===== src/Examples/Inference.antt =====
-- The inference of a request at concrete answers of a pod.
use gpu_relay.Common.{
  ℕ, zero, suc, ◌≤◌, ◌<◌, String, str_eq, ◌≡◌, refl, ◌⊎◌, inl, inr, Bool, true, false, ◌/ℚ◌, Option,
  none, some, List, [], ◌∷◌, ◌++◌, any, All, map, length, ltb, lookup, contains, Result, Error, ok,
  err, runtime_error, provider_error,
}
use gpu_relay.Models.{PodStatus}
use gpu_relay.Schemas.{PodHandle}
use gpu_relay.Instance.State.{World, Provider, get_ready_pod, handle}
use gpu_relay.Instance.Acquire.{Wish}
use gpu_relay.Instance.Whole.{wait_for_pod, acquire}
use gpu_relay.Instance.Whole.Served.{Served, FirstReady, wait_for_pod-live, acquire-Served}
use gpu_relay.Bridge.Inference.{
  HttpResponse, is_success, is_model_not_found, post_completion, Completion, Booking, Books,
}
use gpu_relay.Bridge.Inference.Attempts.{length-post_completion, post_completion-ok}
use gpu_relay.Bridge.Inference.Settled.{Settled}
use gpu_relay.Examples.Data.{ann, pod, spent_request}
use gpu_relay.Examples.Money.{used_pod}
use gpu_relay.Examples.Pods.{picker, settings, world, wish, rows}

abbrev pub response : ℕ → String → HttpResponse
response status body = record { status_code = status; text = body }

abbrev busy : HttpResponse
busy = response 429 "slow down"

abbrev missing : HttpResponse
missing = response 404 "model Not Found"

-- Two refusals for the rate, then the model is not there.
abbrev refusing : ℕ → String → Result HttpResponse
refusing zero model = ok busy
refusing (suc zero) model = ok busy
refusing _ model = ok missing

length-post_completion_example : length (post_completion refusing "qwen" "qwen-small").1 ≤ 3
length-post_completion_example = length-post_completion refusing "qwen" "qwen-small"

is_missing : is_model_not_found missing ≡ true
unfolding is_model_not_found gpu_relay.Common.is_infix
is_missing = refl

post_completion-ok_example :
    (is_success missing ≡ true)
    ⊎ ((is_model_not_found missing ≡ true)
        × (length (post_completion refusing "qwen" "qwen-small").1 ≡ 3))
unfolding post_completion gpu_relay.Bridge.Inference.attempts gpu_relay.Bridge.Inference.verdict
    is_model_not_found gpu_relay.Common.is_infix
post_completion-ok_example = post_completion-ok refusing "qwen" "qwen-small" missing refl

abbrev pub show : Error → String
show e = "failed"

abbrev booking : Booking
booking = record {
  pod = used_pod;
  tier = "simple";
  idempotency_key = some "k2";
  latency_ms = 4_000;
  users_seen = 2;
  now = 900;
}

abbrev books : Books
books = record { world = world rows; user = ann; requests = spent_request ∷ [] }

abbrev failure : Result Completion
failure = err provider_error

-- Another coroutine's launch becomes ready in the second round of the wait.
abbrev others_launch : World → World
others_launch w = record w { db = pod "p3" "runpod" "ultra" PodStatus.ready ∷ w.db }

abbrev pub quiet : World → World
quiet w = w

wait_for_pod-live_example :
    (h : PodHandle) × ((wait_for_pod picker
        (wish "ultra")
        ((quiet ∷ []) ++ others_launch ∷ [])
        (world rows)).0
      ≡ ok h)
    × FirstReady picker (wish "ultra") ((quiet ∷ []) ++ others_launch ∷ []) (world rows) h
unfolding get_ready_pod gpu_relay.Instance.State.ready_for
wait_for_pod-live_example =
    wait_for_pod-live picker (wish "ultra") (quiet ∷ []) [] others_launch (world rows)
      (pod "p3" "runpod" "ultra" PodStatus.ready) refl

abbrev launched_ok : String → Provider → World → Result PodHandle × World
launched_ok name provider w = (ok used_pod, w)

acquire-Served_example :
    Served launched_ok picker settings 300 []
      (wish "simple")
      (world [])
      (acquire picker settings 300 launched_ok [] quiet [] (wish "simple") (world []))
      used_pod
unfolding acquire gpu_relay.Instance.Acquire.poll get_ready_pod gpu_relay.Instance.Acquire.claim
    gpu_relay.Instance.State.get_in_progress_pod gpu_relay.Instance.Acquire.spin_tier
    gpu_relay.Instance.Acquire.try_providers gpu_relay.Instance.Acquire.priority lookup
acquire-Served_example =
    acquire-Served picker settings 300 launched_ok [] quiet [] (wish "simple") (world []) used_pod
      refl

-- ===== src/Bridge/Inference.antt =====
-- bridge/main.py, `chat_completions` from the acquired pod on, without streaming: the loop of
-- attempts, and the blocks that release the pod and book the request whatever happens. The pod's
-- answers, the JSON parser, the text of an exception and a workflow's run are arguments.
pub mod Attempts
pub mod Settled
use Prim.Native.String.{count}
use gpu_relay.Common.{
  ℕ, zero, suc, ◌+◌, ◌/◌, max, String, str_eq, Bool, true, false, not, ◌&&◌, ◌||◌, Option, none,
  some, List, [], ◌∷◌, map, codes, to_lower, is_infix, or_default, Result, Error, ok, err, http,
  runtime_error, provider_error, ltb, leb, ◌==◌, if◌then◌else◌,
}
use gpu_relay.Models.{User, Request}
use gpu_relay.Schemas.{PodHandle}
use gpu_relay.Instance.State.{World, mark_active, release}
use gpu_relay.Cost.{CostConfig, Call, record_request}

-- A response of the pod's server: its status, and the first 2000 characters of its text.
pub record HttpResponse : Type 0 where
  pub status_code : ℕ
  pub text : String

abbrev pub is_success : HttpResponse → Bool
is_success r = leb 200 r.status_code && ltb r.status_code 300

-- The model is not on the pod: `"not found" in err_text.lower() or not err_text`, for a 404.
unfoldable pub is_model_not_found : HttpResponse → Bool
is_model_not_found r =
    r.status_code == 404
    && (is_infix (codes "not found") (map to_lower (codes r.text)) || str_eq r.text "")

-- What a round of the loop does after its call.
pub data Verdict : Type 0 where
  retry fallback failed answered : Verdict

-- The number of rounds left after this one, the pod's model, the model asked for ("" for None).
unfoldable pub verdict : ℕ → String → String → HttpResponse → Verdict
verdict left pod_model model r =
    if r.status_code == 429 && ltb 0 left
    then retry
    else if is_success r
    then answered
    else if is_model_not_found r && (not (str_eq model pod_model) && not (str_eq pod_model ""))
    then fallback
    else failed

-- The loop: the last response, and the models asked for, the latest first. Behind the last round the
-- code goes on with the response it has.
unfoldable pub attempts :
    (ℕ → String → Result HttpResponse)
    → String
    → ℕ
    → ℕ
    → String
    → Result HttpResponse
    → List String
    → Result HttpResponse × List String
attempts call pod_model zero n model last sent = (last, sent)
attempts call pod_model (suc left) n model last sent = elim (call n model) [
  | err e ↦ (err e, model ∷ sent)
  | ok r ↦ elim (verdict left pod_model model r) [
    | retry ↦ attempts call pod_model left (n + 1) model (ok r) (model ∷ sent)
    | fallback ↦ attempts call pod_model left (n + 1) pod_model (ok r) (model ∷ sent)
    | failed ↦ (err provider_error, model ∷ sent)
    | answered ↦ (ok r, model ∷ sent)
  ]
]

-- `_max_retries = 3`; before the loop there is no response.
unfoldable pub post_completion :
    (ℕ → String → Result HttpResponse) → String → String → Result HttpResponse × List String
post_completion call pod_model model = attempts call pod_model 3 0 model (err runtime_error) []

-- The model of the payload: a pod that speaks Ollama has another one for requests without tools.
unfoldable pub effective_model : Bool → Bool → Option String → String → String
effective_model ollama has_tools model_no_tools pod_model =
    let other = or_default model_no_tools "" in
    if ollama && not has_tools && not (str_eq other "") then other else pod_model

-- What the response's JSON holds.
pub record Answer : Type 0 where
  pub content : Option String
  pub prompt_tokens : Option ℕ
  pub completion_tokens : Option ℕ

-- The answer that is sent, with the tokens that are booked.
pub record Completion : Type 0 where
  pub text : Option String
  pub prompt_tokens : ℕ
  pub completion_tokens : ℕ

abbrev pub postprocess : (String → String) → Option String → Option String
postprocess f none = none
postprocess f (some t) = some (f t)

abbrev pub parsed :
    (HttpResponse → Result Answer) → (String → String) → ℕ → Result HttpResponse → Result Completion
parsed json post estimate (err e) = err e
parsed json post estimate (ok r) = elim (json r) [
  | err e ↦ err e
  | ok a ↦ ok (record {
    text = postprocess post a.content;
    prompt_tokens = or_default a.prompt_tokens estimate;
    completion_tokens = or_default a.completion_tokens 0;
  })
]

-- A workflow's text is counted by its length.
abbrev pub of_workflow : ℕ → Result String → Result Completion
of_workflow estimate (err e) = err e
of_workflow estimate (ok t) =
    ok (record { text = some t; prompt_tokens = estimate; completion_tokens = max 1 (count t / 4) })

-- What the request is booked with, apart from its outcome.
pub record Booking : Type 0 where
  pub pod : PodHandle
  pub tier : String
  pub idempotency_key : Option String
  pub latency_ms : ℕ
  pub users_seen : ℕ
  pub now : ℕ

abbrev pub tokens_of : Result Completion → ℕ × ℕ
tokens_of (err e) = (0, 0)
tokens_of (ok c) = (c.prompt_tokens, c.completion_tokens)

abbrev pub message_of : (Error → String) → Result Completion → Option String
message_of show (err e) = some (show e)
message_of show (ok c) = none

abbrev pub call_of : (Error → String) → Booking → Result Completion → Call
call_of show b outcome = record {
  pod = some b.pod;
  tier = b.tier;
  prompt_tokens = (tokens_of outcome).0;
  completion_tokens = (tokens_of outcome).1;
  latency_ms = b.latency_ms;
  idempotency_key = b.idempotency_key;
  error_message = message_of show outcome;
  users_seen = b.users_seen;
  now = b.now;
}

-- The state that a request changes: the manager, the user and the rows of requests.
pub record Books : Type 0 where
  pub world : World
  pub user : User
  pub requests : List Request

abbrev pub gateway_error : Result Completion → Result Completion
gateway_error (err e) = err (http 502)
gateway_error (ok c) = ok c

-- The end of the `finally` block: an exception of the booking takes the place of the response.
abbrev pub settled :
    {A : Type 0} → World → Books → Result A → Result (User × List Request) → Result A × Books
settled w s response (err e) = (err e, record s { world = w })
settled w s response (ok (user, requests)) =
    (response, record { world = w; user = user; requests = requests })

-- `mark_active`, the try block, and the `finally` block; an exception becomes a 502.
unfoldable pub run_inference :
    CostConfig → (Error → String) → Booking → Result Completion → Books → Result Completion × Books
run_inference c show b outcome s =
    let w = release b.now b.pod.pod_id (mark_active b.pod.pod_id s.world) in
    settled w s (gateway_error outcome)
      (record_request c (call_of show b outcome) s.user s.requests)

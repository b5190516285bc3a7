-- ===== src/Bridge/Whole.antt =====
-- bridge/main.py, `chat_completions` as a whole, with streaming. A client reads a stream to its end.
pub mod Booked
use gpu_relay.Common.{
  ℕ, String, Bool, true, false, not, ◌&&◌, Option, none, some, List, [], contains, lookup, is_empty,
  Result, Error, ok, err, ◌⊎◌, ◌>>=◌, if◌then◌else◌,
}
use gpu_relay.Models.{User, Request}
use gpu_relay.Schemas.{ChatMessage, ChatCompletionRequest, RoutingDecision, PodHandle}
use gpu_relay.Json.{Members}
use gpu_relay.Router.Tiers.{Config}
use gpu_relay.Router.Signals.{prompt_tokens}
use gpu_relay.Router.Select.{HttpRequest, select_tier}
use gpu_relay.Redis.{Redis}
use gpu_relay.Quota.Monthly.{Ledger, spent_since}
use gpu_relay.Cost.{CostConfig, Call, record_request}
use gpu_relay.Instance.State.{World, mark_active, release}
use gpu_relay.Instance.Acquire.{Wish}
use gpu_relay.Pipeline.{Output, run_pipeline, run_postprocess}
use gpu_relay.Workflow.{WorkflowDef, workflow_models}
use gpu_relay.Bridge.{Limits, Clock, admit}
use gpu_relay.Bridge.Inference.{
  HttpResponse, Answer, Completion, Booking, Books, post_completion, effective_model, parsed,
  of_workflow, settled, run_inference,
}
use gpu_relay.Bridge.Stream.{StreamAnswer, Streamed, event_stream, provider_message, marks_failed}
use gpu_relay.Bridge.Payload.{Payload, build_inference_payload}
use gpu_relay.Bridge.Chat.{
  UserTierOverride, pipeline_of, or_text, wish_for, Acquired, pod_or_error, ollama_providers,
  for_model, resolved_messages,
}

-- The settings and the tiers' further columns: 0 is no limit of tokens, and "" no other model.
pub record ChatConfig : Type 0 where
  pub tiers : Config
  pub limits : Limits
  pub costs : CostConfig
  pub local_preprocess_enabled : Bool
  pub pipeline_default : String
  pub groq_max_output_tokens : ℕ
  pub vision_fallback : String
  pub max_context_tokens : String → ℕ
  pub model_no_tools : String → Option String

-- A request: the body, what the headers hold, and the user's own settings for the tiers.
pub record ChatRequest : Type 0 where
  pub body : ChatCompletionRequest
  pub max_tokens : Option ℕ
  pub tools : Option (List Members)
  pub stream : Bool
  pub idempotency_key : Option String
  pub headers : HttpRequest
  pub x_provider : Option String
  pub pipeline_default : Option String
  pub tier_override : String → Option UserTierOverride

-- The other services: what they answer, and how they change the manager's world.
pub record Services : Type 0 where
  pub acquire : Wish → World → Result PodHandle × World
  pub call : PodHandle → ℕ → Payload → Result HttpResponse
  pub stream : PodHandle → Payload → StreamAnswer ⊎ String
  pub json : HttpResponse → Result Answer
  pub fix_chunk : String → String
  pub delta_length : String → Option ℕ
  pub decimal : ℕ → String
  pub fetch : String → Result (String × String)
  pub run_preprocessor : ChatCompletionRequest → Result Output
  pub run_postprocessor : String → Result String
  pub run_workflow : String → ChatCompletionRequest → PodHandle → Result String
  pub show : Error → String
  pub latency_ms : ℕ
  pub users_seen : ℕ
  pub now : ℕ

abbrev pub is_ollama : PodHandle → Bool
is_ollama pod = contains pod.provider ollama_providers

abbrev pub has_tools : Option (List Members) → Bool
has_tools none = false
has_tools (some ts) = not (is_empty ts)

-- What the client gets: a completion, or a stream. The task that marks the pod as failed, which runs
-- when the bridge next waits, is the last component.
pub data Reply : Type 0 where
  completed : Completion → Reply
  streamed : Streamed → Bool → Reply

-- The model of the payload.
abbrev pub model_for : ChatConfig → ChatRequest → Acquired → String
model_for c r a =
    effective_model (is_ollama a.pod) (has_tools r.tools) (c.model_no_tools a.decision.tier)
      a.pod.model

abbrev pub payload_for :
    ChatConfig → ChatRequest → Acquired → Option (List ChatMessage) → Bool → String → Result Payload
payload_for c r a resolved streams model =
    build_inference_payload
      (record {
        model = a.body.model;
        messages = a.body.messages;
        max_tokens = r.max_tokens;
        tools = r.tools;
      })
      streams model resolved (c.max_context_tokens a.decision.tier) a.pod.provider
      c.groq_max_output_tokens

-- The inference of a request with an ordinary model.
unfoldable pub infer :
    ChatConfig
    → Services
    → ChatRequest
    → String
    → Acquired
    → Option (List ChatMessage)
    → Result Completion
infer c services r pipeline a resolved =
    parsed services.json (λ text. (run_postprocess services.run_postprocessor text pipeline []).0)
      (prompt_tokens r.body)
      (post_completion (λ n m. payload_for c r a resolved false m >>= services.call a.pod n)
        a.pod.model (model_for c r a)).0

abbrev pub booking_of : Services → ChatRequest → Acquired → Booking
booking_of services r a = record {
  pod = a.pod;
  tier = a.decision.tier;
  idempotency_key = r.idempotency_key;
  latency_ms = services.latency_ms;
  users_seen = services.users_seen;
  now = services.now;
}

-- What a stream is booked with: the prompt's tokens whatever happens.
abbrev pub stream_call : Booking → ℕ → Streamed → Call
stream_call b prompt t = record {
  pod = some b.pod;
  tier = b.tier;
  prompt_tokens = prompt;
  completion_tokens = t.completion_tokens;
  latency_ms = b.latency_ms;
  idempotency_key = b.idempotency_key;
  error_message = t.error_message;
  users_seen = b.users_seen;
  now = b.now;
}

abbrev pub fails_pod : Option String → Bool
fails_pod none = false
fails_pod (some message) = marks_failed message

-- `event_generator`: `mark_active`, the lines, and the `finally` block.
unfoldable pub run_stream : CostConfig → Booking → ℕ → Streamed → Books → Result Reply × Books
run_stream c b prompt t s =
    let w = release b.now b.pod.pod_id (mark_active b.pod.pod_id s.world) in
    settled w s (ok (streamed t (fails_pod t.error_message)))
      (record_request c (stream_call b prompt t) s.user s.requests)

-- An exception of the payload is raised before the stream begins.
abbrev pub stream_payload :
    ChatConfig → Services → ChatRequest → Acquired → Books → Result Payload → Result Reply × Books
stream_payload c services r a s (err e) = (err e, s)
stream_payload c services r a s (ok payload) =
    run_stream c.costs (booking_of services r a) (prompt_tokens a.body)
      (event_stream services.fix_chunk services.delta_length (is_ollama a.pod)
        (provider_message services.decimal a.pod.provider)
        (λ m. services.stream a.pod (record payload { model = m })) payload.model a.pod.model)
      s

abbrev pub stream_response :
    ChatConfig
    → Services
    → ChatRequest
    → Acquired
    → Books
    → Result (Option (List ChatMessage))
    → Result Reply × Books
stream_response c services r a s (err e) = (err e, s)
stream_response c services r a s (ok resolved) =
    stream_payload c services r a s (payload_for c r a resolved true (model_for c r a))

abbrev pub as_reply : Result Completion × Books → Result Reply × Books
as_reply (err e, s) = (err e, s)
as_reply (ok c, s) = (ok (completed c), s)

-- The body without the images that the model does not see.
abbrev pub seen_by : Acquired → Acquired
seen_by a = record a { body = for_model (or_text (some a.pod.model) a.body.model) a.body }

-- With the pod: a workflow, or the messages for the model and then the inference.
abbrev pub with_messages :
    ChatConfig
    → Services
    → ChatRequest
    → String
    → Acquired
    → Books
    → Result (Option (List ChatMessage))
    → Result Reply × Books
with_messages c services r pipeline a s (err e) = (err e, s)
with_messages c services r pipeline a s (ok resolved) = as_reply (
    run_inference c.costs services.show (booking_of services r a)
      (infer c services r pipeline a resolved) s)

unfoldable pub with_pod :
    ChatConfig
    → Services
    → ChatRequest
    → String
    → Option WorkflowDef
    → Acquired
    → Books
    → Result Reply × Books
with_pod c services r pipeline (some wf) a s = as_reply (
    run_inference c.costs services.show (booking_of services r a)
      (of_workflow (prompt_tokens r.body) (services.run_workflow wf.workflow a.body a.pod)) s)
with_pod c services r pipeline none a s =
    let seen = seen_by a in
    let resolved =
      resolved_messages services.fetch (is_ollama a.pod) a.decision.tier seen.body.messages in
    if r.stream
    then stream_response c services r seen s resolved
    else with_messages c services r pipeline seen s resolved

abbrev pub after_acquire :
    ChatConfig
    → Services
    → ChatRequest
    → String
    → Option WorkflowDef
    → Books
    → Result Acquired × World
    → Result Reply × Books
after_acquire c services r pipeline wf s (err e, w) = (err e, record s { world = w })
after_acquire c services r pipeline wf s (ok a, w) =
    with_pod c services r pipeline wf a (record s { world = w })

-- A workflow's messages are not preprocessed.
abbrev pub body_for :
    Services → ChatCompletionRequest → String → Option WorkflowDef → ChatCompletionRequest
body_for services body pipeline (some wf) = body
body_for services body pipeline none = (run_pipeline services.run_preprocessor body pipeline).0

unfoldable pub serve_decision :
    ChatConfig → Services → ChatRequest → ℕ → RoutingDecision → Books → Result Reply × Books
serve_decision c services r spent decision s =
    let wf = lookup r.body.model workflow_models in
    let pipeline =
      pipeline_of c.local_preprocess_enabled r.body.pipeline r.pipeline_default
        c.pipeline_default in
    let body = body_for services r.body pipeline wf in
    let wish = wish_for s.user (r.tier_override decision.tier) r.x_provider decision in
    after_acquire c services r pipeline wf s (
      pod_or_error services.acquire (λ b. select_tier c.tiers b s.user r.headers spent)
        c.vision_fallback body decision (services.acquire wish s.world))

module _ (redis : Redis) where
  abbrev pub after_admission :
      ChatConfig
      → Services
      → ChatRequest
      → ℕ
      → Books
      → Result RoutingDecision × Ledger redis
      → Result Reply × Books × Ledger redis
  after_admission c services r spent s (err e, l) = (err e, s, l)
  after_admission c services r spent s (ok decision, l) =
      let (answer, after) = serve_decision c services r spent decision s in (answer, after, l)

  unfoldable pub chat_completions :
      ChatConfig
      → Services
      → Clock
      → ChatRequest
      → Books
      → Ledger redis
      → Result Reply × Books × Ledger redis
  chat_completions c services clock r s l =
      after_admission c services r (spent_since s.user.id clock.month_start s.requests) s
        (admit redis c.tiers c.limits clock r.body s.user r.headers s.requests l)

-- ===== src/Examples/Chats.antt =====
-- A request for a completion, from its admission to its answer.
use gpu_relay.Common.{inr, true, false, none, some, [], ◌∷◌, ok, err, runtime_error, provider_error}
use gpu_relay.Bridge.Inference.{Books}
use gpu_relay.Bridge.Whole.{ChatConfig, ChatRequest, Services}
use gpu_relay.Bridge.Whole.Booked.{Booked}
use gpu_relay.Examples.Data.{config, ann, asks, no_header, spent_request}
use gpu_relay.Examples.Gates.{limits}
use gpu_relay.Examples.Money.{costs, used_pod}
use gpu_relay.Examples.Pods.{world}
use gpu_relay.Examples.Inference.{show, response}

abbrev chat_config : ChatConfig
chat_config = record {
  tiers = config;
  limits = limits;
  costs = costs;
  local_preprocess_enabled = true;
  pipeline_default = "infer";
  groq_max_output_tokens = 2048;
  vision_fallback = "error";
  max_context_tokens = λ tier. 8192;
  model_no_tools = λ tier. none;
}

abbrev chat_request : ChatRequest
chat_request = record {
  body = asks "llm-code-review" "please review it";
  max_tokens = some 4096;
  tools = none;
  stream = false;
  idempotency_key = some "k2";
  headers = no_header;
  x_provider = some "runpod";
  pipeline_default = none;
  tier_override = λ tier. none;
}

abbrev services : Services
services = record {
  acquire = λ wish w. (ok used_pod, w);
  call = λ pod n payload. ok (response 200 "{}");
  stream = λ pod payload. inr "timeout";
  fix_chunk = λ chunk. chunk;
  delta_length = λ chunk. none;
  decimal = λ n. "503";
  json = λ r.
      ok (record { content = some "Hello."; prompt_tokens = some 12; completion_tokens = some 3 });
  fetch = λ url. err provider_error;
  run_preprocessor = λ body. err runtime_error;
  run_postprocessor = λ t. ok t;
  run_workflow = λ workflow body pod. ok "Looks good.";
  show = show;
  latency_ms = 4_000;
  users_seen = 2;
  now = 900;
}

abbrev start : Books
start = record { world = world []; user = ann; requests = spent_request ∷ [] }

-- ===== src/Bridge/Chat.antt =====
-- bridge/main.py, `chat_completions` between admission and inference: the pipeline's stages, what is
-- asked of `acquire`, what becomes of its exceptions, and the messages of the payload.
use gpu_relay.Common.{
  String, str_eq, Bool, true, false, not, ◌&&◌, Option, none, some, List, [], ◌∷◌, ◌++◌, filter,
  codes, is_infix, is_empty, join, strip, or_default, Result, Error, ok, err, http, volume_error,
  ◌>>=◌, if◌then◌else◌,
}
use gpu_relay.Models.{User}
use gpu_relay.Schemas.{ChatMessage, ChatCompletionRequest, RoutingDecision, PodHandle, message}
use gpu_relay.Router.Vision.{
  has_image_content, model_supports_vision, requires_non_vision_model, strip_images_from_messages,
}
use gpu_relay.Instance.State.{World}
use gpu_relay.Instance.Acquire.{Wish}
use gpu_relay.Pipeline.Split.{split}
use gpu_relay.Bridge.Messages.{
  resolve_image_urls, inject_vision_system, sanitize_messages_for_api_vision,
}

-- `a or b`, for texts
abbrev pub or_text : Option String → String → String
or_text none b = b
or_text (some a) b = if str_eq a "" then b else a

-- The stages without "preprocess".
unfoldable pub without_preprocess : String → String
without_preprocess pipeline =
    join "," (filter (λ s. not (str_eq (strip s) "preprocess")) (split b',' pipeline))

-- The request's pipeline, the user's or the setting's, without the stage that is switched off.
unfoldable pub pipeline_of : Bool → Option String → Option String → String → String
pipeline_of local_preprocess_enabled wished of_user default =
    let pipeline = or_text wished (or_text of_user default) in
    if not local_preprocess_enabled && is_infix (codes "preprocess") (codes pipeline)
    then without_preprocess pipeline
    else pipeline

-- The columns of `UserTierOverride` that the route reads.
pub record UserTierOverride : Type 0 where
  pub provider_order : List String
  pub disabled_providers : List String

-- `list({*_disabled, ...})`, with a provider perhaps more than once
abbrev pub disabled_by : Option UserTierOverride → List String → List String
disabled_by none disabled = disabled
disabled_by (some o) disabled = disabled ++ o.disabled_providers

abbrev pub ordered_by : Option UserTierOverride → List String → List String
ordered_by none order = order
ordered_by (some o) order = if is_empty o.provider_order then order else o.provider_order

abbrev pub disabled_of : User → List String
disabled_of user =
    if user.allow_local then user.disabled_providers else user.disabled_providers ++ "local" ∷ []

-- "" is no provider.
abbrev pub or_provider : Option String → Option String → Option String
or_provider none b = b
or_provider (some a) b = if str_eq a "" then b else some a

-- What the route asks of `acquire`.
unfoldable pub wish_for : User → Option UserTierOverride → Option String → RoutingDecision → Wish
wish_for user override x_provider decision = record {
  tier = decision.tier;
  provider_override = or_provider x_provider decision.provider_override;
  disabled_providers = disabled_by override (disabled_of user);
  provider_order = ordered_by override user.provider_order;
}

-- The wish of the second attempt, without the images.
abbrev pub plain_wish : RoutingDecision → Wish
plain_wish decision = record {
  tier = decision.tier;
  provider_override = none;
  disabled_providers = [];
  provider_order = [];
}

-- What the request goes on with.
pub record Acquired : Type 0 where
  pub body : ChatCompletionRequest
  pub decision : RoutingDecision
  pub pod : PodHandle

abbrev pub second_pod :
    ChatCompletionRequest → RoutingDecision → Result PodHandle × World → Result Acquired × World
second_pod body decision (err e, w) = (err (http 503), w)
second_pod body decision (ok pod, w) =
    (ok (record { body = body; decision = decision; pod = pod }), w)

abbrev pub second_attempt :
    (Wish → World → Result PodHandle × World)
    → ChatCompletionRequest
    → World
    → Result RoutingDecision
    → Result Acquired × World
second_attempt acquire body w (err e) = (err e, w)
second_attempt acquire body w (ok decision) =
    second_pod body decision (acquire (plain_wish decision) w)

-- The handlers of the exceptions of `acquire`; `again` routes the request without its images.
unfoldable pub no_pod :
    (Wish → World → Result PodHandle × World)
    → (ChatCompletionRequest → Result RoutingDecision)
    → String
    → ChatCompletionRequest
    → RoutingDecision
    → World
    → Error
    → Result Acquired × World
no_pod acquire again fallback body decision w volume_error = (err (http 400), w)
no_pod acquire again fallback body decision w _ =
    let stripped : ChatCompletionRequest = record body {
      messages = strip_images_from_messages body.messages;
    } in
    if not (str_eq decision.tier "vision")
    then (err (http 503), w)
    else if str_eq fallback "strip_images" && requires_non_vision_model body
    then second_attempt acquire stripped w (again stripped)
    else (err (http 400), w)

abbrev pub pod_or_error :
    (Wish → World → Result PodHandle × World)
    → (ChatCompletionRequest → Result RoutingDecision)
    → String
    → ChatCompletionRequest
    → RoutingDecision
    → Result PodHandle × World
    → Result Acquired × World
pod_or_error acquire again fallback body decision (ok pod, w) =
    (ok (record { body = body; decision = decision; pod = pod }), w)
pod_or_error acquire again fallback body decision (err e, w) =
    no_pod acquire again fallback body decision w e

-- `_OLLAMA_PROVIDERS`
abbrev pub ollama_providers : List String
ollama_providers = "runpod" ∷ "vast" ∷ "lambda" ∷ "local" ∷ "mock" ∷ []

abbrev pub vision_system_prompt : String
vision_system_prompt =
    "You are a precise visual analyst. Always respond in English only. Describe exactly what you see: colors, shapes, visible text, objects, composition, character identities if recognizable. Do NOT fabricate details that are not visually present — no invented text, objects, or background elements. Report colors as they appear in the image. If a detail is unclear, say so rather than guessing."

-- The images go if the model does not see.
unfoldable pub for_model : String → ChatCompletionRequest → ChatCompletionRequest
for_model model body =
    if has_image_content body.messages && not (model_supports_vision model)
    then record body { messages = strip_images_from_messages body.messages }
    else body

-- `{"role": m.role, "content": m.content}`
abbrev pub bare : List ChatMessage → List ChatMessage
bare [] = []
bare (m ∷ ms) = message m.role m.content ∷ bare ms

abbrev pub resolved_first :
    (String → Result (String × String))
    → Bool
    → List ChatMessage
    → Result (Option (List ChatMessage))
resolved_first fetch true ms = do ns ← resolve_image_urls fetch ms; ok (some ns)
resolved_first fetch false ms = ok none

-- The frame of a request to a vision model.
abbrev pub framed :
    Bool → String → List ChatMessage → Option (List ChatMessage) → Option (List ChatMessage)
framed ollama tier ms resolved =
    let base = or_default resolved (bare ms) in
    if str_eq tier "vision" && has_image_content ms
    then some (
        inject_vision_system vision_system_prompt
          (if ollama then base else sanitize_messages_for_api_vision base))
    else resolved

-- The messages of the payload, if they are not the request's own.
unfoldable pub resolved_messages :
    (String → Result (String × String))
    → Bool
    → String
    → List ChatMessage
    → Result (Option (List ChatMessage))
resolved_messages fetch ollama tier ms = do
  resolved ← resolved_first fetch (ollama && has_image_content ms) ms
  ok (framed ollama tier ms resolved)

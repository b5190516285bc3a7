-- ===== src/Examples/Bodies.antt =====
-- Streams, messages and payloads at concrete requests.
use gpu_relay.Common.{
  ℕ, ◌+◌, ◌<◌, String, str_eq, ◌≡◌, refl, true, false, Option, none, some, List, [], ◌∷◌, ◌++◌, All,
  map, ltb, Result, ok, ◌⊎◌, inl, if◌then◌else◌, arith,
}
use gpu_relay.Schemas.{ChatMessage, message, image_url, plain, parts}
use gpu_relay.Json.{Json, Items, Members, obj, arr, nil, cons, end, member}
use gpu_relay.Bridge.Stream.{
  pass_on, StreamAnswer, Streamed, event_stream, provider_message, data_line, done,
}
use gpu_relay.Bridge.Stream.Passed.{Brief}
use gpu_relay.Bridge.Messages.{listed, sanitize_messages_for_api_vision}
use gpu_relay.Bridge.Payload.{InferenceBody, Payload}

abbrev fix : String → String
fix chunk = chunk

-- Every chunk has a text of three characters.
abbrev three : String → Option ℕ
three chunk = some 3

abbrev lines : List String
lines = "data: {a}" ∷ "" ∷ "data: {b}" ∷ "data: [DONE]" ∷ "data: {c}" ∷ []

lines-Brief : All (Brief three) (pass_on fix three true lines).0
unfolding pass_on gpu_relay.Bridge.Stream.line_of gpu_relay.Common.strip
lines-Brief = (omega arith, (omega arith, (tt, tt)))

-- A pod whose alternative model is not there yet.
abbrev answering : String → StreamAnswer ⊎ String
answering model =
    if str_eq model "qwen"
    then inl (record { status_code = 200; text = ""; lines = lines; cut = none })
    else inl (record { status_code = 404; text = "model not found"; lines = []; cut = none })

-- The stream of the pod's own model is passed on, and no completion token is counted.
stream_falls_back :
    event_stream fix three true (provider_message (λ n. "404") "runpod") answering "alt" "qwen"
    ≡ record {
      events = data_line "{a}" ∷ data_line "{b}" ∷ done ∷ [];
      completion_tokens = 0;
      error_message = none;
    }
unfolding event_stream gpu_relay.Common.is_infix gpu_relay.Bridge.Stream.pass_on_fallback
    gpu_relay.Bridge.Stream.line_of gpu_relay.Common.strip
stream_falls_back = refl

abbrev with_image : List ChatMessage
with_image =
    message "system" (plain "Be brief.")
    ∷ message "user" (parts (image_url "https://host/cat.png" ∷ []))
    ∷ []

abbrev fetch : String → Result (String × String)
fetch url = ok ("image/png", "AAAA")

abbrev resolved : List ChatMessage
resolved =
    message "system" (plain "Be brief.")
    ∷ message "user" (parts (image_url "data:image/png;base64,AAAA" ∷ []))
    ∷ []

abbrev schema : Json
schema = obj (
    member "description" (Json.text "A tool.")
      (member "items" (arr (cons (obj (member "$schema" (Json.text "7") end)) nil)) end))

abbrev properties : Members
properties = member "description" (obj end) (member "title" (obj end) end)

abbrev required : Items
required = cons (Json.text "description") nil

abbrev body : InferenceBody
body = record { model = "llm-simple"; messages = with_image; max_tokens = some 9000; tools = none }

abbrev payload : Payload
payload = record {
  model = "qwen";
  messages = with_image;
  stream = false;
  max_tokens = some 2048;
  tools = none;
}

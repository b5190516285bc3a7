-- ===== src/Bridge/Stream.antt =====
-- bridge/main.py, `_stream_response`: the lines of the pod's event stream that are passed on, the
-- count of the tokens, and `event_generator` as a whole, for a client that reads to the end. The JSON
-- parser and the repair of a chunk are arguments: the length of a chunk's text, none where it cannot
-- be read.
pub mod Passed
use Prim.Native.String.{String}
use gpu_relay.Common.{
  ℕ, ◌+◌, ◌/◌, str_eq, Bool, true, false, not, ◌&&◌, ◌||◌, Option, none, some, List, [], ◌∷◌, any,
  or_default, strip_front, strip, prepend, codes, is_infix, join, ◌⊎◌, inl, inr, ltb, leb,
  if◌then◌else◌, ◌==◌,
}

-- An event for the client.
pub data Event : Type 0 where
  data_line : String → Event
  done : Event

-- A line of the stream: one that the client gets, the end mark, or one that is skipped.
pub data Line : Type 0 where
  chunk : String → Line
  end_mark skipped : Line

-- The rest of a line of data, or none for another line.
abbrev of_rest : Option String → Line
of_rest none = skipped
of_rest (some rest) = if str_eq (strip rest) "[DONE]" then end_mark else chunk rest

unfoldable pub line_of : String → Line
line_of line = of_rest (strip_front "data: " line)

-- `len(delta) // 4`
abbrev pub tokens_of : Option ℕ → ℕ
tokens_of none = 0
tokens_of (some n) = n / 4

-- The loop over the lines of the first stream.
unfoldable pub pass_on :
    (String → String) → (String → Option ℕ) → Bool → List String → List Event × ℕ
pass_on fix delta ollama [] = ([], 0)
pass_on fix delta ollama (line ∷ lines) =
    let rest = pass_on fix delta ollama lines in
    elim (line_of line) [
      | skipped ↦ rest
      | end_mark ↦ (done ∷ [], 0)
      | chunk c ↦
          let c' = if ollama then fix c else c in
          (data_line c' ∷ rest.0, tokens_of (delta c') + rest.1)
    ]

-- The loop over the lines of the second stream, after the fallback to the pod's own model.
unfoldable pub pass_on_fallback : List String → List Event
pass_on_fallback [] = []
pass_on_fallback (line ∷ lines) =
    let rest = pass_on_fallback lines in
    elim (line_of line) [ skipped ↦ rest | end_mark ↦ done ∷ [] | chunk c ↦ data_line c ∷ rest ]

-- What the exception's text says about the pod: whether it is to be marked as failed.
unfoldable pub marks_failed : String → Bool
marks_failed message =
    let m = codes message in
    not (is_infix (codes "HTTP 404") m && is_infix (codes "not found") m)
    && any (λ s. is_infix (codes s) m) ("model_not_available" ∷ "non-serverless" ∷ "HTTP 404" ∷ [])

-- The pod's answer to a call for a stream: its status, the first 2000 characters of an error, the
-- lines, and the text of the exception that cuts them off, if one does.
pub record StreamAnswer : Type 0 where
  pub status_code : ℕ
  pub text : String
  pub lines : List String
  pub cut : Option String

-- What the generator has yielded and counted, and the text of the exception that ended it.
pub record Streamed : Type 0 where
  pub events : List Event
  pub completion_tokens : ℕ
  pub error_message : Option String

abbrev pub answers : StreamAnswer → Bool
answers r = leb 200 r.status_code && ltb r.status_code 300

abbrev is_done : Event → Bool
is_done done = true
is_done (data_line c) = false

-- Behind the end mark the lines are not read on.
abbrev pub read_to : List Event → ℕ → Option String → Streamed
read_to events tokens cut = record {
  events = events;
  completion_tokens = tokens;
  error_message = if any is_done events then none else cut;
}

abbrev pub raised : String → Streamed
raised message = record { events = []; completion_tokens = 0; error_message = some message }

-- `f"Provider {pod.provider} HTTP {status}: {text}"`
abbrev pub provider_message : (ℕ → String) → String → StreamAnswer → String
provider_message decimal provider r =
    join "" ("Provider " ∷ provider ∷ " HTTP " ∷ decimal r.status_code ∷ ": " ∷ r.text ∷ [])

-- An exception of the transport is its text.
abbrev pub second_stream : (StreamAnswer → String) → StreamAnswer ⊎ String → Streamed
second_stream message (inr raises) = raised raises
second_stream message (inl r) =
    if answers r then read_to (pass_on_fallback r.lines) 0 r.cut else raised (message r)

abbrev pub is_stream_model_not_found : StreamAnswer → Bool
is_stream_model_not_found r =
    r.status_code == 404 && (is_infix (codes "not found") (codes r.text) || str_eq r.text "")

abbrev pub first_stream :
    (String → String)
    → (String → Option ℕ)
    → Bool
    → (StreamAnswer → String)
    → Bool
    → StreamAnswer ⊎ String
    → StreamAnswer ⊎ String
    → Streamed
first_stream fix delta ollama message has_other second (inr raises) = raised raises
first_stream fix delta ollama message has_other second (inl r) =
    let (events, tokens) = pass_on fix delta ollama r.lines in
    if answers r
    then read_to events tokens r.cut
    else if is_stream_model_not_found r && has_other
    then second_stream message second
    else raised (message r)

-- The try block of `event_generator`: the call for the payload's model, and for the pod's own model
-- where the first is not there.
unfoldable pub event_stream :
    (String → String)
    → (String → Option ℕ)
    → Bool
    → (StreamAnswer → String)
    → (String → StreamAnswer ⊎ String)
    → String
    → String
    → Streamed
event_stream fix delta ollama message call model pod_model =
    first_stream fix delta ollama message (not (str_eq model pod_model)) (call pod_model)
      (call model)

-- ===== src/Pipeline.antt =====
-- bridge/multi_model.py: the stages before and after the inference. The local model and the JSON
-- parser are arguments: what the preprocessor ends with, and what the postprocessor answers.
pub mod Replaced
use gpu_relay.Common.{
  ℕ, String, str_eq, Bool, true, false, not, ◌&&◌, Option, none, some, List, [], ◌∷◌, ◌++◌, filter,
  map, contains, codes, is_space, strip, prepend, Dict, lookup, Result, Error, ok, err, value_error,
  ◌==◌, if◌then◌else◌,
}
use gpu_relay.Schemas.{Part, Content, ChatMessage, message, ChatCompletionRequest}
use gpu_relay.Pipeline.Split.{split}
pub mod Split

-- `[s.strip() for s in pipeline.split(",") if s.strip()]`
unfoldable pub stages_of : String → List String
stages_of pipeline = filter (λ s. not (str_eq s "")) (map strip (split b',' pipeline))

-- A value of the preprocessor's JSON object: content that a message takes, or any other.
pub data Value : Type 0 where
  content : Content → Value
  invalid : Value

-- What `json.loads` returned: an object; a list or text, with whether it has "structured_prompt";
-- a number, a truth value or null.
pub data Output : Type 0 where
  object : Dict Value → Output
  sequence : Bool → Output
  scalar : Output

-- The content for the last user message, if the output has one; the exceptions are TypeError and
-- the model's ValidationError.
abbrev of_value : Option Value → Result (Option Content)
of_value none = ok none
of_value (some (content c)) = ok (some c)
of_value (some invalid) = err value_error

unfoldable pub structured_prompt : Output → Result (Option Content)
structured_prompt (object fields) = of_value (lookup "structured_prompt" fields)
structured_prompt (sequence true) = err value_error
structured_prompt (sequence false) = ok none
structured_prompt scalar = err value_error

-- The loop over the reversed messages: the new messages, and whether a user's was found.
unfoldable pub replace_last_user : Content → List ChatMessage → List ChatMessage × Bool
replace_last_user c [] = ([], false)
replace_last_user c (m ∷ ms) =
    let (rest, found_user) = replace_last_user c ms in
    if not found_user && str_eq m.role "user"
    then (message "user" c ∷ rest, true)
    else (m ∷ rest, found_user)

pub record PipelineMeta : Type 0 where
  pub stages_run : List String
  pub preprocessor_output : Option Output
  pub errors : List Error

abbrev pub rewritten :
    ChatCompletionRequest
    → PipelineMeta
    → Result (Option Content)
    → ChatCompletionRequest × PipelineMeta
rewritten request meta (err e) = (request, record meta { errors = e ∷ meta.errors })
rewritten request meta (ok none) = (request, meta)
rewritten request meta (ok (some c)) =
    (record request { messages = (replace_last_user c request.messages).0 }, meta)

abbrev pub preprocessed :
    ChatCompletionRequest → PipelineMeta → Result Output → ChatCompletionRequest × PipelineMeta
preprocessed request meta (err e) = (request, record meta { errors = e ∷ meta.errors })
preprocessed request meta (ok output) =
    rewritten request (record meta { preprocessor_output = some output }) (structured_prompt output)

unfoldable pub run_pipeline :
    (ChatCompletionRequest → Result Output)
    → ChatCompletionRequest
    → String
    → ChatCompletionRequest × PipelineMeta
run_pipeline run_preprocessor request pipeline =
    let stages = stages_of pipeline in
    let meta : PipelineMeta = record {
      stages_run = stages;
      preprocessor_output = none;
      errors = [];
    } in
    if contains "preprocess" stages
    then preprocessed request meta (run_preprocessor request)
    else (request, meta)

abbrev postprocessed : String → List Error → Result String → String × List Error
postprocessed text errors (err e) = (text, e ∷ errors)
postprocessed text errors (ok t) = (t, errors)

-- The answer, and the errors of the pipeline's record.
unfoldable pub run_postprocess :
    (String → Result String) → String → String → List Error → String × List Error
run_postprocess run_postprocessor text pipeline errors =
    if contains "postprocess" (stages_of pipeline)
    then postprocessed text errors (run_postprocessor text)
    else (text, errors)

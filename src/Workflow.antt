-- ===== src/Workflow.antt =====
-- bridge/multi_model.py, `WORKFLOW_MODELS` and `WorkflowOrchestrator`. The prompt optimizer and the
-- model on the pod are arguments: what they answer, or the exception.
pub mod Optimizer
pub mod Local
pub mod Prompts
pub mod Coding
pub mod Visual
pub mod Survived
use gpu_relay.Common.{
  String, str_eq, Option, none, some, List, [], ◌∷◌, ◌++◌, Dict, lookup, or_default, Result, Error,
  ok, err, value_error, if◌then◌else◌,
}
use gpu_relay.Schemas.{ChatMessage, text_content, ChatCompletionRequest}

-- `none` stands for a tier that the preprocessor suggests.
pub record WorkflowDef : Type 0 where
  pub gpu_tier : Option String
  pub workflow : String

abbrev def : Option String → String → WorkflowDef
def tier name = record { gpu_tier = tier; workflow = name }

abbrev pub workflow_models : Dict WorkflowDef
workflow_models =
    ("llm-smart", def none "optimize_and_execute")
    ∷ ("llm-code-review", def (some "architecture") "code_review")
    ∷ ("llm-refactor", def (some "architecture") "refactoring")
    ∷ ("llm-arch-design", def (some "maximum") "architecture_design")
    ∷ ("llm-visual-html", def (some "vision") "visual_html")
    ∷ []

-- A message as it is sent: its role and its text.
abbrev pub Sent : Type 0
Sent = String × String

abbrev without_last : List ChatMessage → List Sent
without_last [] = []
without_last (m ∷ []) = []
without_last (m ∷ n ∷ ms) = (m.role, text_content m) ∷ without_last (n ∷ ms)

-- `_prior_messages`
unfoldable pub prior_messages : ChatCompletionRequest → List Sent
prior_messages request = without_last request.messages

-- The record of a run: its stages and the errors that it survived, both in order.
pub record WorkflowMeta : Type 0 where
  pub stages : List String
  pub errors : List Error

-- `optimized.get("structured_prompt") or user_content`
abbrev pub prompt_of : Dict String → String → String
prompt_of optimized user_content =
    let prompt = or_default (lookup "structured_prompt" optimized) "" in
    if str_eq prompt "" then user_content else prompt

abbrev pub optimized_prompt : String → Result (Dict String) → String × List Error
optimized_prompt user_content (err e) = (user_content, e ∷ [])
optimized_prompt user_content (ok fields) = (prompt_of fields user_content, [])

abbrev pub answered : List Error → Result String → Result (String × WorkflowMeta)
answered errors (err e) = err e
answered errors (ok answer) =
    ok (answer, record { stages = "local:optimize" ∷ "gpu:execute" ∷ []; errors = errors })

abbrev pub execute :
    (List Sent → Result String)
    → ChatCompletionRequest
    → String × List Error
    → Result (String × WorkflowMeta)
execute gpu_call request (prompt, errors) =
    answered errors (gpu_call (prior_messages request ++ ("user", prompt) ∷ []))

-- `_optimize_and_execute`, with the text values of the optimizer's JSON object.
unfoldable pub optimize_and_execute :
    (String → Result (Dict String))
    → (List Sent → Result String)
    → String
    → ChatCompletionRequest
    → Result (String × WorkflowMeta)
optimize_and_execute optimize gpu_call user_content request =
    execute gpu_call request (optimized_prompt user_content (optimize user_content))

-- ===== src/Workflow/Coding.antt =====
-- bridge/multi_model.py: the workflows that review, refactor and design. The local model and the
-- model on the pod are arguments, a local model's prompt with the stage that it is for.
use gpu_relay.Common.{String, List, [], ◌∷◌, ◌++◌, Result, Error, ok, ◌>>=◌}
use gpu_relay.Schemas.{ChatCompletionRequest}
use gpu_relay.Json.{Json, text, arr, obj, nil, cons, end, member}
use gpu_relay.Workflow.{Sent, WorkflowMeta, prior_messages}
use gpu_relay.Workflow.Local.{get_list, get_shown, members_of, analysed, loads, optional}
use gpu_relay.Workflow.Prompts.{
  review_prompt, summary_prefix, review_text, plan_prompt, validation_note, impl_prompt,
  refactoring_text, design_prompt, checklist_section, detail_prompt, design_text,
}

-- The models that a run calls; `show` is Python's `str` of a JSON value.
pub record Models : Type 0 where
  pub local_call : (stage user : String) → Result String
  pub gpu_call : List Sent → Result String
  pub loads : String → Result Json
  pub show : Json → String

-- The analysis of the request by the local model.
abbrev pub analysis : Models → String → Json → String → Json × List Error
analysis m stage default user_content =
    analysed default (loads m.loads (m.local_call stage user_content))

abbrev pub ask : Models → ChatCompletionRequest → String → Result String
ask m request prompt = m.gpu_call (prior_messages request ++ ("user", prompt) ∷ [])

abbrev default_scope : Json
default_scope = obj (
    member "scope" (text "single_file") (
      member "focus_areas" (arr (cons (text "correctness") (cons (text "style") nil)))
        (member "estimated_complexity" (text "moderate") end)))

abbrev reviewed : List Error → String → String × List Error → String × WorkflowMeta
reviewed errors review (prefix, more) = (
  review_text prefix review,
  record {
    stages = "local:categorize" ∷ "gpu:review" ∷ "local:summarize" ∷ [];
    errors = errors ++ more;
  },
)

-- The review, once the request is analysed.
unfoldable pub review_with :
    Models → String → ChatCompletionRequest → Json × List Error → Result (String × WorkflowMeta)
review_with m user_content request (cat, errors) = do
  fields ← members_of cat
  focus ← get_list "focus_areas" ("correctness" ∷ "style" ∷ "performance" ∷ []) fields
  review ← ask m request (review_prompt focus user_content)
  ok (reviewed errors review (optional summary_prefix (m.local_call "local:summarize" review)))

unfoldable pub code_review :
    Models → String → ChatCompletionRequest → Result (String × WorkflowMeta)
code_review m user_content request =
    review_with m user_content request (analysis m "local:categorize" default_scope user_content)

abbrev default_analysis : Json
default_analysis = obj (
    member "refactoring_type" (text "general") (
      member "key_concerns" (arr (cons (text "readability") nil))
        (member "approach" (text "systematic refactoring") end)))

abbrev refactored : List Error → String → String × List Error → String → String × WorkflowMeta
refactored errors plan (note, more) implementation = (
  refactoring_text plan note implementation,
  record {
    stages = "local:analyze" ∷ "gpu:plan" ∷ "local:validate" ∷ "gpu:implement" ∷ [];
    errors = errors ++ more;
  },
)

unfoldable pub refactor_with :
    Models → String → ChatCompletionRequest → Json × List Error → Result (String × WorkflowMeta)
refactor_with m user_content request (ana, errors) = do
  fields ← members_of ana
  concerns ← get_list "key_concerns" [] fields
  plan ← ask m request (
      plan_prompt (get_shown m.show "refactoring_type" "general" fields) concerns
        (get_shown m.show "approach" "" fields) user_content)
  implementation ← ask m request (impl_prompt plan)
  ok (
      refactored errors plan (optional validation_note (m.local_call "local:validate" plan))
        implementation)

-- `_refactoring`; the local model's note has no effect on the call behind it.
unfoldable pub refactoring :
    Models → String → ChatCompletionRequest → Result (String × WorkflowMeta)
refactoring m user_content request =
    refactor_with m user_content request (analysis m "local:analyze" default_analysis user_content)

abbrev default_requirements : Json
default_requirements = obj (
    member "system_type" (text "web_api") (
      member "key_requirements" (arr nil)
        (member "constraints" (arr nil) (member "scale_hints" (text "unknown") end))))

abbrev designed : List Error → String → String × List Error → String → String × WorkflowMeta
designed errors architecture (checklist, more) details = (
  design_text architecture checklist details,
  record {
    stages =
        "local:parse_requirements" ∷ "gpu:design" ∷ "local:checklist" ∷ "gpu:implementation_details"
        ∷ [];
    errors = errors ++ more;
  },
)

unfoldable pub design_with :
    Models → String → ChatCompletionRequest → Json × List Error → Result (String × WorkflowMeta)
design_with m user_content request (reqs, errors) = do
  fields ← members_of reqs
  required ← get_list "key_requirements" [] fields
  constraints ← get_list "constraints" [] fields
  architecture ← ask m request (
      design_prompt (get_shown m.show "system_type" "general" fields) required constraints
        (get_shown m.show "scale_hints" "unknown" fields) user_content)
  details ← ask m request (detail_prompt architecture)
  ok (
      designed errors architecture
        (optional checklist_section (m.local_call "local:checklist" architecture)) details)

unfoldable pub architecture_design :
    Models → String → ChatCompletionRequest → Result (String × WorkflowMeta)
architecture_design m user_content request =
    design_with m user_content request
      (analysis m "local:parse_requirements" default_requirements user_content)

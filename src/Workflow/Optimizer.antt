-- ===== src/Workflow/Optimizer.antt =====
-- What the smart workflow makes of the optimizer's answer.
use gpu_relay.Common.{
  String, ◌≡◌, refl, ap, ◌∙◌, none, List, [], ◌∷◌, ◌++◌, Dict, lookup, Result, Error, ok, err,
}
use gpu_relay.Schemas.{ChatCompletionRequest}
use gpu_relay.Workflow.{
  Sent, WorkflowMeta, prior_messages, optimized_prompt, prompt_of, optimize_and_execute, execute,
  answered,
}

no-prompt :
    (text : String) (fields : Dict String)
    → lookup "structured_prompt" fields ≡ none
    → prompt_of fields text ≡ text
no-prompt text fields missing = rw missing refl

-- The optimizer is asked for an object with "task_type", "language", "complexity",
-- "optimized_prompt", "suggested_tier" and "context_hints". Whenever its answer has no
-- "structured_prompt", the pod gets the user's own text, and the run is the one with an optimizer
-- that answers nothing at all: the optimized prompt is never sent.
pub optimized_prompt_unused :
    (optimize : String → Result (Dict String)) (gpu_call : List Sent → Result String)
    (text : String) (request : ChatCompletionRequest) (fields : Dict String)
    → optimize text ≡ ok fields
    → lookup "structured_prompt" fields ≡ none
    → optimize_and_execute optimize gpu_call text request
      ≡ optimize_and_execute (λ t. ok []) gpu_call text request
unfolding optimize_and_execute lookup
optimized_prompt_unused optimize gpu_call text request fields answer missing =
    ap (λ r. execute gpu_call request (optimized_prompt text r)) answer
    ∙ ap (λ (p : String). execute gpu_call request (p, [])) (no-prompt text fields missing)

-- The smart workflow fails only if the pod fails: an optimizer that raises costs one entry among
-- the run's errors, and the pod gets the user's own text.
pub optimizer_fails :
    (optimize : String → Result (Dict String)) (gpu_call : List Sent → Result String)
    (text : String) (request : ChatCompletionRequest) (e : Error) (answer : String)
    → optimize text ≡ err e
    → gpu_call (prior_messages request ++ ("user", text) ∷ []) ≡ ok answer
    → (run : WorkflowMeta) × (optimize_and_execute optimize gpu_call text request
        ≡ ok (answer, run))
      × (run.errors ≡ e ∷ [])
unfolding optimize_and_execute lookup
optimizer_fails optimize gpu_call text request e answer failed sent = (
  _,
  ap (λ r. execute gpu_call request (optimized_prompt text r)) failed ∙ ap (answered (e ∷ [])) sent,
  refl,
)

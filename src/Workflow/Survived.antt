-- ===== src/Workflow/Survived.antt =====
-- Which failures the coding workflows survive.
use gpu_relay.Common.{
  String, ◌≡◌, refl, ◌⊎◌, inl, inr, List, [], ◌∷◌, Result, Error, ok, err, value_error,
}
use gpu_relay.Schemas.{ChatCompletionRequest}
use gpu_relay.Json.{Items, arr, text, get_member}
use gpu_relay.Workflow.{Sent, WorkflowMeta}
use gpu_relay.Workflow.Local.{get_list, get_shown, loads, is_falsy, strings, texts_of}
use gpu_relay.Workflow.Coding.{
  Models, code_review, refactoring, architecture_design, review_with, refactor_with, design_with,
}

-- The run gives a text, with these stages and these errors.
abbrev pub Runs : List String → List Error → Result (String × WorkflowMeta) → Type 0
Runs stages errors r =
    (answer : String) × (run : WorkflowMeta) × (r ≡ ok (answer, run))
    × (run.stages ≡ stages)
    × (run.errors ≡ errors)

module _ (m : Models) (user_content : String) (request : ChatCompletionRequest) (e : Error)
    (answer : List Sent → String) (down : (stage user : String) → m.local_call stage user ≡ err e)
    (up : (sent : List Sent) → m.gpu_call sent ≡ ok (answer sent)) where
  -- The local model is down and the pod answers: each of the three workflows gives a text after all
  -- of its stages, and its record has the two errors of the local stages.
  pub local_model_down :
      Runs
        ("local:categorize" ∷ "gpu:review" ∷ "local:summarize" ∷ [])
        (e ∷ e ∷ [])
        (code_review m user_content request)
      × Runs
          ("local:analyze" ∷ "gpu:plan" ∷ "local:validate" ∷ "gpu:implement" ∷ [])
          (e ∷ e ∷ [])
          (refactoring m user_content request)
      × Runs
          ("local:parse_requirements" ∷ "gpu:design" ∷ "local:checklist"
            ∷ "gpu:implementation_details" ∷ [])
          (e ∷ e ∷ [])
          (architecture_design m user_content request)
  unfolding code_review refactoring architecture_design review_with refactor_with design_with
      get_list get_member get_shown is_falsy strings texts_of
  local_model_down = (
    rw (down "local:categorize" user_content, up, down) (_, _, refl, refl, refl),
    rw (down "local:analyze" user_content, up, up, down) (_, _, refl, refl, refl),
    rw (down "local:parse_requirements" user_content, up, up, down) (_, _, refl, refl, refl),
  )

-- The local model answers the analysis with a JSON list, or a text, in place of an object: the
-- parsing succeeds, and the run fails behind it with AttributeError, outside the block that catches
-- the errors of the stage, whatever the pod would answer. The review, the refactoring and the
-- design all fail so, although each has a default for an analysis that is missing.
pub sequence_answer_fails :
    (m : Models) (user_content : String) (request : ChatCompletionRequest) (xs : Items) (t : String)
    → ((stage : String)
        → (loads m.loads (m.local_call stage user_content) ≡ ok (arr xs))
          ⊎ (loads m.loads (m.local_call stage user_content) ≡ ok (text t)))
    → (code_review m user_content request ≡ err value_error)
      × (refactoring m user_content request ≡ err value_error)
      × (architecture_design m user_content request ≡ err value_error)
unfolding code_review refactoring architecture_design review_with refactor_with design_with
sequence_answer_fails m user_content request xs t h = (
  elim (h "local:categorize") [ inl e ↦ rw (e) refl | inr e ↦ rw (e) refl ],
  elim (h "local:analyze") [ inl e ↦ rw (e) refl | inr e ↦ rw (e) refl ],
  elim (h "local:parse_requirements") [ inl e ↦ rw (e) refl | inr e ↦ rw (e) refl ],
)

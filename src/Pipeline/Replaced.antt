-- ===== src/Pipeline/Replaced.antt =====
-- What the preprocessing stage may do to a request.
use gpu_relay.Common.{
  String, str_eq, ◌≡◌, refl, ◌⊎◌, inl, inr, Bool, true, false, Option, none, some, List, [], ◌∷◌,
  ◌++◌, contains, Result, Error, ok, err, ap, Bool-cases, Result-cases, any,
}
use gpu_relay.Schemas.{Content, ChatMessage, message, ChatCompletionRequest}
use gpu_relay.Pipeline.{
  Output, structured_prompt, stages_of, replace_last_user, run_pipeline, PipelineMeta, rewritten,
}

abbrev pub is_user : ChatMessage → Bool
is_user m = str_eq m.role "user"

-- The last message of the user has new content; all the others stay.
abbrev pub LastReplaced : Content → List ChatMessage → List ChatMessage → Type 0
LastReplaced c old new =
    (before : List ChatMessage) × (m : ChatMessage) × (after : List ChatMessage) × (old
      ≡ before ++ m ∷ after)
    × (is_user m ≡ true)
    × (any is_user after ≡ false)
    × (new ≡ before ++ message "user" c ∷ after)

replace-found :
    (c : Content) (ms : List ChatMessage)
    → ((any is_user ms ≡ false) × (replace_last_user c ms ≡ (ms, false)))
      ⊎ (((replace_last_user c ms).1 ≡ true) × LastReplaced c ms (replace_last_user c ms).0)
unfolding replace_last_user
replace-found c [] = inl (refl, refl)
replace-found c (m ∷ ms) = elim (replace-found c ms) [
  | inl (no_user, e) ↦ elim (Bool-cases (is_user m)) [
    | inl user ↦ inr (rw (e, user) (refl, ([], m, ms, refl, user, no_user, refl)))
    | inr other ↦ inl (rw (other, no_user) refl, rw (e, other) refl)
  ]
  | inr (found, (before, n, after, split, user, later, new)) ↦
      inr (rw found (refl, (m ∷ before, n, after, ap (◌∷◌ m) split, user, later, ap (◌∷◌ m) new)))
]

replaced :
    (c : Content) (ms : List ChatMessage)
    → ((replace_last_user c ms).0 ≡ ms) ⊎ LastReplaced c ms (replace_last_user c ms).0
replaced c ms = elim (replace-found c ms) [
  | inl (no_user, e) ↦ inl (rw e refl)
  | inr (found, h) ↦ inr h
]

rewritten-messages :
    (request : ChatCompletionRequest) (meta : PipelineMeta) (r : Result (Option Content))
    → ((rewritten request meta r).0 ≡ request)
      ⊎ ((c : Content) × LastReplaced c request.messages (rewritten request meta r).0.messages
          × ((rewritten request meta r).0.model ≡ request.model))
rewritten-messages request meta (err e) = inl refl
rewritten-messages request meta (ok none) = inl refl
rewritten-messages request meta (ok (some c)) = elim (replaced c request.messages) [
  | inl same ↦ inl (ap (λ ms. record request { messages = ms }) same)
  | inr h ↦ inr (c, h, refl)
]

-- Whatever the local model answers, the pipeline gives a request on: the one that came, or one
-- whose last user message has new content, with all its other messages and its model unchanged.
pub run_pipeline-LastReplaced :
    (preprocessor : ChatCompletionRequest → Result Output) (request : ChatCompletionRequest)
    (pipeline : String)
    → let after = (run_pipeline preprocessor request pipeline).0 in
      (after ≡ request)
      ⊎ ((c : Content) × LastReplaced c request.messages after.messages
          × (after.model ≡ request.model))
unfolding run_pipeline
run_pipeline-LastReplaced preprocessor request pipeline =
    elim (Bool-cases (contains "preprocess" (stages_of pipeline))) [
      | inr off ↦ inl (rw off refl)
      | inl on ↦ elim (Result-cases (preprocessor request)) [
        | inl (e, failed) ↦ inl (rw (on, failed) refl)
        | inr (output, done) ↦
            rw (on, done) (rewritten-messages request _ (structured_prompt output))
      ]
    ]

-- A preprocessor that fails is one entry among the pipeline's errors, and the request goes on as
-- it came.
pub run_pipeline-fails :
    (preprocessor : ChatCompletionRequest → Result Output) (request : ChatCompletionRequest)
    (pipeline : String) (e : Error)
    → preprocessor request ≡ err e
    → contains "preprocess" (stages_of pipeline) ≡ true
    → let (after, meta) = run_pipeline preprocessor request pipeline in
      (after ≡ request) × (meta.errors ≡ e ∷ []) × (meta.stages_run ≡ stages_of pipeline)
unfolding run_pipeline
run_pipeline-fails preprocessor request pipeline e failed on = rw (on, failed) (refl, refl, refl)

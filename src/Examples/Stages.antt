-- ===== src/Examples/Stages.antt =====
-- The stages around an inference, and the GPU offers, at concrete inputs.
use gpu_relay.Common.{
  All, ℕ, String, ◌≡◌, ◌⊎◌, refl, Bool, true, false, Option, none, some, List, [], ◌∷◌, ◌++◌, Dict,
  lookup, Result, Error, ok, err, provider_error, runtime_error, filter, contains,
}
use gpu_relay.Schemas.{Content, plain, ChatCompletionRequest}
use gpu_relay.Gpu.{GpuOffer, is_candidate, select_gpu_offer}
use gpu_relay.Pipeline.{Output, object, Value, content, run_pipeline, stages_of, PipelineMeta}
use gpu_relay.Pipeline.Replaced.{LastReplaced, run_pipeline-LastReplaced}
use gpu_relay.Workflow.{Sent}
use gpu_relay.Examples.Data.{asks}

abbrev offer : String → ℕ → ℕ → GpuOffer
offer gpu vram cost = record {
  provider = "runpod";
  gpu = gpu;
  vram_gb = vram;
  cost_per_hour_usd = cost;
  available = true;
  gpu_type_id = gpu;
}

abbrev offers : List GpuOffer
offers =
    offer "NVIDIA A100 80GB" 80 1_890_000
    ∷ offer "RTX A6000" 24 330_000
    ∷ offer "RTX 3090" 24 340_000
    ∷ offer "RTX 2000" 16 100_000
    ∷ []

selected : select_gpu_offer "simple" offers ≡ ok (offer "RTX 3090" 24 340_000)
unfolding select_gpu_offer gpu_relay.Gpu.rank_gpu_offers is_candidate lookup gpu_relay.Gpu.sorted
    gpu_relay.Gpu.place gpu_relay.Gpu.rank gpu_relay.Gpu.preference gpu_relay.Common.is_infix
selected = refl

abbrev rewrites : ChatCompletionRequest → Result Output
rewrites request = ok (object (("structured_prompt", content (plain "Refactor main.py.")) ∷ []))

run_pipeline-LastReplaced_example :
    let request = asks "llm-auto" "pls refactor" in
    let after = (run_pipeline rewrites request "preprocess, infer").0 in
    (after ≡ request)
    ⊎ ((c : Content) × LastReplaced c request.messages after.messages
        × (after.model ≡ request.model))
run_pipeline-LastReplaced_example =
    run_pipeline-LastReplaced rewrites (asks "llm-auto" "pls refactor") "preprocess, infer"

abbrev raises : ChatCompletionRequest → Result Output
raises request = err runtime_error

staged : contains "preprocess" (stages_of "preprocess, infer") ≡ true
unfolding stages_of gpu_relay.Pipeline.Split.split gpu_relay.Common.strip
staged = refl

abbrev documented : Dict String
documented = ("task_type", "refactor") ∷ ("optimized_prompt", "Refactor main.py.") ∷ []

abbrev optimizer : String → Result (Dict String)
optimizer text = ok documented

abbrev answers : List Sent → Result String
answers messages = ok "done"

no_structured_prompt : lookup "structured_prompt" documented ≡ none
unfolding lookup
no_structured_prompt = refl

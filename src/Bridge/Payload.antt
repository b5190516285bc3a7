-- ===== src/Bridge/Payload.antt =====
-- bridge/main.py: the JSON body of an inference.
pub mod Slim
use gpu_relay.Common.{
  ℕ, String, str_eq, Bool, true, false, ◌||◌, Option, none, some, List, [], ◌∷◌, min, ltb, Result,
  Error, ok, err, value_error, ◌>>=◌, if◌then◌else◌, map,
}
use gpu_relay.Schemas.{ChatMessage}
use gpu_relay.Json.{
  Json, Items, Members, scalar, text, arr, obj, nil, cons, end, member, get_member, set_member,
  pop_member,
}

abbrev pub is_verbose : String → Bool
is_verbose k = str_eq k "description" || str_eq k "$schema"

-- `_strip_schema_verbosity`
unfoldable mutual
  pub strip_schema_verbosity : Json → Json
  strip_schema_verbosity (scalar t) = scalar t
  strip_schema_verbosity (text t) = text t
  strip_schema_verbosity (arr xs) = arr (strip_items xs)
  strip_schema_verbosity (obj ms) = obj (strip_members ms)

  pub strip_items : Items → Items
  strip_items nil = nil
  strip_items (cons x xs) = cons (strip_schema_verbosity x) (strip_items xs)

  pub strip_members : Members → Members
  strip_members end = end
  strip_members (member k v ms) =
      let rest = strip_members ms in
      let v' = strip_schema_verbosity v in if is_verbose k then rest else member k v' rest

-- `dict(t.get("function", {}))`
abbrev function_of : Option Json → Result Members
function_of none = ok end
function_of (some (obj ms)) = ok ms
function_of (some _) = err value_error

abbrev slim_parameters : Members → Members
slim_parameters fn = elim (get_member "parameters" fn) [
  | none ↦ fn
  | some p ↦ set_member "parameters" (strip_schema_verbosity p) fn
]

-- One round of `_slim_tools`
unfoldable pub slim_tool : Members → Result Members
slim_tool tool = do
  fn ← function_of (get_member "function" tool)
  ok (set_member "function" (obj (slim_parameters (pop_member "description" fn))) tool)

-- `_slim_tools`, on a list of dicts
unfoldable pub slim_tools : List Members → Result (List Members)
slim_tools [] = ok []
slim_tools (t ∷ ts) = let rest = slim_tools ts in (do t' ← slim_tool t; ts' ← rest; ok (t' ∷ ts'))

-- What a request says of its inference.
pub record InferenceBody : Type 0 where
  pub model : String
  pub messages : List ChatMessage
  pub max_tokens : Option ℕ
  pub tools : Option (List Members)

pub record Payload : Type 0 where
  pub model : String
  pub messages : List ChatMessage
  pub stream : Bool
  pub max_tokens : Option ℕ
  pub tools : Option (List Members)

-- `max_tokens_cap` is 0 for None; the last argument is the setting `groq_max_output_tokens`.
unfoldable pub capped_tokens : ℕ → String → ℕ → ℕ → ℕ
capped_tokens cap provider groq_max n =
    let m = if ltb 0 cap then min n cap else n in
    if str_eq provider "groq" then min m groq_max else m

abbrev pub tools_of : Option (List Members) → Result (Option (List Members))
tools_of none = ok none
tools_of (some ts) = do slim ← slim_tools ts; ok (some slim)

abbrev pub cap_of : (ℕ → ℕ) → Option ℕ → Option ℕ
cap_of f none = none
cap_of f (some n) = some (f n)

abbrev pub or_messages : Option (List ChatMessage) → List ChatMessage → List ChatMessage
or_messages none ms = ms
or_messages (some ns) ms = ns

-- `_build_inference_payload` with `slim_tools=True`, without the fields that are passed on as they
-- are. The model is "" for None.
unfoldable pub build_inference_payload :
    InferenceBody → Bool → String → Option (List ChatMessage) → ℕ → String → ℕ → Result Payload
build_inference_payload body stream model messages cap provider groq_max = do
  tools ← tools_of body.tools
  ok (record {
    model = if str_eq model "" then body.model else model;
    messages = or_messages messages body.messages;
    stream = stream;
    max_tokens = cap_of (capped_tokens cap provider groq_max) body.max_tokens;
    tools = tools;
  })

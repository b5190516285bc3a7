-- ===== src/Schemas.antt =====
-- bridge/schemas.py: chat messages, chat requests and routing decisions.
use gpu_relay.Common.{ℕ, String, Bool, Option, none, List, [], ◌∷◌, ℚ, join}

-- A content part: a dict with type "text" or "image_url", or any other dict. `other` stands for
-- the types that the program never looks at.
pub data Part : Type 0 where
  text image_url : String → Part
  other : Part

pub data Content : Type 0 where
  absent : Content
  plain : String → Content
  parts : List Part → Content

pub record ChatMessage : Type 0 where
  pub role : String
  pub content : Content
  pub name : Option String
  pub tool_call_id : Option String
  pub tool_calls : Option (List String)

-- ChatMessage(role=role, content=content)
abbrev pub message : String → Content → ChatMessage
message r c = record { role = r; content = c; name = none; tool_call_id = none; tool_calls = none }

-- The texts of the parts of type "text".
unfoldable pub part_texts : List Part → List String
part_texts [] = []
part_texts (text t ∷ ps) = t ∷ part_texts ps
part_texts (_ ∷ ps) = part_texts ps

unfoldable pub text_content : ChatMessage → String
unfolding part_texts join
text_content m = elim m.content [ absent ↦ "" | plain t ↦ t | parts ps ↦ join " " (part_texts ps) ]

pub record ChatCompletionRequest : Type 0 where
  pub model : String
  pub messages : List ChatMessage
  pub files_referenced : Option ℕ
  pub pipeline : Option String

-- Why a tier was chosen: the text of `RoutingDecision.reason`, by its parts.
pub data Reason : Type 0 where
  vision_content_detected local_model_requested prompt_tier_hint : Reason
  explicit_override : String → Reason
  workflow : String → Reason
  signals : (tokens files keywords : Bool) → Reason
  downgrade : String → Reason → Reason

pub record RoutingDecision : Type 0 where
  pub tier : String
  pub reason : Reason
  pub projected_cost_usd : ℚ
  pub downgraded_from : Option String
  pub provider_override : Option String

pub record PodHandle : Type 0 where
  pub pod_id : String
  pub provider : String
  pub tier : String
  pub endpoint_url : String
  pub cost_per_hour_usd : ℚ
  pub model : String
  pub cold_start : Bool

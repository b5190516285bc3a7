-- ===== src/Router/Vision.antt =====
-- bridge/router.py, the vision helpers.
use gpu_relay.Common.{
  String, str_eq, Bool, true, false, List, [], ◌∷◌, map, any, codes, to_lower, is_infix, join,
  strip, if◌then◌else◌, ◌≡◌, refl, arith,
}
use gpu_relay.Schemas.{
  Part, image_url, Content, absent, plain, parts, ChatMessage, ChatCompletionRequest, part_texts,
}

abbrev pub vision_models : List String
vision_models =
    "llava" ∷ "bakllava" ∷ "moondream" ∷ "llava-llama3" ∷ "minicpm-v" ∷ "gpt-4o" ∷ "gpt-4-vision"
    ∷ "claude-3" ∷ "gemini" ∷ "llama-3.2" ∷ "llama-4" ∷ "vision-instruct" ∷ "qwen3-vl"
    ∷ "qwen2.5-vl" ∷ "qwen2-vl" ∷ []

-- `getattr(request, 'downstream_model', None)`: the request class has no such field, so the
-- default is what is read.
unfoldable pub requires_non_vision_model : ChatCompletionRequest → Bool
requires_non_vision_model request = false

unfoldable pub is_image : Part → Bool
is_image (image_url u) = true
is_image _ = false

unfoldable pub has_image : Content → Bool
unfolding is_image
has_image (parts ps) = any is_image ps
has_image _ = false

unfoldable pub has_image_content : List ChatMessage → Bool
unfolding has_image
has_image_content ms = any (λ (m : ChatMessage). has_image m.content) ms

unfoldable pub model_supports_vision : String → Bool
unfolding is_infix
model_supports_vision name = any (λ v. is_infix (codes v) (map to_lower (codes name))) vision_models

abbrev pub removed_notice : String
removed_notice = "[image removed — model does not support vision]"

unfoldable pub without_images : Content → Content
unfolding part_texts join strip
without_images (parts ps) =
    let t = strip (join " " (part_texts ps)) in plain (if str_eq t "" then removed_notice else t)
without_images absent = absent
without_images (plain t) = plain t

abbrev pub text_only : ChatMessage → ChatMessage
text_only m = record m { content = without_images m.content }

unfoldable pub strip_images_from_messages : List ChatMessage → List ChatMessage
unfolding without_images
strip_images_from_messages ms = map text_only ms

-- A content without image parts.
without_images_lem : (c : Content) → has_image (without_images c) ≡ false
unfolding has_image without_images
without_images_lem absent = refl
without_images_lem (plain t) = refl
without_images_lem (parts ps) = refl

-- After stripping, no message has an image part. The roles of the messages, their number and
-- their tool calls are as before.
pub strip_images_lem :
    (ms : List ChatMessage)
    → (has_image_content (strip_images_from_messages ms) ≡ false)
      × (map (λ (m : ChatMessage). m.role) (strip_images_from_messages ms)
          ≡ map (λ (m : ChatMessage). m.role) ms)
      × (map (λ (m : ChatMessage). m.tool_calls) (strip_images_from_messages ms)
          ≡ map (λ (m : ChatMessage). m.tool_calls) ms)
unfolding has_image_content strip_images_from_messages
strip_images_lem [] = (refl, refl, refl)
strip_images_lem (m ∷ ms) = ground (arith, without_images_lem m.content, strip_images_lem ms)

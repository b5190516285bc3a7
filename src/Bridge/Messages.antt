-- ===== src/Bridge/Messages.antt =====
-- bridge/main.py: what becomes of the messages of a request with images. Fetching an image is an
-- argument: its content type and its bytes in base64, or the exception.
pub mod Kept
use gpu_relay.Common.{
  String, str_eq, Bool, true, false, ◌&&◌, ◌||◌, Option, none, some, List, [], ◌∷◌, ◌++◌, any,
  is_empty, prepend, startswith, strip, split_once, Result, Error, ok, err, http, ◌>>=◌,
  if◌then◌else◌,
}
use gpu_relay.Schemas.{
  Part, text, image_url, other, Content, absent, plain, parts, ChatMessage, message,
}
use gpu_relay.Router.Vision.{is_image, has_image}

abbrev pub is_external : String → Bool
is_external url = startswith "http://" url || startswith "https://" url

-- `f"data:{ct};base64,{b64}"`
abbrev pub data_uri : String × String → String
data_uri (ct, b64) = prepend "data:" (prepend ct (prepend ";base64," b64))

abbrev pub fetched : Result (String × String) → Result Part
fetched (err e) = err (http 400)
fetched (ok image) = ok (image_url (data_uri image))

abbrev pub resolve_part : (String → Result (String × String)) → Part → Result Part
resolve_part fetch (image_url url) =
    if is_external url then fetched (fetch url) else ok (image_url url)
resolve_part fetch (text t) = ok (text t)
resolve_part fetch other = ok other

unfoldable pub resolve_parts : (String → Result (String × String)) → List Part → Result (List Part)
resolve_parts fetch [] = ok []
resolve_parts fetch (p ∷ ps) =
    let rest = resolve_parts fetch ps in (do p' ← resolve_part fetch p; ps' ← rest; ok (p' ∷ ps'))

abbrev pub resolve_content : (String → Result (String × String)) → Content → Result Content
resolve_content fetch (parts ps) = do ps' ← resolve_parts fetch ps; ok (parts ps')
resolve_content fetch absent = ok absent
resolve_content fetch (plain t) = ok (plain t)

-- `_resolve_image_urls`: a message goes on with its role and its content.
unfoldable pub resolve_image_urls :
    (String → Result (String × String)) → List ChatMessage → Result (List ChatMessage)
resolve_image_urls fetch [] = ok []
resolve_image_urls fetch (m ∷ ms) =
    let rest = resolve_image_urls fetch ms in
    (do c ← resolve_content fetch m.content; ms' ← rest; ok (message m.role c ∷ ms'))

-- `_inject_vision_system`
unfoldable pub inject_vision_system : String → List ChatMessage → List ChatMessage
inject_vision_system prompt [] = message "system" (plain prompt) ∷ []
inject_vision_system prompt (m ∷ ms) =
    if str_eq m.role "system" then m ∷ ms else message "system" (plain prompt) ∷ m ∷ ms

abbrev pub is_text : Part → Bool
is_text (text t) = true
is_text _ = false

abbrev pub with_text : String → Content → ChatMessage → ChatMessage
with_text role (parts ps) m =
    if any is_text ps then m else message role (parts (text "Describe this image." ∷ ps))
with_text role _ m = m

-- One round of the loop of `_sanitize_messages_for_api_vision`: the system message, and the last
-- message of a user with an image.
abbrev pub Picked : Type 0
Picked = Option ChatMessage × Option ChatMessage

abbrev pub first_of : Option ChatMessage → ChatMessage → Option ChatMessage
first_of none m = some m
first_of (some s) m = some s

abbrev pub pick_message : Picked → ChatMessage → Picked
pick_message (system, image) m = (
  if str_eq m.role "system" then first_of system m else system,
  if str_eq m.role "user" && has_image m.content
      then some (with_text m.role m.content m)
      else image,
)

unfoldable pub pick_messages : Picked → List ChatMessage → Picked
pick_messages picked [] = picked
pick_messages picked (m ∷ ms) = pick_messages (pick_message picked m) ms

abbrev pub listed : Option ChatMessage → List ChatMessage
listed none = []
listed (some m) = m ∷ []

-- `_sanitize_messages_for_api_vision`
unfoldable pub sanitize_messages_for_api_vision : List ChatMessage → List ChatMessage
sanitize_messages_for_api_vision ms =
    let (system, image) = pick_messages (none, none) ms in listed system ++ listed image

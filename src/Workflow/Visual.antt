-- ===== src/Workflow/Visual.antt =====
-- bridge/multi_model.py, `_visual_html` and `_extract_image_data`. The pod's description, the local
-- model's page and the fetching of an image are arguments.
pub mod Shown
use Prim.Native.String.{count}
use gpu_relay.Common.{
  ℕ, zero, suc, ◌-◌, String, str_eq, Bool, true, false, Option, none, some, List, [], ◌∷◌, ◌++◌,
  reverse, codes, is_infix, join, prepend, startswith, Result, Error, ok, err, value_error,
  if◌then◌else◌,
}
use gpu_relay.Schemas.{
  Part, text, image_url, other, Content, absent, plain, parts, ChatMessage, ChatCompletionRequest,
}
use gpu_relay.Workflow.{WorkflowMeta}
use gpu_relay.Bridge.Messages.{data_uri}

abbrev as_uri : Result (String × String) → Result String
as_uri (err e) = err e
as_uri (ok image) = ok (data_uri image)

-- The loop over the parts: the first image that can be used, or none.
unfoldable pub image_of_parts :
    (String → Result (String × String)) → List Part → Option (Result String)
image_of_parts fetch [] = none
image_of_parts fetch (image_url url ∷ ps) =
    let rest = image_of_parts fetch ps in
    if startswith "data:" url
    then some (ok url)
    else if startswith "http" url
    then some (as_uri (fetch url))
    else rest
image_of_parts fetch (text t ∷ ps) = image_of_parts fetch ps
image_of_parts fetch (other ∷ ps) = image_of_parts fetch ps

abbrev pub image_of : (String → Result (String × String)) → Content → Option (Result String)
image_of fetch (parts ps) = image_of_parts fetch ps
image_of fetch absent = none
image_of fetch (plain t) = none

-- A message's image ends the search.
abbrev pub or_earlier : Option (Result String) → Result String → Result String
or_earlier none earlier = earlier
or_earlier (some r) earlier = r

-- The loop over the reversed messages.
unfoldable pub first_image : (String → Result (String × String)) → List ChatMessage → Result String
first_image fetch [] = err value_error
first_image fetch (m ∷ ms) = or_earlier (image_of fetch m.content) (first_image fetch ms)

-- `_extract_image_data`, without the content type, which its caller drops.
unfoldable pub extract_image_data :
    (String → Result (String × String)) → ChatCompletionRequest → Result String
extract_image_data fetch request = first_image fetch (reverse request.messages)

-- `html.replace(old, new)` from a place where `skip` characters belong to the last occurrence
unfoldable pub replace : String → String → ℕ → String → String
replace old new skip String.[] = String.[]
replace old new (suc skip) (String.◌∷◌ c s) = replace old new skip s
replace old new zero (String.◌∷◌ c s) =
    let kept = replace old new zero s in
    let behind = replace old new (count old - 1) s in
    if startswith old (String.◌∷◌ c s) then prepend new behind else String.◌∷◌ c kept

abbrev pub placeholder : String
placeholder = "___IMAGE_SRC_PLACEHOLDER___"

abbrev pub html_prompt : (user_content description : String) → String
html_prompt user_content description =
    let wish =
      if str_eq user_content ""
      then "Create a nice HTML page featuring this image."
      else user_content in
    join "" (
      "User request: " ∷ wish ∷ "\n\nImage description:\n" ∷ description
      ∷ "\n\nGenerate a complete, self-contained HTML page that:\n- Embeds the image using exactly this src attribute value: "
      ∷ placeholder
      ∷ "\n- Has attractive inline CSS (no external stylesheets or scripts)\n- Includes a title, heading, and caption derived from the image description\n- Looks polished and professional\n\nOutput ONLY the complete HTML starting with <!DOCTYPE html>. No explanation."
      ∷ [])

abbrev pub fallback_page : String → String
fallback_page description =
    join ""
      ("<html><body><img src=\"" ∷ placeholder ∷ "\"><p>" ∷ description ∷ "</p></body></html>" ∷ [])

-- A stage's value, or what stands for it, and the error.
abbrev pub or_instead : String → Result String → String × List Error
or_instead instead (err e) = (instead, e ∷ [])
or_instead instead (ok t) = (t, [])

-- The page, its record, and whether the image's place was found.
abbrev pub Page : Type 0
Page = String × WorkflowMeta × Bool

abbrev pub injected : String → List Error → String × List Error → Page
injected uri errors (html, more) = (
  replace placeholder uri 0 html,
  record {
    stages = "extract_image" ∷ "vision:describe" ∷ "local:generate_html" ∷ [];
    errors = errors ++ more;
  },
  is_infix (codes placeholder) (codes html),
)

abbrev pub generated : (String → Result String) → String → String → String × List Error → Page
generated local_call user_content uri (description, errors) =
    injected uri errors
      (or_instead (fallback_page description) (local_call (html_prompt user_content description)))

abbrev pub no_image_page : Page
no_image_page = (
  "No image found in the request. Attach an image to use the Visual HTML Generator.",
  record { stages = "extract_image" ∷ []; errors = [] },
  false,
)

-- What follows the extraction: only ValueError is caught there.
abbrev pub with_image :
    (String → Result String) → (String → Result String) → String → Result String → Result Page
with_image describe local_call user_content (err value_error) = ok no_image_page
with_image describe local_call user_content (err e) = err e
with_image describe local_call user_content (ok uri) = ok (
    generated local_call user_content uri
      (or_instead "An image provided by the user." (describe uri)))

unfoldable pub visual_html :
    (String → Result (String × String))
    → (String → Result String)
    → (String → Result String)
    → String
    → ChatCompletionRequest
    → Result Page
visual_html fetch describe local_call user_content request =
    with_image describe local_call user_content (extract_image_data fetch request)

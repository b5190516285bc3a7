-- ===== src/Workflow/Visual/Shown.antt =====
-- How a run that makes a page from an image ends.
use gpu_relay.Common.{
  String, ◌≡◌, refl, ◌⊎◌, inl, inr, Bool, true, some, List, [], ◌∷◌, reverse, startswith,
  Option-cases, Result, Error, ok, err, http, key_error, value_error, runtime_error, provider_error,
  volume_error, sym, subst, Bool-cases,
}
use gpu_relay.Schemas.{
  Part, text, image_url, other, Content, absent, plain, parts, ChatMessage, ChatCompletionRequest,
}
use gpu_relay.Workflow.{WorkflowMeta}
use gpu_relay.Workflow.Visual.{
  as_uri, image_of_parts, image_of, or_earlier, first_image, extract_image_data, no_image_page,
  with_image, visual_html,
}

-- A text is a data URI, where there is one.
abbrev IsLocal : Result String → Type 0
IsLocal (err e) = Unit
IsLocal (ok uri) = startswith "data:" uri ≡ true

as_uri-IsLocal : (r : Result (String × String)) → IsLocal (as_uri r)
as_uri-IsLocal (err e) = tt
as_uri-IsLocal (ok (ct, b64)) = refl

parts-IsLocal :
    (fetch : String → Result (String × String)) (ps : List Part) (r : Result String)
    → image_of_parts fetch ps ≡ some r
    → IsLocal r
unfolding image_of_parts
parts-IsLocal fetch [] r e = cc
parts-IsLocal fetch (text t ∷ ps) r e = parts-IsLocal fetch ps r e
parts-IsLocal fetch (other ∷ ps) r e = parts-IsLocal fetch ps r e
parts-IsLocal fetch (image_url url ∷ ps) r e = elim (Bool-cases (startswith "data:" url)) [
  | inl near ↦ subst IsLocal (some-injective (rw (near) at e)) near
  | inr away ↦ elim (Bool-cases (startswith "http" url)) [
    | inl far ↦ subst IsLocal (some-injective (rw (away, far) at e)) (as_uri-IsLocal (fetch url))
    | inr odd ↦ parts-IsLocal fetch ps r (rw (away, odd) at e)
  ]
]
  where
    some-injective : {x y : Result String} → some x ≡ some y → x ≡ y
    some-injective h = cc

image-IsLocal :
    (fetch : String → Result (String × String)) (c : Content) (r : Result String)
    → image_of fetch c ≡ some r
    → IsLocal r
image-IsLocal fetch (parts ps) r e = parts-IsLocal fetch ps r e
image-IsLocal fetch absent r e = cc
image-IsLocal fetch (plain t) r e = cc

first_image-IsLocal :
    (fetch : String → Result (String × String)) (ms : List ChatMessage)
    → IsLocal (first_image fetch ms)
unfolding first_image
first_image-IsLocal fetch [] = tt
first_image-IsLocal fetch (m ∷ ms) = elim (Option-cases (image_of fetch m.content)) [
  | inl e ↦
      subst (λ o. IsLocal (or_earlier o (first_image fetch ms))) (sym e)
        (first_image-IsLocal fetch ms)
  | inr (r, e) ↦
      subst (λ o. IsLocal (or_earlier o (first_image fetch ms))) (sym e)
        (image-IsLocal fetch m.content r e)
]

ends :
    (describe local_call : String → Result String) (user_content : String) (r : Result String)
    → IsLocal r
    → ((e : Error) × (r ≡ err e) × (with_image describe local_call user_content r ≡ err e))
      ⊎ ((r ≡ err value_error) × (with_image describe local_call user_content r ≡ ok no_image_page))
      ⊎ ((uri html : String) × (run : WorkflowMeta) × (there : Bool) × (r ≡ ok uri)
          × (startswith "data:" uri ≡ true)
          × (with_image describe local_call user_content r ≡ ok (html, run, there))
          × (run.stages ≡ "extract_image" ∷ "vision:describe" ∷ "local:generate_html" ∷ []))
ends describe local_call user_content (err value_error) h = inr (inl (refl, refl))
ends describe local_call user_content (err (http n)) h = inl (_, refl, refl)
ends describe local_call user_content (err key_error) h = inl (_, refl, refl)
ends describe local_call user_content (err runtime_error) h = inl (_, refl, refl)
ends describe local_call user_content (err provider_error) h = inl (_, refl, refl)
ends describe local_call user_content (err volume_error) h = inl (_, refl, refl)
ends describe local_call user_content (ok uri) h = inr (inr (uri, _, _, _, refl, h, refl, refl))

-- A run that makes a page fails only if the fetching of the image does, with its exception. Without
-- an image that can be used the client is told so. Otherwise a page is made from a data URI, after
-- all of the stages, whatever the pod and the local model answer.
pub visual_html_lem :
    (fetch : String → Result (String × String)) (describe local_call : String → Result String)
    (user_content : String) (request : ChatCompletionRequest)
    → let image = extract_image_data fetch request in
      let page = visual_html fetch describe local_call user_content request in
      ((e : Error) × (image ≡ err e) × (page ≡ err e))
      ⊎ ((image ≡ err value_error) × (page ≡ ok no_image_page))
      ⊎ ((uri html : String) × (run : WorkflowMeta) × (there : Bool) × (image ≡ ok uri)
          × (startswith "data:" uri ≡ true)
          × (page ≡ ok (html, run, there))
          × (run.stages ≡ "extract_image" ∷ "vision:describe" ∷ "local:generate_html" ∷ []))
unfolding visual_html extract_image_data
visual_html_lem fetch describe local_call user_content request =
    ends describe local_call user_content (extract_image_data fetch request)
      (first_image-IsLocal fetch (reverse request.messages))

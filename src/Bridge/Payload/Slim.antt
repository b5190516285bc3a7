-- ===== src/Bridge/Payload/Slim.antt =====
-- What the removal of descriptions does to a schema.
use gpu_relay.Common.{
  ℕ, ◌≤◌, String, str_eq, eq_iff, ◌≡◌, refl, Bool, true, not, ◌&&◌, ◌||◌, Option, none, some, List,
  ltb, ok, >>=-eq-ok, ok-injective, sym, ap, ◌∙◌, arith, if◌then◌else◌,
}
use gpu_relay.Json.{
  Json, Items, Members, scalar, text, arr, obj, nil, cons, end, member, get_member, has_text,
}
use gpu_relay.Bridge.Payload.{
  is_verbose, strip_schema_verbosity, strip_items, strip_members, capped_tokens, InferenceBody,
  Payload, tools_of, build_inference_payload,
}
use gpu_relay.Schemas.{ChatMessage}

-- No object, however deep, has a member of the two names.
unfoldable mutual
  pub lean : Json → Bool
  lean (scalar t) = true
  lean (text t) = true
  lean (arr xs) = lean_items xs
  lean (obj ms) = lean_members ms

  pub lean_items : Items → Bool
  lean_items nil = true
  lean_items (cons x xs) = lean x && lean_items xs

  pub lean_members : Members → Bool
  lean_members end = true
  lean_members (member k v ms) = not (is_verbose k) && lean v && lean_members ms

mutual
  unfolding lean strip_schema_verbosity

  strip-lean : (j : Json) → lean (strip_schema_verbosity j) ≡ true
  strip-lean (scalar t) = refl
  strip-lean (text t) = refl
  strip-lean (arr xs) = strip_items-lean xs
  strip-lean (obj ms) = strip_members-lean ms

  strip_items-lean : (xs : Items) → lean_items (strip_items xs) ≡ true
  strip_items-lean nil = refl
  strip_items-lean (cons x xs) = ground (arith, strip-lean x, strip_items-lean xs)

  strip_members-lean : (ms : Members) → lean_members (strip_members ms) ≡ true
  strip_members-lean end = refl
  strip_members-lean (member k v ms) = ground (arith, strip-lean v, strip_members-lean ms)

mutual
  unfolding lean strip_schema_verbosity

  strip-keeps : (j : Json) → lean j ≡ true → strip_schema_verbosity j ≡ j
  strip-keeps (scalar t) h = refl
  strip-keeps (text t) h = refl
  strip-keeps (arr xs) h = ap arr (strip_items-keeps xs h)
  strip-keeps (obj ms) h = ap obj (strip_members-keeps ms h)

  strip_items-keeps : (xs : Items) → lean_items xs ≡ true → strip_items xs ≡ xs
  strip_items-keeps nil h = refl
  strip_items-keeps (cons x xs) h = ground (arith, strip-keeps x, strip_items-keeps xs)

  strip_members-keeps : (ms : Members) → lean_members ms ≡ true → strip_members ms ≡ ms
  strip_members-keeps end h = refl
  strip_members-keeps (member k v ms) h = ground (arith, strip-keeps v, strip_members-keeps ms)

-- Slimming a schema leaves no member "description" or "$schema" at any depth, and slimming it again
-- changes nothing.
pub strip_schema_verbosity_lem :
    (j : Json)
    → (lean (strip_schema_verbosity j) ≡ true)
      × (strip_schema_verbosity (strip_schema_verbosity j) ≡ strip_schema_verbosity j)
strip_schema_verbosity_lem j = (strip-lean j, strip-keeps (strip_schema_verbosity j) (strip-lean j))

get_member-strip :
    (k : String) (ms : Members) → is_verbose k ≡ true → get_member k (strip_members ms) ≡ none
unfolding get_member strip_schema_verbosity
get_member-strip k end h = refl
get_member-strip k (member j v ms) h = ground (arith, eq_iff j k, get_member-strip k ms h)

has_text-strip : (t : String) (xs : Items) → has_text t (strip_items xs) ≡ has_text t xs
unfolding has_text strip_schema_verbosity
has_text-strip t nil = refl
has_text-strip t (cons (scalar u) xs) = has_text-strip t xs
has_text-strip t (cons (text u) xs) = ap (λ b. str_eq u t || b) (has_text-strip t xs)
has_text-strip t (cons (arr ys) xs) = has_text-strip t xs
has_text-strip t (cons (obj ms) xs) = has_text-strip t xs

-- A parameter of a tool that is called "description" is taken for a description: slimming drops it
-- from the tool's properties, while the list of required parameters still has it if it had.
pub description_parameter_lost :
    (properties : Members) (required : Items)
    → (left : Members) × (still : Items) × (strip_schema_verbosity
          (obj (member "properties" (obj properties) (member "required" (arr required) end)))
        ≡ obj (member "properties" (obj left) (member "required" (arr still) end)))
      × (get_member "description" left ≡ none)
      × (has_text "description" still ≡ has_text "description" required)
unfolding strip_schema_verbosity
description_parameter_lost properties required = (
  strip_members properties,
  strip_items required,
  refl,
  get_member-strip "description" properties refl,
  has_text-strip "description" required,
)

-- The payload never asks for more tokens than the request does, than the tier's limit where there is
-- one, or than the setting for Groq allows there.
pub build_inference_payload-max_tokens :
    (body : InferenceBody) (stream : Bool) (model : String) (messages : Option (List ChatMessage))
    (cap : ℕ) (provider : String) (groq_max n : ℕ) (p : Payload)
    → build_inference_payload body stream model messages cap provider groq_max ≡ ok p
    → body.max_tokens ≡ some n
    → (m : ℕ) × (p.max_tokens ≡ some m)
      × (m ≤ n)
      × (m ≤ (if ltb 0 cap then cap else n))
      × (m ≤ (if str_eq provider "groq" then groq_max else n))
unfolding build_inference_payload capped_tokens
build_inference_payload-max_tokens body stream model messages cap provider groq_max n p e h =
    let (tools, ht, e') = >>=-eq-ok (tools_of body.tools) _ e in
    (
      capped_tokens cap provider groq_max n,
      ap (λ (q : Payload). q.max_tokens) (sym (ok-injective e')) ∙ rw (h) refl,
      ground arith,
      ground arith,
      ground arith,
    )

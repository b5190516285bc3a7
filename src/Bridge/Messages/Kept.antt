-- ===== src/Bridge/Messages/Kept.antt =====
-- What the messages with images keep and lose.
use gpu_relay.Common.{
  String, str_eq, ◌≡◌, refl, inl, inr, Bool, true, false, ◌&&◌, ◌||◌, Option, none, some, List, [],
  ◌∷◌, ◌++◌, any, arith, ◌⊎◌, ◌∙◌, Bool-cases, if◌then◌else◌,
}
use gpu_relay.Schemas.{Part, image_url, Content, absent, plain, parts, ChatMessage}
use gpu_relay.Router.Vision.{is_image, has_image}
use gpu_relay.Bridge.Messages.{
  is_external, is_text, with_text, Picked, pick_message, pick_messages, first_of, listed,
  sanitize_messages_for_api_vision,
}

abbrev pub part_external : Part → Bool
part_external (image_url u) = is_external u
part_external _ = false

abbrev pub content_external : Content → Bool
content_external (parts ps) = any part_external ps
content_external _ = false

-- What stays of a part, and of a content: a text is kept, an image stays an image, and one whose
-- address is not external is kept as it is.
abbrev pub SamePart : Part → Part → Type 0
SamePart (image_url u) q = (u' : String) × (q ≡ image_url u') × ((is_external u ≡ true) ⊎ (u' ≡ u))
SamePart p q = q ≡ p

abbrev pub SameParts : List Part → List Part → Type 0
SameParts [] qs = qs ≡ []
SameParts (p ∷ ps) qs =
    (q : Part) × (rest : List Part) × (qs ≡ q ∷ rest) × SamePart p q × SameParts ps rest

abbrev pub SameContent : Content → Content → Type 0
SameContent (parts ps) d = (qs : List Part) × (d ≡ parts qs) × SameParts ps qs
SameContent c d = d ≡ c

abbrev pub SameMessages : List ChatMessage → List ChatMessage → Type 0
SameMessages [] ns = ns ≡ []
SameMessages (m ∷ ms) ns =
    (n : ChatMessage) × (rest : List ChatMessage) × (ns ≡ n ∷ rest)
    × ((n.role ≡ m.role) × SameContent m.content n.content)
    × ((n.tool_calls ≡ none) × (n.tool_call_id ≡ none))
    × SameMessages ms rest

abbrev pub user_image : ChatMessage → Bool
user_image m = str_eq m.role "user" && has_image m.content

abbrev pub has_text : Content → Bool
has_text (parts ps) = any is_text ps
has_text _ = false

-- A system message, and a user's message with an image and a text.
abbrev pub IsSystem : Option ChatMessage → Type 0
IsSystem none = Unit
IsSystem (some m) = str_eq m.role "system" ≡ true

abbrev pub IsQuestion : Option ChatMessage → Type 0
IsQuestion none = Unit
IsQuestion (some m) = (user_image m ≡ true) × (has_text m.content ≡ true)

abbrev pub is_there : Option ChatMessage → Bool
is_there none = false
is_there (some m) = true

and-both : (a b : Bool) → (a && b) ≡ true → (a ≡ true) × (b ≡ true)
and-both a b h = ground arith

abbrev Fits : Picked → Type 0
Fits picked = IsSystem picked.0 × IsQuestion picked.1

with_text-IsQuestion :
    (m : ChatMessage) (c : Content)
    → m.content ≡ c
    → str_eq m.role "user" ≡ true
    → has_image c ≡ true
    → IsQuestion (some (with_text m.role c m))
unfolding has_image is_image
with_text-IsQuestion m absent e u i = cc
with_text-IsQuestion m (plain t) e u i = cc
with_text-IsQuestion m (parts ps) e u i = elim (Bool-cases (any is_text ps)) [
  | inl t ↦ rw (t) (rw (e, u) (i, t))
  | inr t ↦ rw (t) (rw (u) (i, refl))
]

first_of-IsSystem :
    (s : Option ChatMessage) (m : ChatMessage)
    → IsSystem s
    → str_eq m.role "system" ≡ true
    → IsSystem (first_of s m)
first_of-IsSystem none m h e = e
first_of-IsSystem (some n) m h e = h

pick-Fits : (picked : Picked) (m : ChatMessage) → Fits picked → Fits (pick_message picked m)
pick-Fits (s, i) m (hs, hi) = (system, question)
  where
    system : IsSystem (if str_eq m.role "system" then first_of s m else s)
    system = elim (Bool-cases (str_eq m.role "system")) [
      | inl e ↦ rw (e) (first_of-IsSystem s m hs e)
      | inr e ↦ rw (e) hs
    ]

    question : IsQuestion (if user_image m then some (with_text m.role m.content m) else i)
    question = elim (Bool-cases (user_image m)) [
      | inl e ↦
          let (u, img) = and-both (str_eq m.role "user") (has_image m.content) e in
          rw (e) (with_text-IsQuestion m m.content refl u img)
      | inr e ↦ rw (e) hi
    ]

pick_messages-Fits :
    (picked : Picked) (ms : List ChatMessage) → Fits picked → Fits (pick_messages picked ms)
unfolding pick_messages
pick_messages-Fits picked [] h = h
pick_messages-Fits picked (m ∷ ms) h =
    pick_messages-Fits (pick_message picked m) ms (pick-Fits picked m h)

pick_messages-there :
    (picked : Picked) (ms : List ChatMessage)
    → is_there (pick_messages picked ms).1 ≡ (is_there picked.1 || any user_image ms)
unfolding pick_messages
pick_messages-there (s, i) [] = ground arith
pick_messages-there (s, i) (m ∷ ms) = pick_messages-there (pick_message (s, i) m) ms ∙ ground arith

-- For a vision model behind an API at most two messages are left: one of the system, and one of the
-- user that has an image and a text; the latter is there whenever the user sent an image.
pub sanitize_lem :
    (ms : List ChatMessage)
    → (system question : Option ChatMessage) × (sanitize_messages_for_api_vision ms
        ≡ listed system ++ listed question)
      × IsSystem system
      × IsQuestion question
      × (is_there question ≡ any user_image ms)
unfolding sanitize_messages_for_api_vision
sanitize_lem ms =
    let (fs, fq) = pick_messages-Fits (none, none) ms (tt, tt) in
    (
      (pick_messages (none, none) ms).0,
      (pick_messages (none, none) ms).1,
      refl,
      fs,
      fq,
      pick_messages-there (none, none) ms,
    )

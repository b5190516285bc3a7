-- ===== src/Tools/Workspace/Escaped.antt =====
-- Where the path check fails.
use gpu_relay.Common.{
  String, str_eq, eq_refl, ◌≡◌, refl, ap, ◌∙◌, true, false, ◌||◌, List, [], ◌∷◌, ◌++◌, reverse,
  prepend, startswith, err, ok, value_error, arith, ◌==◌,
}
use Prim.Native.Char.{code}
use Prim.Native.Nat.{ℕ}
use mathlib.Core.List.{reverse-append, reverse-cons, reverse-reverse}
use gpu_relay.Tools.Workspace.{
  parts_text, checked, relative_to, path_text, resolve_parts, resolved_from,
}

same_number : (n : ℕ) → (n == n) ≡ true
same_number n = ground arith

startswith-prepend :
    (front p q : String)
    → startswith p q ≡ true
    → startswith (prepend front p) (prepend front q) ≡ true
startswith-prepend String.[] p q h = h
startswith-prepend (String.◌∷◌ c front) p q h =
    rw (startswith, same_number (code c)) (startswith-prepend front p q h)

-- A path whose last part is longer has a text that is longer at its end.
longer_name :
    (name suffix : String) → startswith (prepend name "") (prepend (prepend name suffix) "") ≡ true
longer_name String.[] suffix = refl
longer_name (String.◌∷◌ c name) suffix =
    rw (startswith, same_number (code c)) (longer_name name suffix)

longer_text :
    (front : List String) (name suffix : String)
    → startswith (parts_text (front ++ name ∷ [])) (parts_text (front ++ prepend name suffix ∷ []))
      ≡ true
longer_text [] name suffix =
    startswith-prepend "/" (prepend name "") (prepend (prepend name suffix) "")
      (longer_name name suffix)
longer_text (part ∷ front) name suffix =
    let short = parts_text (front ++ name ∷ []) in
    let long = parts_text (front ++ prepend name suffix ∷ []) in
    startswith-prepend "/" (prepend part short) (prepend part long)
      (startswith-prepend part short long (longer_text front name suffix))

text_of_parts :
    (front : List String) (part : String)
    → path_text (front ++ part ∷ []) ≡ parts_text (front ++ part ∷ [])
unfolding path_text
text_of_parts [] part = refl
text_of_parts (first ∷ front) part = refl

not_below :
    (front : List String) (name other : String)
    → str_eq name other ≡ false
    → relative_to (front ++ name ∷ []) (front ++ other ∷ []) ≡ err value_error
unfolding relative_to
not_below [] name other differ = rw differ refl
not_below (part ∷ front) name other differ = rw (eq_refl part) (not_below front name other differ)

-- The path check compares texts, so a sibling of the workspace whose name begins with the
-- workspace's is taken for a part of it: with ".." in front the path is accepted, although it
-- does not lie below the workspace.
pub sibling_accepted :
    (front : List String) (name suffix : String)
    → (str_eq (prepend name suffix) "" || str_eq (prepend name suffix) ".") ≡ false
    → str_eq (prepend name suffix) ".." ≡ false
    → str_eq name (prepend name suffix) ≡ false
    → (p : List String) × (resolve_parts (front ++ name ∷ []) (".." ∷ prepend name suffix ∷ [])
        ≡ ok p)
      × (relative_to (front ++ name ∷ []) p ≡ err value_error)
unfolding resolve_parts resolved_from
sibling_accepted front name suffix named dots differ =
    let back : resolved_from (reverse (front ++ name ∷ [])) (".." ∷ prepend name suffix ∷ [])
        ≡ front ++ prepend name suffix ∷ [] =
      ap (λ done. resolved_from done (".." ∷ prepend name suffix ∷ []))
        (reverse-append front (name ∷ []))
      ∙ rw (named, dots) (reverse-cons (prepend name suffix) (reverse front))
      ∙ ap (λ f. f ++ prepend name suffix ∷ []) (reverse-reverse front) in
    let longer : startswith (path_text (front ++ name ∷ []))
          (path_text (front ++ prepend name suffix ∷ []))
        ≡ true =
      rw (text_of_parts front name, text_of_parts front (prepend name suffix))
        (longer_text front name suffix) in
    (
      front ++ prepend name suffix ∷ [],
      ap (checked (front ++ name ∷ [])) back ∙ rw longer refl,
      not_below front name (prepend name suffix) differ,
    )

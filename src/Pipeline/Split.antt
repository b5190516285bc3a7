-- ===== src/Pipeline/Split.antt =====
-- `str.split` at a character.
use Prim.Native.Char.{code}
use gpu_relay.Common.{ℕ, String, List, [], ◌∷◌, ◌==◌, prepend, if◌then◌else◌}

abbrev in_front : String → List String → List String
in_front c [] = c ∷ []
in_front c (p ∷ ps) = prepend c p ∷ ps

unfoldable pub split : ℕ → String → List String
split sep String.[] = "" ∷ []
split sep (String.◌∷◌ c s) =
    let rest = split sep s in
    if code c == sep then "" ∷ rest else in_front (String.◌∷◌ c String.[]) rest

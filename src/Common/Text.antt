-- ===== src/Common/Text.antt =====
-- Texts, character by character: what the program uses of Python's `str`.
use Prim.Native.Nat.{ℕ, zero, suc, ◌+◌}
use Prim.Native.Char.{code}
use Prim.Native.String.{String, ◌++◌}
use mathlib.Core.Bool.{Bool, true, false, ◌&&◌, ◌||◌}
use mathlib.Core.Option
use mathlib.Core.Option.{Option, none, some}
use mathlib.Core.List.{List, [], ◌∷◌}
use gpu_relay.Common.Tests.{if◌then◌else◌, ◌==◌, leb}

-- The code points of a text.
abbrev pub codes : String → List ℕ
codes String.[] = []
codes (String.◌∷◌ c s) = code c ∷ codes s

-- Two texts, by their code points.
abbrev pub same_codes : List ℕ → List ℕ → Bool
same_codes [] [] = true
same_codes (c ∷ s) (d ∷ t) = c == d && same_codes s t
same_codes _ _ = false

-- `s.lower()` of one character, on ASCII
abbrev pub to_lower : ℕ → ℕ
to_lower c = if leb b'A' c && leb c b'Z' then c + 32 else c

-- `\s` and `str.strip()`: the blanks of ASCII and Latin-1
abbrev pub is_space : ℕ → Bool
is_space c = (leb 9 c && leb c 13) || (leb 28 c && leb c 32) || c == 133 || c == 160

-- The rest of a text behind a prefix.
unfoldable pub drop_prefix : List ℕ → List ℕ → Option (List ℕ)
drop_prefix [] s = some s
drop_prefix (p ∷ ps) [] = none
drop_prefix (p ∷ ps) (c ∷ s) = if p == c then drop_prefix ps s else none

-- `p in s`
unfoldable pub is_infix : List ℕ → List ℕ → Bool
unfolding drop_prefix
is_infix p [] = elim (drop_prefix p []) [ none ↦ false | some r ↦ true ]
is_infix p (c ∷ s) = elim (drop_prefix p (c ∷ s)) [ none ↦ is_infix p s | some r ↦ true ]

-- `sep.join(xs)`
unfoldable pub join : String → List String → String
join sep [] = ""
join sep (x ∷ []) = x
join sep (x ∷ y ∷ xs) = x ++ (sep ++ join sep (y ∷ xs))

-- `s.removeprefix(p)`, by what is left behind `p`
abbrev pub strip_front : String → String → Option String
strip_front String.[] s = some s
strip_front (String.◌∷◌ p ps) String.[] = none
strip_front (String.◌∷◌ p ps) (String.◌∷◌ c s) = if code p == code c then strip_front ps s else none

abbrev pub removeprefix : String → String → String
removeprefix p s = elim (strip_front p s) [ none ↦ s | some r ↦ r ]

-- `s.split(sep, 1)` for one character: the parts before and behind its first occurrence
unfoldable pub split_once : ℕ → String → Option (String × String)
split_once sep String.[] = none
split_once sep (String.◌∷◌ c s) =
    if code c == sep
    then some (String.[], s)
    else Option.map (λ (p : String × String). (String.◌∷◌ c p.0, p.1)) (split_once sep s)

-- `s.strip()`
lstrip : String → String
lstrip String.[] = String.[]
lstrip (String.◌∷◌ c s) = let rest = lstrip s in if is_space (code c) then rest else String.◌∷◌ c s

abbrev keep_unless_blank : ℕ → String → String → String
keep_unless_blank c whole String.[] = if is_space c then String.[] else whole
keep_unless_blank c whole (String.◌∷◌ d s) = whole

rstrip : String → String
rstrip String.[] = String.[]
rstrip (String.◌∷◌ c s) = let rest = rstrip s in keep_unless_blank (code c) (String.◌∷◌ c rest) rest

unfoldable pub strip : String → String
unfolding lstrip rstrip
strip s = lstrip (rstrip s)

-- `s[:n]`
unfoldable pub take_chars : ℕ → String → String
take_chars zero s = String.[]
take_chars (suc n) String.[] = String.[]
take_chars (suc n) (String.◌∷◌ c s) = String.◌∷◌ c (take_chars n s)

-- `s + t`, by the characters of `s`
abbrev pub prepend : String → String → String
prepend String.[] t = t
prepend (String.◌∷◌ c s) t = String.◌∷◌ c (prepend s t)

-- `s.startswith(p)`
abbrev pub startswith : String → String → Bool
startswith p s = elim (strip_front p s) [ none ↦ false | some r ↦ true ]

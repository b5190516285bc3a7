-- ===== src/Workflow/Local.antt =====
-- bridge/multi_model.py: what a workflow makes of its local model's answers.
use gpu_relay.Common.{
  String, str_eq, Bool, true, false, Option, none, some, List, [], ◌∷◌, contains, strip, split_once,
  startswith, join, Result, Error, ok, err, value_error, ◌>>=◌, if◌then◌else◌,
}
use gpu_relay.Json.{
  Json, Items, Members, scalar, text, arr, obj, nil, cons, end, member, get_member,
}

-- What stands behind the first line; nothing if there is no other.
abbrev behind : Option (String × String) → String
behind none = ""
behind (some (line, rest)) = rest

-- `text[:-n]` where the last `n` characters are `suffix`, and `text` otherwise
unfoldable pub removesuffix : String → String → String
removesuffix suffix String.[] = String.[]
removesuffix suffix (String.◌∷◌ c s) =
    let rest = removesuffix suffix s in
    if str_eq (String.◌∷◌ c s) suffix then "" else String.◌∷◌ c rest

-- `_strip_fences`
unfoldable pub strip_fences : String → String
strip_fences answer =
    let trimmed = strip answer in
    if startswith "```" trimmed
    then strip (removesuffix "```" (strip (behind (split_once b'\n' trimmed))))
    else trimmed

-- Python's `bool` of a JSON value; a number is as Python prints it.
unfoldable pub is_falsy : Json → Bool
is_falsy (scalar t) = contains t ("null" ∷ "false" ∷ "0" ∷ "0.0" ∷ "-0.0" ∷ [])
is_falsy (text t) = str_eq t ""
is_falsy (arr nil) = true
is_falsy (arr (cons x xs)) = false
is_falsy (obj end) = true
is_falsy (obj (member k v ms)) = false

abbrev text_of : Json → Result String
text_of (text t) = ok t
text_of _ = err value_error

unfoldable pub texts_of : Items → Result (List String)
texts_of nil = ok []
texts_of (cons x xs) = let rest = texts_of xs in (do t ← text_of x; ts ← rest; ok (t ∷ ts))

abbrev characters : String → List String
characters String.[] = []
characters (String.◌∷◌ c s) = String.◌∷◌ c String.[] ∷ characters s

abbrev keys : Members → List String
keys end = []
keys (member k v ms) = k ∷ keys ms

-- What `", ".join` runs over.
unfoldable pub strings : Json → Result (List String)
strings (scalar t) = err value_error
strings (text t) = ok (characters t)
strings (arr xs) = texts_of xs
strings (obj ms) = ok (keys ms)

-- `", ".join(d.get(key) or default)`
abbrev joined : Option Json → List String → Result (List String)
joined none default = ok default
joined (some v) default = if is_falsy v then ok default else strings v

unfoldable pub get_list : String → List String → Members → Result String
get_list key default ms = do ts ← joined (get_member key ms) default; ok (join ", " ts)

-- `d.get(key, default)`, as an f-string shows it; `show` is Python's `str` of another value.
abbrev shown : (Json → String) → Option Json → String → String
shown show none default = default
shown show (some (text t)) default = t
shown show (some v) default = show v

unfoldable pub get_shown : (Json → String) → String → String → Members → String
get_shown show key default ms = shown show (get_member key ms) default

-- A value that has no `get` raises AttributeError.
abbrev pub members_of : Json → Result Members
members_of (obj ms) = ok ms
members_of _ = err value_error

-- A stage that analyses the request: the parsed answer or the default, and the error if there is
-- one.
abbrev pub analysed : Json → Result Json → Json × List Error
analysed default (err e) = (default, e ∷ [])
analysed default (ok j) = (j, [])

abbrev pub loads : (String → Result Json) → Result String → Result Json
loads parse (err e) = err e
loads parse (ok raw) = parse (strip_fences raw)

-- A stage whose text may be missing.
abbrev pub optional : (String → String) → Result String → String × List Error
optional f (err e) = ("", e ∷ [])
optional f (ok t) = (f t, [])

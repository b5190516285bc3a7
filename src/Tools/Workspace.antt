-- ===== src/Tools/Workspace.antt =====
-- workspace_tools/main.py: the path check and the file operations. A path is the list of its parts
-- below "/", and symbolic links are not modelled. The sizes of entries, the decoding of escaped
-- contents, the codecs and `shutil.move` are arguments.
pub mod Kept
pub mod Escaped
use gpu_relay.Common.{
  ℕ, String, str_eq, Bool, true, false, not, ◌&&◌, ◌||◌, Option, none, some, List, [], ◌∷◌, ◌++◌,
  reverse, is_infix, codes, prepend, startswith, ltb, Dict, lookup, insert, Result, err, ok, http,
  runtime_error, value_error, ◌>>=◌, if◌then◌else◌,
}
use gpu_relay.Pipeline.Split.{split}

abbrev pub parts_text : List String → String
parts_text [] = ""
parts_text (part ∷ parts) = prepend "/" (prepend part (parts_text parts))

-- `str(path)`
unfoldable pub path_text : List String → String
path_text [] = "/"
path_text (part ∷ parts) = parts_text (part ∷ parts)

abbrev up : List String → List String
up [] = []
up (part ∷ parts) = parts

-- `resolve()`: the parts that stand already are in reverse order, and ".." drops the last of them.
unfoldable pub resolved_from : List String → List String → List String
resolved_from done [] = reverse done
resolved_from done (part ∷ parts) =
    let skipped = resolved_from done parts in
    let back = resolved_from (up done) parts in
    let on = resolved_from (part ∷ done) parts in
    if str_eq part "" || str_eq part "." then skipped else if str_eq part ".." then back else on

-- The test of the texts.
abbrev pub checked : List String → List String → Result (List String)
checked root resolved =
    if startswith (path_text root) (path_text resolved) then ok resolved else err (http 400)

-- The parts below the workspace's root.
unfoldable pub resolve_parts : List String → List String → Result (List String)
resolve_parts root parts = checked root (resolved_from (reverse root) parts)

-- `_resolve`: the slashes that `lstrip` takes away leave empty parts here, which count for nothing.
unfoldable pub resolve : List String → String → Result (List String)
resolve root path = resolve_parts root (split b'/' path)

-- A file has its bytes.
pub data Entry : Type 0 where
  file : String → Entry
  dir : Entry

-- The entries by the texts of their paths.
abbrev pub Files : Type 0
Files = Dict Entry

-- What the service is set up with. `encode` is what `write_text` makes of a text with an encoding, and
-- `decode` what `read_text(errors="replace")` makes of bytes.
pub record Service : Type 0 where
  pub root : List String
  pub max_file_size : ℕ
  pub size_of : Entry → ℕ
  pub unescape : String → Result String
  pub encode : String → String → Result String
  pub decode : String → String
  pub move : String → String → Files → Result (Unit {0}) × Files

-- What follows a step that may raise, over the files that the step leaves.
abbrev pub then_on {ℓ} :
    {A : Type ℓ} → Result (Unit {0}) × Files → (Files → Result A × Files) → Result A × Files
then_on (err e, files) next = (err e, files)
then_on (ok x, files) next = next files

abbrev pub at_path {ℓ} :
    {A : Type ℓ}
    → Result (List String)
    → Files
    → (List String → Result A × Files)
    → Result A × Files
at_path (err e) files next = (err e, files)
at_path (ok p) files next = next p

-- `relative_to(WORKSPACE_ROOT)`, which compares parts, raises for a path that is not below the root.
unfoldable pub relative_to : List String → List String → Result (Unit {0})
relative_to [] parts = ok tt
relative_to (r ∷ root) [] = err value_error
relative_to (r ∷ root) (part ∷ parts) =
    let rest = relative_to root parts in if str_eq r part then rest else err value_error

-- `mkdir(parents=True, exist_ok=True)`, over the directories from the top; a file in the way raises.
abbrev pub made : String → Files → Option Entry → Result (Unit {0}) × Files
made path files none = (ok tt, insert path dir files)
made path files (some dir) = (ok tt, files)
made path files (some (file t)) = (err runtime_error, files)

unfoldable pub make_dirs : List (List String) → Files → Result (Unit {0}) × Files
make_dirs [] files = (ok tt, files)
make_dirs (path ∷ paths) files =
    then_on (made (path_text path) files (lookup (path_text path) files)) (make_dirs paths)

-- The directories above a path, and it itself.
unfoldable pub ancestors : List String → List String → List (List String)
ancestors done [] = []
ancestors done (part ∷ []) = []
ancestors done (part ∷ next ∷ parts) =
    (done ++ part ∷ []) ∷ ancestors (done ++ part ∷ []) (next ∷ parts)

abbrev pub too_large : Service → Option Entry → Bool
too_large s none = false
too_large s (some e) = ltb s.max_file_size (s.size_of e)

unfoldable pub content_of : Service → String → Result String
content_of s content =
    if is_infix (codes "\\n") (codes content) || is_infix (codes "\\t") (codes content)
    then s.unescape content
    else ok content

-- Opening the file for writing empties it, also where its text cannot be encoded.
abbrev pub encoded : String → Files → Result String → Result (Unit {0}) × Files
encoded path files (err e) = (err e, insert path (file "") files)
encoded path files (ok bytes) = (ok tt, insert path (file bytes) files)

-- Writing to a directory raises.
abbrev pub stored : String → Result String → Files → Option Entry → Result (Unit {0}) × Files
stored path bytes files (some dir) = (err runtime_error, files)
stored path bytes files _ = encoded path files bytes

abbrev pub write_text :
    Service → String → List String → Files → Result String → Result (Unit {0}) × Files
write_text s encoding p files (err e) = (err e, files)
write_text s encoding p files (ok text) =
    then_on (stored (path_text p) (s.encode encoding text) files (lookup (path_text p) files))
      (λ written. (relative_to s.root p, written))

-- The answer names the path below the root, which is computed when the file is written.
abbrev pub write_at : Service → String → String → Files → List String → Result (Unit {0}) × Files
write_at s content encoding files p =
    if too_large s (lookup (path_text p) files)
    then (err (http 400), files)
    else then_on (make_dirs (ancestors [] p) files)
        (λ above. write_text s encoding p above (content_of s content))

unfoldable pub write_file : Service → String → String → String → Files → Result (Unit {0}) × Files
write_file s path content encoding files =
    at_path (resolve s.root path) files (write_at s content encoding files)

-- Reading a directory raises.
abbrev pub text_in : Service → Result (Unit {0}) → Option Entry → Result String
text_in s below none = err (http 404)
text_in s below (some e) =
    if ltb s.max_file_size (s.size_of e)
    then err (http 400)
    else (do named ← below; elim e [ file bytes ↦ ok (s.decode bytes) | dir ↦ err runtime_error ])

unfoldable pub read_file : Service → String → Files → Result String
read_file s path files = do
  p ← resolve s.root path
  text_in s (relative_to s.root p) (lookup (path_text p) files)

-- `shutil.rmtree` and `unlink`: the entry and all below it.
unfoldable pub remove_tree : String → Files → Files
remove_tree path [] = []
remove_tree path ((name, e) ∷ files) =
    let rest = remove_tree path files in
    if str_eq name path || startswith (prepend path "/") name then rest else (name, e) ∷ rest

abbrev pub removed : Service → Files → List String → Option Entry → Result (Unit {0}) × Files
removed s files p none = (err (http 404), files)
removed s files p (some e) = (relative_to s.root p, remove_tree (path_text p) files)

unfoldable pub delete_path : Service → String → Files → Result (Unit {0}) × Files
delete_path s path files =
    at_path (resolve s.root path) files (λ p. removed s files p (lookup (path_text p) files))

unfoldable pub make_dir : Service → String → Files → Result (Unit {0}) × Files
make_dir s path files = at_path (resolve s.root path) files (λ p.
    then_on (make_dirs (ancestors [] p ++ p ∷ []) files) (λ above. (relative_to s.root p, above)))

unfoldable pub move_path : Service → String → String → Files → Result (Unit {0}) × Files
move_path s src dst files = at_path (resolve s.root src) files (λ from.
    at_path (resolve s.root dst) files
      (λ to. then_on (make_dirs (ancestors [] to) files) (s.move (path_text from) (path_text to))))

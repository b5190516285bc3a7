-- ===== src/Tools/Workspace/Kept.antt =====
-- What the file operations keep.
use gpu_relay.Common.{
  String, str_eq, eq_iff, eq_refl, ◌≡◌, refl, sym, ap, subst, ◌∙◌, inl, inr, Bool, true, false,
  ◌||◌, none, some, List, [], ◌∷◌, prepend, startswith, ltb, lookup, insert, lookup-insert, Result,
  err, ok, http, Bool-cases, Option-cases, if◌then◌else◌, arith,
}
use gpu_relay.Tools.Workspace.{
  then_on, at_path, relative_to, Entry, file, dir, Files, Service, path_text, resolve, made,
  make_dirs, ancestors, encoded, stored, write_text, content_of, write_at, write_file, read_file,
  remove_tree, delete_path, too_large,
}

then_on-ok {ℓ} :
    {A : Type ℓ} (step : Result (Unit {0}) × Files) (next : Files → Result A × Files) (a : A)
    (after : Files)
    → then_on step next ≡ (ok a, after)
    → (files : Files) × (step ≡ (ok tt, files)) × (next files ≡ (ok a, after))
then_on-ok (err e, files) next a after h = cc
then_on-ok (ok x, files) next a after h = (files, refl, h)

at_path-ok {ℓ} :
    {A : Type ℓ} (found : Result (List String)) (files : Files)
    (next : List String → Result A × Files) (a : A) (after : Files)
    → at_path found files next ≡ (ok a, after)
    → (p : List String) × (found ≡ ok p) × (next p ≡ (ok a, after))
at_path-ok (err e) files next a after h = cc
at_path-ok (ok p) files next a after h = (p, refl, h)

files_of :
    {r r' : Result (Unit {0})} {f g : Files}
    → ◌≡◌ {A = Result (Unit {0}) × Files} (r, f) (r', g)
    → f ≡ g
files_of e = ap (λ (x : Result (Unit {0}) × Files). x.1) e

made-keeps :
    (path wanted : String) (e : Entry) (files after : Files)
    → lookup wanted files ≡ some e
    → made path files (lookup path files) ≡ (ok tt, after)
    → lookup wanted after ≡ some e
made-keeps path wanted e files after here done = elim (Option-cases (lookup path files)) [
  | inl missing ↦
      let differ : str_eq path wanted ≡ false = ground (arith, here, missing, eq_iff path wanted) in
      let same : insert path dir files ≡ after = files_of (rw missing at done) in
      subst (λ f. lookup wanted f ≡ some e) same
        (lookup-insert path wanted dir files ∙ rw differ here)
  | inr (dir, there) ↦ subst (λ f. lookup wanted f ≡ some e) (files_of (rw there at done)) here
  | inr (file t, there) ↦ cc (rw there at done)
]

-- Making directories leaves every entry as it is.
pub make_dirs-keeps :
    (paths : List (List String)) (wanted : String) (e : Entry) (files after : Files)
    → lookup wanted files ≡ some e
    → make_dirs paths files ≡ (ok tt, after)
    → lookup wanted after ≡ some e
unfolding make_dirs
make_dirs-keeps [] wanted e files after here done =
    subst (λ f. lookup wanted f ≡ some e) (files_of done) here
make_dirs-keeps (path ∷ paths) wanted e files after here done =
    let (next, now, later) =
      then_on-ok (made (path_text path) files (lookup (path_text path) files)) _ tt after done in
    make_dirs-keeps paths wanted e next after
      (made-keeps (path_text path) wanted e files next here now) later

encoded-is :
    (path : String) (coded : Result String) (files after : Files)
    → encoded path files coded ≡ (ok tt, after)
    → (bytes : String) × (coded ≡ ok bytes) × (after ≡ insert path (file bytes) files)
encoded-is path (err e) files after h = cc
encoded-is path (ok bytes) files after h = (bytes, refl, sym (files_of h))

stored-is :
    (path : String) (coded : Result String) (files after : Files)
    → stored path coded files (lookup path files) ≡ (ok tt, after)
    → (bytes : String) × (coded ≡ ok bytes) × (after ≡ insert path (file bytes) files)
stored-is path coded files after e = elim (Option-cases (lookup path files)) [
  | inl missing ↦ encoded-is path coded files after (rw missing at e)
  | inr (dir, there) ↦ cc (rw there at e)
  | inr (file t, there) ↦ encoded-is path coded files after (rw there at e)
]

written-is :
    (s : Service) (encoding : String) (p : List String) (content : Result String)
    (above after : Files)
    → write_text s encoding p above content ≡ (ok tt, after)
    → (text bytes : String) × (content ≡ ok text)
      × (s.encode encoding text ≡ ok bytes)
      × (after ≡ insert (path_text p) (file bytes) above)
      × (relative_to s.root p ≡ ok tt)
written-is s encoding p (err e) above after h = cc
written-is s encoding p (ok text) above after h =
    let (written, put, named) =
      then_on-ok (stored (path_text p) (s.encode encoding text) above (lookup (path_text p) above))
        _ tt after h in
    let (bytes, coded, new) = stored-is (path_text p) (s.encode encoding text) above written put in
    (
      text,
      bytes,
      refl,
      coded,
      sym (files_of named) ∙ new,
      ap (λ (x : Result (Unit {0}) × Files). x.0) named,
    )

-- After a successful write a read of the same path answers what the default codec decodes from the
-- bytes that the request's encoding has made of the content, unless they are too large; and every
-- other entry that was there is there as it was.
pub read-write_file :
    (s : Service) (path content encoding : String) (files after : Files)
    → write_file s path content encoding files ≡ (ok tt, after)
    → (p : List String) × (text bytes : String) × (resolve s.root path ≡ ok p)
      × (content_of s content ≡ ok text)
      × (s.encode encoding text ≡ ok bytes)
      × (read_file s path after ≡ (
          if ltb s.max_file_size (s.size_of (file bytes))
          then err (http 400)
          else ok (s.decode bytes)))
      × ((wanted : String) (e : Entry)
          → str_eq (path_text p) wanted ≡ false
          → lookup wanted files ≡ some e
          → lookup wanted after ≡ some e)
unfolding write_file read_file
read-write_file s path content encoding files after done =
    let (p, at, e1) =
      at_path-ok (resolve s.root path) files (write_at s content encoding files) tt after done in
    elim (Bool-cases (too_large s (lookup (path_text p) files))) [
      | inl large ↦ cc (rw large at e1)
      | inr fits ↦
          let (above, made_above, e2) =
            then_on-ok (make_dirs (ancestors [] p) files) _ tt after (rw fits at e1) in
          let (text, bytes, meant, coded, new, named) =
            written-is s encoding p (content_of s content) above after e2 in
          let there : lookup (path_text p) after ≡ some (file bytes) =
            ap (lookup (path_text p)) new
            ∙ lookup-insert (path_text p) (path_text p) (file bytes) above
            ∙ rw (eq_refl (path_text p)) refl in
          (
            p,
            text,
            bytes,
            at,
            meant,
            coded,
            rw (at, there, named, read_file) refl,
            λ wanted e differ here.
                ap (lookup wanted) new
                ∙ lookup-insert (path_text p) wanted (file bytes) above
                ∙ rw differ (make_dirs-keeps (ancestors [] p) wanted e files above here made_above),
          )
    ]

abbrev at_or_below : String → String → Bool
at_or_below path name = str_eq name path || startswith (prepend path "/") name

lookup-remove_tree :
    (path wanted : String) (files : Files)
    → lookup wanted (remove_tree path files) ≡ (
        if str_eq wanted path || startswith (prepend path "/") wanted
        then none
        else lookup wanted files)
unfolding lookup remove_tree
lookup-remove_tree path wanted [] = ground arith
lookup-remove_tree path wanted ((name, e) ∷ files) =
    let rest = lookup-remove_tree path wanted files in
    elim (Bool-cases (str_eq name wanted)) [
      | inr n ↦ elim (Bool-cases (at_or_below path name)) [
        | inl below ↦ rw (below, n) rest
        | inr above ↦ rw (above, n) rest
      ]
      | inl y ↦
          let same : name ≡ wanted = (eq_iff name wanted).0 y in
          elim (Bool-cases (at_or_below path name)) [
            | inl below ↦
                let also : at_or_below path wanted ≡ true =
                  subst (λ n. at_or_below path n ≡ true) same below in
                rw (below, also) (rest ∙ rw also refl)
            | inr above ↦
                let also : at_or_below path wanted ≡ false =
                  subst (λ n. at_or_below path n ≡ false) same above in
                rw (above, y, also) refl
          ]
    ]

-- A path that is deleted is not found afterwards, and every entry that is neither at the path nor
-- below it is there as it was.
pub read-delete_path :
    (s : Service) (path : String) (files after : Files)
    → delete_path s path files ≡ (ok tt, after)
    → (p : List String) × (resolve s.root path ≡ ok p)
      × (read_file s path after ≡ err (http 404))
      × ((wanted : String)
          → (str_eq wanted (path_text p) || startswith (prepend (path_text p) "/") wanted) ≡ false
          → lookup wanted after ≡ lookup wanted files)
unfolding delete_path read_file
read-delete_path s path files after done =
    let (p, at, e1) = at_path-ok (resolve s.root path) files _ tt after done in
    elim (Option-cases (lookup (path_text p) files)) [
      | inl missing ↦ cc (rw missing at e1)
      | inr (e, found) ↦
          let same : remove_tree (path_text p) files ≡ after = files_of (rw found at e1) in
          let gone : lookup (path_text p) after ≡ none =
            ap (lookup (path_text p)) (sym same)
            ∙ lookup-remove_tree (path_text p) (path_text p) files
            ∙ rw (eq_refl (path_text p)) refl in
          (
            p,
            at,
            rw (at, gone, read_file) refl,
            λ wanted outside.
                ap (lookup wanted) (sym same)
                ∙ lookup-remove_tree (path_text p) wanted files
                ∙ rw outside refl,
          )
    ]

-- ===== src/Routes/Tables/Filtered.antt =====
-- Lists under a test, and rows under a user and a name.
use gpu_relay.Common.{
  String, str_eq, eq_iff, ◌≡◌, refl, inl, inr, Bool, true, false, not, ◌&&◌, none, some, List, [],
  ◌∷◌, filter, find, All, arith, Bool-cases,
}

pub kept_by_filter :
    {R : Type 0} (P : R → Type 0) (p : R → Bool) (rows : List R)
    → All P rows
    → All P (filter p rows)
kept_by_filter P p [] h = tt
kept_by_filter P p (r ∷ rows) (now, later) = elim (Bool-cases (p r)) [
  | inl e ↦ rw e (now, kept_by_filter P p rows later)
  | inr e ↦ rw e (kept_by_filter P p rows later)
]

pub filter_none :
    {R : Type 0} (p : R → Bool) (rows : List R) → All (λ r. p r ≡ false) rows → filter p rows ≡ []
filter_none p [] h = refl
filter_none p (r ∷ rows) (now, later) = rw (now, filter_none p rows later) refl

pub filter_every :
    {R : Type 0} (p : R → Bool) (rows : List R)
    → All (λ r. p r ≡ false) rows
    → filter (λ r. not (p r)) rows ≡ rows
filter_every p [] h = refl
filter_every p (r ∷ rows) (now, later) = rw (now, filter_every p rows later) refl

pub nothing_found :
    {R : Type 0} (p : R → Bool) (rows : List R) → All (λ r. p r ≡ false) rows → find p rows ≡ none
nothing_found p [] h = refl
nothing_found p (r ∷ rows) (now, later) = rw (now, nothing_found p rows later) refl

pub none_found :
    {R : Type 0} (p : R → Bool) (rows : List R) → find p rows ≡ none → All (λ r. p r ≡ false) rows
none_found p [] h = tt
none_found p (r ∷ rows) h = ground (arith, none_found p rows)

pub holds_of_found :
    {R : Type 0} (P : R → Type 0) (p : R → Bool) (rows : List R) (r : R)
    → All P rows
    → find p rows ≡ some r
    → P r
holds_of_found P p [] r h e = cc
holds_of_found P p (s ∷ rows) r (now, later) e = elim (Bool-cases (p s)) [
  | inl y ↦ ground (arith, now, rw y at e)
  | inr n ↦ holds_of_found P p rows r later (rw n at e)
]

pub same_name :
    (a b c d a' b' : String)
    → (str_eq a b && str_eq c d) ≡ true
    → (str_eq a a' && str_eq c b') ≡ (str_eq b a' && str_eq d b')
same_name a b c d a' b' e =
    ground (arith, eq_iff a b, eq_iff c d, eq_iff a a', eq_iff b a', eq_iff c b', eq_iff d b')

pub other_name :
    (a b d e b' e' : String)
    → (str_eq a b && str_eq d e) ≡ false
    → (str_eq a b' && str_eq d e') ≡ true
    → (str_eq b b' && str_eq e e') ≡ false
other_name a b d e b' e' differs fits =
    ground (arith, eq_iff a b, eq_iff d e, eq_iff a b', eq_iff b b', eq_iff d e', eq_iff e e')

pub apart_sym : (a b : String) → str_eq a b ≡ false → str_eq b a ≡ false
apart_sym a b h = ground (arith, eq_iff a b, eq_iff b a)

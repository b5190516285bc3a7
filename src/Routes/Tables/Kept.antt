-- ===== src/Routes/Tables/Kept.antt =====
-- What the queries of a table answer after a change, and that a change keeps ids and names apart.
use gpu_relay.Common.{
  String, str_eq, eq_iff, eq_refl, ◌≡◌, refl, sym, subst, inl, inr, true, false, ◌&&◌, none, some,
  List, [], ◌∷◌, find, All, ok, if◌then◌else◌, arith, Bool-cases, ap, ◌∙◌,
}
use gpu_relay.Routes.Tables.{
  Columns, scalar_one_or_none, owned, has_id, select_one, change_row, delete_row, Keyed,
}
use gpu_relay.Routes.Tables.Filtered.{
  kept_by_filter, filter_none, filter_every, nothing_found, none_found, holds_of_found, same_name,
  other_name, apart_sym,
}

module _ {R : Type 0} (c : Columns R) where
  owner-owned :
      (user name : String) (row : R)
      → owned c user name row ≡ true
      → (c.user_of row ≡ user) × (c.name_of row ≡ name)
  owner-owned user name row e =
      ground (arith, eq_iff (c.user_of row) user, eq_iff (c.name_of row) name)

  -- The rows behind the one that a user has under a name are not that user's under it.
  others_apart :
      (user name : String) (row : R) (rows : List R)
      → owned c user name row ≡ true
      → All (λ s. owned c (c.user_of row) (c.name_of row) s ≡ false) rows
      → All (λ s. owned c user name s ≡ false) rows
  others_apart user name row rows e apart =
      let (u, n) = owner-owned user name row e in
      subst (λ v. All (λ s. owned c v name s ≡ false) rows) u
        (subst (λ m. All (λ s. owned c (c.user_of row) m s ≡ false) rows) n apart)

  -- With the constraints kept, a query for one row does not raise.
  pub select_one_lem :
      (user name : String) (rows : List R)
      → Keyed c rows
      → select_one c user name rows ≡ ok (find (owned c user name) rows)
  unfolding select_one scalar_one_or_none
  select_one_lem user name [] k = refl
  select_one_lem user name (row ∷ rows) (ids, names, k) =
      elim (Bool-cases (owned c user name row)) [
        | inl e ↦
            rw (e, filter_none (owned c user name) rows (others_apart user name row rows e names))
              refl
        | inr e ↦ rw e (select_one_lem user name rows k)
      ]

  pub delete-Keyed : (id : String) (rows : List R) → Keyed c rows → Keyed c (delete_row c id rows)
  unfolding delete_row
  delete-Keyed id [] k = tt
  delete-Keyed id (row ∷ rows) (ids, names, k) = elim (Bool-cases (has_id c id row)) [
    | inl e ↦ rw e (delete-Keyed id rows k)
    | inr e ↦
        rw e (kept_by_filter _ _ rows ids, kept_by_filter _ _ rows names, delete-Keyed id rows k)
  ]

  pub add-Keyed :
      (row : R) (rows : List R)
      → All (λ s. has_id c (c.id_of row) s ≡ false) rows
      → find (owned c (c.user_of row) (c.name_of row)) rows ≡ none
      → Keyed c rows
      → Keyed c (row ∷ rows)
  add-Keyed row rows fresh missing k = (fresh, none_found _ rows missing, k)

  -- Who asks for the name of a row that a user has under a name, is that user with that name.
  same_row :
      (user name user' name' : String) (row : R)
      → owned c user name row ≡ true
      → owned c user' name' row ≡ (str_eq user user' && str_eq name name')
  same_row user name user' name' row e =
      same_name (c.user_of row) user (c.name_of row) name user' name' e

  other_row :
      (user name user' name' : String) (row : R)
      → owned c user name row ≡ false
      → owned c user' name' row ≡ true
      → (str_eq user user' && str_eq name name') ≡ false
  other_row user name user' name' row differs fits =
      other_name (c.user_of row) user (c.name_of row) name user' name' differs fits

  -- A row that is found behind another has another id.
  other_id :
      (user name : String) (x row : R) (rows : List R)
      → All (λ s. has_id c (c.id_of x) s ≡ false) rows
      → find (owned c user name) rows ≡ some row
      → has_id c (c.id_of row) x ≡ false
  other_id user name x row rows ids e =
      apart_sym (c.id_of row) (c.id_of x) (holds_of_found _ (owned c user name) rows row ids e)

  find-delete_first :
      (user name : String) (x : R) (rows : List R)
      → All (λ s. has_id c (c.id_of x) s ≡ false) rows
      → All (λ s. owned c (c.user_of x) (c.name_of x) s ≡ false) rows
      → owned c user name x ≡ true
      → (user' name' : String)
      → find (owned c user' name') (delete_row c (c.id_of x) (x ∷ rows)) ≡ (
          if str_eq user user' && str_eq name name'
          then none
          else find (owned c user' name') (x ∷ rows))
  unfolding delete_row
  find-delete_first user name x rows ids names own user' name' =
      let same = sym (same_row user name user' name' x own) in
      let kept = filter_every (has_id c (c.id_of x)) rows ids in
      elim (Bool-cases (owned c user' name' x)) [
        | inl y ↦
            let gone =
              nothing_found (owned c user' name') rows (others_apart user' name' x rows y names) in
            rw (eq_refl (c.id_of x), kept, same ∙ y, gone) refl
        | inr n ↦ rw (eq_refl (c.id_of x), kept, same ∙ n, n) refl
      ]

  pub find-delete_row :
      (user name : String) (row : R) (rows : List R)
      → Keyed c rows
      → find (owned c user name) rows ≡ some row
      → (user' name' : String)
      → find (owned c user' name') (delete_row c (c.id_of row) rows)
        ≡ (if str_eq user user' && str_eq name name' then none else find (owned c user' name') rows)
  unfolding delete_row
  find-delete_row user name row [] k e user' name' = cc
  find-delete_row user name row (x ∷ rows) (ids, names, k) e user' name' =
      elim (Bool-cases (owned c user name x)) [
        | inl own ↦
            let same : x ≡ row = cc (rw own at e) in
            subst
              (λ r. find (owned c user' name') (delete_row c (c.id_of r) (x ∷ rows)) ≡ (
                if str_eq user user' && str_eq name name'
                then none
                else find (owned c user' name') (x ∷ rows)))
              same (find-delete_first user name x rows ids names own user' name')
        | inr other ↦
            let behind : find (owned c user name) rows ≡ some row = rw other at e in
            let apart = other_id user name x row rows ids behind in
            let rest = find-delete_row user name row rows k behind user' name' in
            elim (Bool-cases (owned c user' name' x)) [
              | inl y ↦ rw (apart, y, other_row user name user' name' x other y) refl
              | inr n ↦ rw (apart, n) rest
            ]
      ]

  -- A change that keeps the id, the user and the name.
  module _ (f : R → R)
      (keeps : (r : R)
        → (c.id_of (f r) ≡ c.id_of r)
          × (c.user_of (f r) ≡ c.user_of r)
          × (c.name_of (f r) ≡ c.name_of r)) where
    change_absent :
        (id : String) (rows : List R)
        → All (λ s. has_id c id s ≡ false) rows
        → change_row c id f rows ≡ rows
    unfolding change_row
    change_absent id [] h = refl
    change_absent id (r ∷ rows) (now, later) =
        rw now (ap (λ rest. r ∷ rest) (change_absent id rows later))

    kept_by_change :
        (P : R → Type 0) (id : String)
        → ((r : R) → P r → P (f r))
        → (rows : List R) → All P rows
        → All P (change_row c id f rows)
    unfolding change_row
    kept_by_change P id step [] h = tt
    kept_by_change P id step (r ∷ rows) (now, later) = elim (Bool-cases (has_id c id r)) [
      | inl e ↦ rw e (step r now, kept_by_change P id step rows later)
      | inr e ↦ rw e (now, kept_by_change P id step rows later)
    ]

    pub change-Keyed :
        (id : String) (rows : List R) → Keyed c rows → Keyed c (change_row c id f rows)
    unfolding change_row
    change-Keyed id [] k = tt
    change-Keyed id (row ∷ rows) (ids, names, k) =
        let ids' =
          kept_by_change (λ s. has_id c (c.id_of row) s ≡ false) id (λ s h. rw (keeps s).0 h) rows
            ids in
        let names' =
          kept_by_change (λ s. owned c (c.user_of row) (c.name_of row) s ≡ false) id
            (λ s h. rw ((keeps s).1, (keeps s).2) h) rows names in
        elim (Bool-cases (has_id c id row)) [
          | inl e ↦
              rw (e, (keeps row).0, (keeps row).1, (keeps row).2)
                (ids', names', change-Keyed id rows k)
          | inr e ↦ rw e (ids', names', change-Keyed id rows k)
        ]

    find-change_first :
        (user name : String) (x : R) (rows : List R)
        → All (λ s. has_id c (c.id_of x) s ≡ false) rows
        → owned c user name x ≡ true
        → (user' name' : String)
        → find (owned c user' name') (change_row c (c.id_of x) f (x ∷ rows)) ≡ (
            if str_eq user user' && str_eq name name'
            then some (f x)
            else find (owned c user' name') (x ∷ rows))
    unfolding change_row
    find-change_first user name x rows ids own user' name' =
        let same = sym (same_row user name user' name' x own) in
        let kept : owned c user' name' (f x) ≡ owned c user' name' x =
          rw ((keeps x).1, (keeps x).2) refl in
        elim (Bool-cases (owned c user' name' x)) [
          | inl y ↦ rw (eq_refl (c.id_of x), kept, same ∙ y, y) refl
          | inr n ↦
              rw (eq_refl (c.id_of x), change_absent (c.id_of x) rows ids, kept, same ∙ n, n) refl
        ]

    pub find-change_row :
        (user name : String) (row : R) (rows : List R)
        → Keyed c rows
        → find (owned c user name) rows ≡ some row
        → (user' name' : String)
        → find (owned c user' name') (change_row c (c.id_of row) f rows) ≡ (
            if str_eq user user' && str_eq name name'
            then some (f row)
            else find (owned c user' name') rows)
    unfolding change_row
    find-change_row user name row [] k e user' name' = cc
    find-change_row user name row (x ∷ rows) (ids, names, k) e user' name' =
        elim (Bool-cases (owned c user name x)) [
          | inl own ↦
              let same : x ≡ row = cc (rw own at e) in
              subst
                (λ r. find (owned c user' name') (change_row c (c.id_of r) f (x ∷ rows)) ≡ (
                  if str_eq user user' && str_eq name name'
                  then some (f r)
                  else find (owned c user' name') (x ∷ rows)))
                same (find-change_first user name x rows ids own user' name')
          | inr other ↦
              let behind : find (owned c user name) rows ≡ some row = rw other at e in
              let apart = other_id user name x row rows ids behind in
              let rest = find-change_row user name row rows k behind user' name' in
              elim (Bool-cases (owned c user' name' x)) [
                | inl y ↦ rw (apart, y, other_row user name user' name' x other y) refl
                | inr n ↦ rw (apart, n) rest
              ]
        ]

-- ===== src/Routes/Accounts/Created.antt =====
-- What the creation of a user ends with.
use gpu_relay.Common.{
  ℕ, String, str_eq, eq_iff, eq_refl, ◌≡◌, refl, ap, subst, ◌⊎◌, inl, inr, Bool, true, false, ◌&&◌,
  none, some, List, [], ◌∷◌, All, filter, find, Result, Error, ok, err, http, runtime_error,
  >>=-eq-ok, ok-injective, Bool-cases, Option-cases, Result-cases, arith,
}
use gpu_relay.Models.{User}
use gpu_relay.Auth.{Db, Crypto, api_key, get_user, get_current_user, create_api_key}
use gpu_relay.Auth.Keys.{create-authenticates}
use gpu_relay.Routes.Tables.{scalar_one_or_none}
use gpu_relay.Routes.Accounts.{
  CreateUserRequest, CreateUserResponse, Accounts, Services, Drawn, user_role, db_billing_mode,
  no_such_user, ℤ, pos, negsuc, stored_budget, new_user, new_quota, with_key, added,
  admin_create_user,
}

abbrev pub has_email : String → User → Bool
has_email email u = str_eq u.email email

-- No two users have the same email.
abbrev pub EmailsApart : List User → Type 0
EmailsApart [] = Unit
EmailsApart (u ∷ users) = All (λ v. str_eq v.email u.email ≡ false) users × EmailsApart users

none_with :
    (email : String) (u : User) (users : List User)
    → str_eq u.email email ≡ true
    → All (λ v. str_eq v.email u.email ≡ false) users
    → filter (has_email email) users ≡ []
none_with email u [] e h = refl
none_with email u (v ∷ users) e (now, later) =
    let same = (eq_iff u.email email).0 e in
    let differs : str_eq v.email email ≡ false = subst (λ m. str_eq v.email m ≡ false) same now in
    rw differs (none_with email u users e later)

one-with :
    (email : String) (users : List User)
    → EmailsApart users
    → scalar_one_or_none (filter (has_email email) users) ≡ ok (find (has_email email) users)
unfolding scalar_one_or_none
one-with email [] h = refl
one-with email (u ∷ users) (now, later) = elim (Bool-cases (has_email email u)) [
  | inl e ↦ rw (e, none_with email u users e now) refl
  | inr e ↦ rw e (one-with email users later)
]

absent :
    (email : String) (users : List User)
    → find (has_email email) users ≡ none
    → All (λ u. str_eq u.email email ≡ false) users
absent email [] e = tt
absent email (u ∷ users) e = ground (arith, absent email users)

with_key-users :
    (c : Crypto) (d : Drawn) (wished : Bool) (u : User) (db : Db)
    → (with_key c d wished u db).1.users ≡ db.users
unfolding create_api_key
with_key-users c d true u db = refl
with_key-users c d false u db = refl

-- Whether the request's role and billing mode are words that the enumerations have.
abbrev pub is_known {ℓ} : {A : Type ℓ} → Result A → Bool
is_known (ok a) = true
is_known (err e) = false

role-error : (name : String) (e : Error) → user_role name ≡ err e → e ≡ http 400
unfolding user_role
role-error name e h = ground (arith, h)

billing-error : (name : String) (e : Error) → db_billing_mode name ≡ err e → e ≡ http 400
unfolding db_billing_mode
billing-error name e h = ground (arith, h)

budget-error : (x : ℤ) (e : Error) → stored_budget x ≡ err e → e ≡ runtime_error
unfolding stored_budget
budget-error (pos n) e h = ground (arith, h)
budget-error (negsuc n) e h = ground (arith, h)

-- The four ends of a creation, with emails that are apart and a password that can be hashed: an email
-- that is taken is answered with 409, a role or a billing mode that is not known with 400, and a
-- budget that the column refuses raises; otherwise the tables have a new user with the request's
-- email and the budget as the column stores it, and a quota for that user, and emails are still apart.
pub admin_create_user_lem :
    (c : Crypto) (hash : String → String) (s : Services) (d : Drawn) (body : CreateUserRequest)
    (a : Accounts)
    → EmailsApart a.db.users
    → ((u : User) × (find (has_email body.email) a.db.users ≡ some u)
        × (admin_create_user c hash s d body a ≡ err (http 409)))
      ⊎ (((is_known (user_role body.role) && is_known (db_billing_mode body.billing_mode)) ≡ false)
          × (admin_create_user c hash s d body a ≡ err (http 400)))
      ⊎ ((is_known (stored_budget body.budget_usd) ≡ false)
          × (admin_create_user c hash s d body a ≡ err runtime_error))
      ⊎ ((response : CreateUserResponse) × (after : Accounts) × (u : User) × (admin_create_user c
              hash s d body a
            ≡ ok (response, after))
          × (after.db.users ≡ u ∷ a.db.users)
          × (u.email ≡ body.email)
          × (stored_budget body.budget_usd ≡ ok u.monthly_budget_usd)
          × (after.quotas ≡ new_quota u u.monthly_budget_usd ∷ a.quotas)
          × EmailsApart after.db.users)
unfolding admin_create_user
admin_create_user_lem c hash s d body a apart =
    let asked = one-with body.email a.db.users apart in
    elim (Option-cases (find (has_email body.email) a.db.users)) [
      | inr (u, found) ↦ inl (u, found, rw (asked, found, admin_create_user) refl)
      | inl missing ↦ elim (Result-cases (user_role body.role)) [
        | inl (e, bad) ↦ inr (
            inl (
              rw bad refl,
              rw (asked, missing, bad, admin_create_user) (ap err (role-error body.role e bad)),
            ))
        | inr (role, good) ↦ elim (Result-cases (db_billing_mode body.billing_mode)) [
          | inl (e, bad) ↦ inr (
              inl (
                rw (good, bad) refl,
                rw (asked, missing, good, bad, admin_create_user)
                    (ap err (billing-error body.billing_mode e bad)),
              ))
          | inr (billing, known) ↦ elim (Result-cases (stored_budget body.budget_usd)) [
            | inl (e, bad) ↦ inr (
                inr (
                  inl (
                    rw bad refl,
                    rw (asked, missing, good, known, bad, admin_create_user)
                        (ap err (budget-error body.budget_usd e bad)),
                  )))
            | inr (budget, fits) ↦
                let u = new_user hash d.user_id body role billing budget in
                let with_user : Db = record a.db { users = u ∷ a.db.users } in
                let (response, after) = added c s d body u a in
                let users = with_key-users c d body.create_api_key u with_user in
                inr (
                  inr (
                    inr (
                      response,
                      after,
                      u,
                      rw (asked, missing, good, known, fits, admin_create_user) refl,
                      users,
                      refl,
                      fits,
                      refl,
                      rw users (absent body.email a.db.users missing, apart),
                    )))
          ]
        ]
      ]
    ]

abbrev LetIn : Crypto → ℕ → CreateUserRequest → CreateUserResponse × Accounts → Type 0
LetIn c now body (response, after) =
    (u : User) × (get_user after.db.users response.user_id ≡ some u)
    × (u.email ≡ body.email)
    × ((get_current_user c now response.api_key after.db).0 ≡ ok (u, api_key))

added_lem :
    (c : Crypto) (s : Services) (d : Drawn) (body : CreateUserRequest) (u : User) (a : Accounts)
    (now : ℕ)
    → body.create_api_key ≡ true
    → u.email ≡ body.email
    → u.is_active ≡ true
    → LetIn c now body (added c s d body u a)
unfolding create_api_key get_user
added_lem c s d body u a now wished email on =
    let with_user : Db = record a.db { users = u ∷ a.db.users } in
    let known : get_user with_user.users u.id ≡ some u = rw (eq_refl u.id, get_user) refl in
    rw wished (u, known, email, create-authenticates c now d.secret d.key_id u with_user known on)

-- A user who is created with a key is let in with the key of the answer, as that user.
pub create-let_in :
    (c : Crypto) (hash : String → String) (s : Services) (d : Drawn) (body : CreateUserRequest)
    (a after : Accounts) (response : CreateUserResponse) (now : ℕ)
    → body.create_api_key ≡ true
    → admin_create_user c hash s d body a ≡ ok (response, after)
    → (u : User) × (get_user after.db.users response.user_id ≡ some u)
      × (u.email ≡ body.email)
      × ((get_current_user c now response.api_key after.db).0 ≡ ok (u, api_key))
unfolding admin_create_user
create-let_in c hash s d body a after response now wished e =
    let (found, _, e1) =
      >>=-eq-ok (scalar_one_or_none (filter (has_email body.email) a.db.users)) _ e in
    let (missing, _, e2) = >>=-eq-ok (no_such_user found) _ e1 in
    let (role, _, e3) = >>=-eq-ok (user_role body.role) _ e2 in
    let (billing, _, e4) = >>=-eq-ok (db_billing_mode body.billing_mode) _ e3 in
    let (budget, _, e5) = >>=-eq-ok (stored_budget body.budget_usd) _ e4 in
    let u = new_user hash d.user_id body role billing budget in
    let same : added c s d body u a ≡ (response, after) = ok-injective e5 in
    subst (LetIn c now body) same (added_lem c s d body u a now wished refl refl)

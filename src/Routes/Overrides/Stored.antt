-- ===== src/Routes/Overrides/Stored.antt =====
-- The tier overrides as a function of the user and the tier.
use gpu_relay.Common.{
  ℕ, String, str_eq, ◌≡◌, refl, ap, ◌∙◌, ◌⊎◌, inl, inr, Bool, true, false, ◌&&◌, Option, none, some,
  List, ◌∷◌, find, All, ok, err, http, if◌then◌else◌, Option-cases, eq_refl,
}
use gpu_relay.Models.{User}
use gpu_relay.Routes.Tables.{owned, has_id, change_row, delete_row, Keyed}
use gpu_relay.Routes.Tables.Kept.{
  select_one_lem, add-Keyed, change-Keyed, delete-Keyed, find-change_row, find-delete_row,
}
use gpu_relay.Routes.Overrides.{
  OverrideRow, UserTierOverrideRequest, UserTierOverrideResponse, columns, assign, fresh_row,
  uto_to_response, get_tier_override, upsert_tier_override, delete_tier_override,
}

-- The settings of a row, which are those of a request.
abbrev pub settings_of : OverrideRow → UserTierOverrideRequest
settings_of row = record {
  provider_order = row.provider_order;
  disabled_providers = row.disabled_providers;
  provider_models = row.provider_models;
  model_override = row.model_override;
  model_no_tools_override = row.model_no_tools_override;
  idle_timeout_sec = row.idle_timeout_sec;
  max_context_tokens = row.max_context_tokens;
}

abbrev of_found : Option OverrideRow → Option UserTierOverrideRequest
of_found none = none
of_found (some row) = some (settings_of row)

-- The abstract table: the settings of a user for a tier.
abbrev pub settings_at : List OverrideRow → String → String → Option UserTierOverrideRequest
settings_at rows user tier = of_found (find (owned columns user tier) rows)

of_found-if :
    (b : Bool) (row : OverrideRow) (found : Option OverrideRow)
    → of_found (if b then some row else found)
      ≡ (if b then some (settings_of row) else of_found found)
of_found-if true row found = refl
of_found-if false row found = refl

of_found-unless :
    (b : Bool) (found : Option OverrideRow)
    → of_found (if b then none else found) ≡ (if b then none else of_found found)
of_found-unless true found = refl
of_found-unless false found = refl

-- With the table's constraints kept and an id that no row has, a put ends with a table that keeps
-- them, in which the user has the request's settings for the tier, and every other user and tier
-- has the settings that it had before.
pub upsert_tier_override_lem :
    (id : String) (now : ℕ) (tier : String) (body : UserTierOverrideRequest) (user : User)
    (rows : List OverrideRow)
    → Keyed columns rows
    → All (λ s. has_id columns id s ≡ false) rows
    → (answer : UserTierOverrideResponse) × (rows' : List OverrideRow) × (upsert_tier_override id
          now tier body user rows
        ≡ ok (answer, rows'))
      × Keyed columns rows'
      × ((u t : String)
          → settings_at rows' u t
            ≡ (if str_eq user.id u && str_eq tier t then some body else settings_at rows u t))
unfolding upsert_tier_override
upsert_tier_override_lem id now tier body user rows keyed fresh =
    let selected = select_one_lem columns user.id tier rows keyed in
    elim (Option-cases (find (owned columns user.id tier) rows)) [
      | inl missing ↦
          let row = assign body now (fresh_row id now user tier) in
          (
            uto_to_response row,
            row ∷ rows,
            rw (selected, missing, upsert_tier_override) refl,
            add-Keyed columns row rows fresh missing keyed,
            λ u t.
                of_found-if (str_eq user.id u && str_eq tier t) row (find (owned columns u t) rows),
          )
      | inr (row, found) ↦ (
        uto_to_response (assign body now row),
        change_row columns row.id (assign body now) rows,
        rw (selected, found, upsert_tier_override) refl,
        change-Keyed columns (assign body now) (λ r. (refl, refl, refl)) row.id rows keyed,
        λ u t.
            ap of_found (
              find-change_row columns (assign body now) (λ r. (refl, refl, refl)) user.id tier row
                rows keyed found u t)
            ∙ of_found-if (str_eq user.id u && str_eq tier t) (assign body now row)
                (find (owned columns u t) rows),
      )
    ]

-- With the constraints kept, a delete of settings that are not there is answered with 404, and of
-- settings that are there ends with a table that keeps the constraints and lacks just them.
pub delete_tier_override_lem :
    (tier : String) (user : User) (rows : List OverrideRow)
    → Keyed columns rows
    → ((settings_at rows user.id tier ≡ none)
        × (delete_tier_override tier user rows ≡ err (http 404)))
      ⊎ ((rows' : List OverrideRow) × (delete_tier_override tier user rows ≡ ok rows')
          × Keyed columns rows'
          × ((u t : String)
              → settings_at rows' u t
                ≡ (if str_eq user.id u && str_eq tier t then none else settings_at rows u t)))
unfolding delete_tier_override
delete_tier_override_lem tier user rows keyed =
    let selected = select_one_lem columns user.id tier rows keyed in
    elim (Option-cases (find (owned columns user.id tier) rows)) [
      | inl missing ↦ inl (ap of_found missing, rw (selected, missing, delete_tier_override) refl)
      | inr (row, found) ↦ inr (
        delete_row columns row.id rows,
        rw (selected, found, delete_tier_override) refl,
        delete-Keyed columns row.id rows keyed,
        λ u t.
            ap of_found (find-delete_row columns user.id tier row rows keyed found u t)
            ∙ of_found-unless (str_eq user.id u && str_eq tier t) (find (owned columns u t) rows),
      )
    ]

get-found :
    (tier : String) (user : User) (rows : List OverrideRow) (body : UserTierOverrideRequest)
    → Keyed columns rows
    → settings_at rows user.id tier ≡ some body
    → (row : OverrideRow) × (get_tier_override tier user rows ≡ ok (uto_to_response row))
      × (settings_of row ≡ body)
unfolding get_tier_override
get-found tier user rows body keyed e =
    let selected = select_one_lem columns user.id tier rows keyed in
    elim (Option-cases (find (owned columns user.id tier) rows)) [
      | inl missing ↦ cc (rw missing at e)
      | inr (row, found) ↦ (row, rw (selected, found, get_tier_override) refl, cc (rw found at e))
    ]

-- What a put has stored is what the same user's next get of the tier answers, whatever the fields.
pub get-upsert :
    (id : String) (now : ℕ) (tier : String) (body : UserTierOverrideRequest) (user : User)
    (rows : List OverrideRow)
    → Keyed columns rows
    → All (λ s. has_id columns id s ≡ false) rows
    → (answer : UserTierOverrideResponse) × (rows' : List OverrideRow) × (row : OverrideRow)
      × (upsert_tier_override id now tier body user rows ≡ ok (answer, rows'))
      × (get_tier_override tier user rows' ≡ ok (uto_to_response row))
      × (settings_of row ≡ body)
get-upsert id now tier body user rows keyed fresh =
    let (answer, rows', e, keyed', at) =
      upsert_tier_override_lem id now tier body user rows keyed fresh in
    let here : settings_at rows' user.id tier ≡ some body =
      at user.id tier ∙ rw (eq_refl user.id, eq_refl tier) refl in
    let (row, got, same) = get-found tier user rows' body keyed' here in
    (answer, rows', row, e, got, same)

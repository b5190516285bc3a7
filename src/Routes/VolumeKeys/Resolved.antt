-- ===== src/Routes/VolumeKeys/Resolved.antt =====
-- A stored volume key is what the manager resolves for that user at that provider.
use gpu_relay.Common.{
  ℕ, String, str_eq, ◌≡◌, refl, ap, ◌∙◌, Bool, true, false, ◌&&◌, Option, none, some, List, ◌∷◌,
  find, All, contains, ok, if◌then◌else◌, Option-cases, inl, inr, eq_refl,
}
use gpu_relay.Models.{User}
use gpu_relay.Instance.State.{Settings}
use gpu_relay.Instance.Spin.{UserVolumeKey, resolve_user_volume, volume}
use gpu_relay.Routes.Tables.{owned, has_id, Keyed, change_row}
use gpu_relay.Routes.Tables.Kept.{select_one_lem, add-Keyed, change-Keyed, find-change_row}
use gpu_relay.Routes.VolumeKeys.{
  VolumeRow, VolumeKeyCreate, VolumeKeyOut, columns, overwrite, fresh_row, out_of,
  valid_volume_providers, add_volume_key, read_by_launch,
}

abbrev pub stored : Option VolumeRow → Option UserVolumeKey
stored none = none
stored (some row) = some (read_by_launch row)

-- What a launch reads for a user and a provider.
abbrev pub stored_at : List VolumeRow → String → String → Option UserVolumeKey
stored_at rows user provider = stored (find (owned columns user provider) rows)

stored-if :
    (b : Bool) (row : VolumeRow) (found : Option VolumeRow)
    → stored (if b then some row else found)
      ≡ (if b then some (read_by_launch row) else stored found)
stored-if true row found = refl
stored-if false row found = refl

abbrev of_body : (String → String) → VolumeKeyCreate → UserVolumeKey
of_body encrypt body = record {
  volume_id = body.volume_id;
  api_key_encrypted = some (encrypt body.api_key);
  datacenter = body.datacenter;
}

-- With the table's constraints kept and an id that no row has, a key for a known provider is
-- stored: the table keeps its constraints, a launch reads the new volume and key for the user and
-- the provider, and for every other user or provider what it read before.
pub add_volume_key_lem :
    (encrypt : String → String) (id : String) (now : ℕ) (body : VolumeKeyCreate) (user : User)
    (rows : List VolumeRow)
    → contains body.provider valid_volume_providers ≡ true
    → Keyed columns rows
    → All (λ s. has_id columns id s ≡ false) rows
    → (answer : VolumeKeyOut) × (rows' : List VolumeRow) × (add_volume_key encrypt id now body user
          rows
        ≡ ok (answer, rows'))
      × Keyed columns rows'
      × ((u p : String)
          → stored_at rows' u p ≡ (
              if str_eq user.id u && str_eq body.provider p
              then some (of_body encrypt body)
              else stored_at rows u p))
unfolding add_volume_key
add_volume_key_lem encrypt id now body user rows known keyed fresh =
    let selected = select_one_lem columns user.id body.provider rows keyed in
    elim (Option-cases (find (owned columns user.id body.provider) rows)) [
      | inl missing ↦
          let row = fresh_row id now (encrypt body.api_key) body user in
          (
            out_of row,
            row ∷ rows,
            rw (known, selected, missing, add_volume_key) refl,
            add-Keyed columns row rows fresh missing keyed,
            λ u p.
                stored-if (str_eq user.id u && str_eq body.provider p) row
                  (find (owned columns u p) rows),
          )
      | inr (row, found) ↦
          let change = overwrite (encrypt body.api_key) body in
          (
            out_of (change row),
            change_row columns row.id change rows,
            rw (known, selected, found, add_volume_key) refl,
            change-Keyed columns change (λ r. (refl, refl, refl)) row.id rows keyed,
            λ u p.
                ap stored (
                  find-change_row columns change (λ r. (refl, refl, refl)) user.id body.provider row
                    rows keyed found u p)
                ∙ stored-if (str_eq user.id u && str_eq body.provider p) (change row)
                    (find (owned columns u p) rows),
          )
    ]

-- A key is stored for a known provider, and no stored row has the new identifier or another row's
-- user and provider. Then the call succeeds, and what the manager resolves from the stored row, for
-- that user and that provider, is the volume, the datacenter and the decrypted key of the request,
-- whatever the user's storage policy: with a key that is not empty, and a cipher that decrypts what
-- it encrypts and encrypts to a text that is not empty.
pub resolve-add_volume_key :
    (encrypt : String → String) (decrypt : String → Option String) (id : String) (now : ℕ)
    (body : VolumeKeyCreate) (user : User) (rows : List VolumeRow) (s : Settings)
    (provider_key : Option String)
    → contains body.provider valid_volume_providers ≡ true
    → Keyed columns rows
    → All (λ r. has_id columns id r ≡ false) rows
    → decrypt (encrypt body.api_key) ≡ some body.api_key
    → str_eq (encrypt body.api_key) "" ≡ false
    → str_eq body.api_key "" ≡ false
    → (answer : VolumeKeyOut) × (rows' : List VolumeRow) × (add_volume_key encrypt id now body user
          rows
        ≡ ok (answer, rows'))
      × (resolve_user_volume s body.provider (
            some (record {
              user = some user;
              volume_key = stored_at rows' user.id body.provider;
              provider_key = provider_key;
              decrypt = decrypt;
            }))
          ≡ ok (volume (some body.volume_id) (some body.api_key) body.datacenter))
unfolding resolve_user_volume
resolve-add_volume_key encrypt decrypt id now body user rows s provider_key known keyed fresh opens
      cipher key =
    let (answer, rows', e, keyed', at) =
      add_volume_key_lem encrypt id now body user rows known keyed fresh in
    let here : stored_at rows' user.id body.provider ≡ some (of_body encrypt body) =
      at user.id body.provider ∙ rw (eq_refl user.id, eq_refl body.provider) refl in
    (answer, rows', e, rw (here, cipher, opens, key, resolve_user_volume) refl)

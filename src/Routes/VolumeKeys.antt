-- ===== src/Routes/VolumeKeys.antt =====
-- The volume key routes of bridge/main.py. An id, the time of a call and the cipher of
-- bridge/crypto.py, which is a library's, are given.
pub mod Resolved
use gpu_relay.Common.{
  ℕ, String, str_eq, Bool, Option, none, some, List, [], ◌∷◌, filter, find, map, contains, Result,
  err, ok, http, ◌>>=◌, if◌then◌else◌,
}
use gpu_relay.Models.{User}
use gpu_relay.Instance.Spin.{UserVolumeKey}
use gpu_relay.Routes.Tables.{Columns, has_id, select_one, change_row, delete_row}

abbrev pub valid_volume_providers : List String
valid_volume_providers = "runpod" ∷ "vast" ∷ "lambda" ∷ []

pub record VolumeKeyCreate : Type 0 where
  pub provider : String
  pub volume_id : String
  pub api_key : String
  pub datacenter : Option String

pub record VolumeKeyOut : Type 0 where
  pub id : String
  pub provider : String
  pub volume_id : String
  pub datacenter : Option String
  pub created_at : ℕ

pub record VolumeRow : Type 0 where
  pub id : String
  pub user_id : String
  pub provider : String
  pub volume_id : String
  pub api_key_encrypted : String
  pub datacenter : Option String
  pub created_at : ℕ

-- The unique constraint: a user has one row for a provider.
abbrev pub columns : Columns VolumeRow
columns = record {
  id_of = λ row. row.id;
  user_of = λ row. row.user_id;
  name_of = λ row. row.provider;
}

unfoldable pub out_of : VolumeRow → VolumeKeyOut
out_of row = record {
  id = row.id;
  provider = row.provider;
  volume_id = row.volume_id;
  datacenter = row.datacenter;
  created_at = row.created_at;
}

unfoldable pub list_volume_keys : User → List VolumeRow → List VolumeKeyOut
list_volume_keys user rows =
    map out_of (filter (λ (row : VolumeRow). str_eq row.user_id user.id) rows)

abbrev pub overwrite : String → VolumeKeyCreate → VolumeRow → VolumeRow
overwrite encrypted body row = record row {
  volume_id = body.volume_id;
  api_key_encrypted = encrypted;
  datacenter = body.datacenter;
}

abbrev pub fresh_row : String → ℕ → String → VolumeKeyCreate → User → VolumeRow
fresh_row id now encrypted body user = record {
  id = id;
  user_id = user.id;
  provider = body.provider;
  volume_id = body.volume_id;
  api_key_encrypted = encrypted;
  datacenter = body.datacenter;
  created_at = now;
}

-- The row that is written, and the table with it.
abbrev pub written :
    String
    → ℕ
    → String
    → VolumeKeyCreate
    → User
    → List VolumeRow
    → Option VolumeRow
    → VolumeKeyOut × List VolumeRow
written id now encrypted body user rows none =
    let row = fresh_row id now encrypted body user in (out_of row, row ∷ rows)
written id now encrypted body user rows (some row) = (
  out_of (overwrite encrypted body row),
  change_row columns row.id (overwrite encrypted body) rows,
)

unfoldable pub add_volume_key :
    (String → String)
    → String
    → ℕ
    → VolumeKeyCreate
    → User
    → List VolumeRow
    → Result (VolumeKeyOut × List VolumeRow)
add_volume_key encrypt id now body user rows =
    if contains body.provider valid_volume_providers
    then (do
      existing ← select_one columns user.id body.provider rows
      ok (written id now (encrypt body.api_key) body user rows existing))
    else err (http 400)

abbrev deleted_by : User → List VolumeRow → Option VolumeRow → Result (List VolumeRow)
deleted_by user rows none = err (http 404)
deleted_by user rows (some row) =
    if str_eq row.user_id user.id then ok (delete_row columns row.id rows) else err (http 404)

-- `session.get(UserVolumeKey, key_id)`, and the delete of a row that is the user's own
unfoldable pub delete_volume_key : String → User → List VolumeRow → Result (List VolumeRow)
delete_volume_key key_id user rows = deleted_by user rows (find (has_id columns key_id) rows)

-- The columns that a launch reads.
abbrev pub read_by_launch : VolumeRow → UserVolumeKey
read_by_launch row = record {
  volume_id = row.volume_id;
  api_key_encrypted = some row.api_key_encrypted;
  datacenter = row.datacenter;
}

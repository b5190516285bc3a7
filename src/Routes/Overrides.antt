-- ===== src/Routes/Overrides.antt =====
-- The tier override routes of bridge/main.py. An id and the time of a call are given.
pub mod Stored
use gpu_relay.Common.{
  ℕ, String, str_eq, Bool, Option, none, some, List, [], ◌∷◌, filter, map, Dict, or_default, Result,
  err, ok, http, ◌>>=◌, if◌then◌else◌,
}
use gpu_relay.Models.{User}
use gpu_relay.Bridge.Chat.{UserTierOverride}
use gpu_relay.Routes.Tables.{Columns, select_one, change_row, delete_row}

pub record UserTierOverrideRequest : Type 0 where
  pub provider_order : Option (List String)
  pub disabled_providers : Option (List String)
  pub provider_models : Option (Dict String)
  pub model_override : Option String
  pub model_no_tools_override : Option String
  pub idle_timeout_sec : Option ℕ
  pub max_context_tokens : Option ℕ

pub record OverrideRow : Type 0 where
  pub id : String
  pub user_id : String
  pub tier : String
  pub provider_order : Option (List String)
  pub disabled_providers : Option (List String)
  pub provider_models : Option (Dict String)
  pub model_override : Option String
  pub model_no_tools_override : Option String
  pub idle_timeout_sec : Option ℕ
  pub max_context_tokens : Option ℕ
  pub created_at : ℕ
  pub updated_at : ℕ

pub record UserTierOverrideResponse : Type 0 where
  pub id : String
  pub tier : String
  pub provider_order : Option (List String)
  pub disabled_providers : Option (List String)
  pub provider_models : Option (Dict String)
  pub model_override : Option String
  pub model_no_tools_override : Option String
  pub idle_timeout_sec : Option ℕ
  pub max_context_tokens : Option ℕ
  pub created_at : ℕ
  pub updated_at : ℕ

-- The unique constraint: a user has one row for a tier.
abbrev pub columns : Columns OverrideRow
columns = record { id_of = λ row. row.id; user_of = λ row. row.user_id; name_of = λ row. row.tier }

-- `_uto_to_response`, with times as numbers
unfoldable pub uto_to_response : OverrideRow → UserTierOverrideResponse
uto_to_response row = record {
  id = row.id;
  tier = row.tier;
  provider_order = row.provider_order;
  disabled_providers = row.disabled_providers;
  provider_models = row.provider_models;
  model_override = row.model_override;
  model_no_tools_override = row.model_no_tools_override;
  idle_timeout_sec = row.idle_timeout_sec;
  max_context_tokens = row.max_context_tokens;
  created_at = row.created_at;
  updated_at = row.updated_at;
}

-- The assignments of the request's fields.
abbrev pub assign : UserTierOverrideRequest → ℕ → OverrideRow → OverrideRow
assign body now row = record row {
  provider_order = body.provider_order;
  disabled_providers = body.disabled_providers;
  provider_models = body.provider_models;
  model_override = body.model_override;
  model_no_tools_override = body.model_no_tools_override;
  idle_timeout_sec = body.idle_timeout_sec;
  max_context_tokens = body.max_context_tokens;
  updated_at = now;
}

-- `UserTierOverride(user_id=user.id, tier=tier)`: the columns' defaults
abbrev pub fresh_row : String → ℕ → User → String → OverrideRow
fresh_row id now user tier = record {
  id = id;
  user_id = user.id;
  tier = tier;
  provider_order = none;
  disabled_providers = none;
  provider_models = none;
  model_override = none;
  model_no_tools_override = none;
  idle_timeout_sec = none;
  max_context_tokens = none;
  created_at = now;
  updated_at = now;
}

abbrev or_404 : Option OverrideRow → Result OverrideRow
or_404 none = err (http 404)
or_404 (some row) = ok row

-- The user's rows, which the route then orders by their tier.
unfoldable pub list_tier_overrides : User → List OverrideRow → List UserTierOverrideResponse
list_tier_overrides user rows =
    map uto_to_response (filter (λ (row : OverrideRow). str_eq row.user_id user.id) rows)

unfoldable pub get_tier_override :
    String → User → List OverrideRow → Result UserTierOverrideResponse
get_tier_override tier user rows = do
  found ← select_one columns user.id tier rows
  row ← or_404 found
  ok (uto_to_response row)

-- The row that is written, and the table with it.
abbrev pub written :
    String
    → ℕ
    → String
    → UserTierOverrideRequest
    → User
    → List OverrideRow
    → Option OverrideRow
    → UserTierOverrideResponse × List OverrideRow
written id now tier body user rows none =
    let row = assign body now (fresh_row id now user tier) in (uto_to_response row, row ∷ rows)
written id now tier body user rows (some row) =
    (uto_to_response (assign body now row), change_row columns row.id (assign body now) rows)

unfoldable pub upsert_tier_override :
    String
    → ℕ
    → String
    → UserTierOverrideRequest
    → User
    → List OverrideRow
    → Result (UserTierOverrideResponse × List OverrideRow)
upsert_tier_override id now tier body user rows = do
  found ← select_one columns user.id tier rows
  ok (written id now tier body user rows found)

unfoldable pub delete_tier_override : String → User → List OverrideRow → Result (List OverrideRow)
delete_tier_override tier user rows = do
  found ← select_one columns user.id tier rows
  row ← or_404 found
  ok (delete_row columns row.id rows)

-- What the chat route reads of a row.
abbrev pub read_by_chat : OverrideRow → UserTierOverride
read_by_chat row = record {
  provider_order = or_default row.provider_order [];
  disabled_providers = or_default row.disabled_providers [];
}

-- ===== src/Examples/Accounts.antt =====
-- New users and the usage statistics, at concrete tables.
use gpu_relay.Common.{
  str_eq, ◌≡◌, refl, ◌⊎◌, true, false, ◌&&◌, none, some, List, [], ◌∷◌, filter, find, length,
  prepend, ok, err, http, runtime_error,
}
use gpu_relay.Models.{User, Request, RequestStatus}
use gpu_relay.Auth.{Crypto, api_key, get_user, get_current_user}
use gpu_relay.Quota.Monthly.{spent_since}
use gpu_relay.Routes.Tables.{Keyed, has_id, owned}
use gpu_relay.Routes.Accounts.{
  CreateUserRequest, CreateUserResponse, Accounts, Services, Drawn, pos, stored_budget, user_role,
  db_billing_mode, new_quota, admin_create_user,
}
use gpu_relay.Routes.Accounts.Created.{
  EmailsApart, is_known, has_email, admin_create_user_lem, create-let_in,
}
use gpu_relay.Routes.Accounts.Usage.{UsagePeriod, since, thirty_days_ago, get_usage}
use gpu_relay.Routes.Accounts.Usage.Totals.{Ascending, sum_of, costs, get_usage_lem}
use gpu_relay.Examples.Data.{ann, spent_request}

abbrev crypto : Crypto
crypto = record {
  sha256_hex = prepend "sha:";
  decode_jwt = λ token. none;
  verify_password = λ password hash. str_eq password hash;
  encode_jwt = λ id. id;
}

abbrev no_services : Services
no_services = record {
  openwebui_admin_email = "";
  openwebui_admin_password = "";
  signin = none;
  add = λ email password token. none;
  loads = λ text. none;
  dumps = λ value. "";
  pipelines_api_key = "";
  valves = none;
  update = λ valves. none;
}

abbrev drawn : Drawn
drawn = record { user_id = "u9"; key_id = "k9"; secret = "fresh" }

abbrev creation : CreateUserRequest
creation = record {
  email = "bob@example.org";
  password = "pw";
  role = "user";
  billing_mode = "postpaid";
  budget_usd = pos 25_000_000;
  sync_openwebui = false;
  create_api_key = true;
}

abbrev accounts : Accounts
accounts = record { db = record { users = ann ∷ []; api_keys = [] }; quotas = [] }

admin_create_user_lem_example :
    ((u : User) × (find (has_email "bob@example.org") accounts.db.users ≡ some u)
      × (admin_create_user crypto (prepend "h:") no_services drawn creation accounts
          ≡ err (http 409)))
    ⊎ (((is_known (user_role "user") && is_known (db_billing_mode "postpaid")) ≡ false)
        × (admin_create_user crypto (prepend "h:") no_services drawn creation accounts
            ≡ err (http 400)))
    ⊎ ((is_known (stored_budget (pos 25_000_000)) ≡ false)
        × (admin_create_user crypto (prepend "h:") no_services drawn creation accounts
            ≡ err runtime_error))
    ⊎ ((response : CreateUserResponse) × (after : Accounts) × (u : User) × (admin_create_user crypto
            (prepend "h:")
            no_services
            drawn
            creation
            accounts
          ≡ ok (response, after))
        × (after.db.users ≡ u ∷ ann ∷ [])
        × (u.email ≡ "bob@example.org")
        × (stored_budget (pos 25_000_000) ≡ ok u.monthly_budget_usd)
        × (after.quotas ≡ new_quota u u.monthly_budget_usd ∷ [])
        × EmailsApart after.db.users)
admin_create_user_lem_example =
    admin_create_user_lem crypto (prepend "h:") no_services drawn creation accounts (tt, tt)

abbrev created : CreateUserResponse × Accounts
created = elim (admin_create_user crypto (prepend "h:") no_services drawn creation accounts) [
  | ok both ↦ both
  | err e ↦ (
    record {
      user_id = "";
      email = "";
      api_key = none;
      key_prefix = none;
      openwebui_synced = false;
      pipeline_synced = false;
    },
    accounts,
  )
]

creates : admin_create_user crypto (prepend "h:") no_services drawn creation accounts ≡ ok created
unfolding admin_create_user gpu_relay.Routes.Tables.scalar_one_or_none user_role db_billing_mode
    stored_budget
creates = refl

create-let_in_example :
    (u : User) × (get_user created.1.db.users created.0.user_id ≡ some u)
    × (u.email ≡ "bob@example.org")
    × ((get_current_user crypto 800 created.0.api_key created.1.db).0 ≡ ok (u, api_key))
create-let_in_example =
    create-let_in crypto (prepend "h:") no_services drawn creation accounts created.1 created.0 800
      refl creates

abbrev failed_request : Request
failed_request = record spent_request {
  cost_usd = 0;
  status = RequestStatus.error;
  created_at = 90_000;
}

abbrev booked : List Request
booked = failed_request ∷ spent_request ∷ []

-- One successful request on the first day, and one that failed on the second.
get_usage_lem_example :
    let usage = get_usage 100_000 400 ann booked in
    let recent = filter (since "ann" (thirty_days_ago 100_000)) booked in
    (usage.this_month.cost_usd ≡ spent_since "ann" 400 booked)
    × Ascending usage.last_30_days
    × (sum_of (λ p. p.total_requests) usage.last_30_days ≡ length recent)
    × (sum_of (λ p. p.cost_usd) usage.last_30_days ≡ costs recent)
get_usage_lem_example = get_usage_lem 100_000 400 ann booked ((λ e. refl), ((λ e. cc), tt))

two_days :
    (get_usage 100_000 400 ann booked).last_30_days
    ≡ record {
      period = 0;
      total_requests = 1;
      ok_requests = 1;
      prompt_tokens = 10;
      completion_tokens = 10;
      cost_usd = 2_000_000;
    }
      ∷ record {
        period = 1;
        total_requests = 1;
        ok_requests = 1;
        prompt_tokens = 10;
        completion_tokens = 10;
        cost_usd = 0;
      }
      ∷ []
unfolding get_usage gpu_relay.Routes.Accounts.Usage.daily
two_days = refl

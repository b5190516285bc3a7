-- ===== src/Clients/Sync.antt =====
-- bridge/openwebui_sync.py. `json.loads` and `json.dumps` are arguments, and so is what the two
-- services answer; `none` stands for a call that raises.
pub mod Synced
use gpu_relay.Common.{
  ℕ, String, str_eq, Bool, true, false, not, ◌&&◌, ◌||◌, ◌==◌, Option, none, some, List, [], ◌∷◌,
  map, codes, is_infix, to_lower, split_once, if◌then◌else◌,
}
use gpu_relay.Json.{Json, Items, Members, text, obj, end, get_member, set_member}
use gpu_relay.Workflow.Local.{is_falsy}
use gpu_relay.Bridge.Inference.{HttpResponse, is_success}

-- A response with its JSON, none where it has no JSON.
abbrev pub Reply : Type 0
Reply = HttpResponse × Option Json

abbrev pub member_of : String → Option Json → Option Json
member_of key (some (obj ms)) = get_member key ms
member_of key _ = none

-- `_ow_admin_token`
unfoldable pub ow_admin_token : Option Reply → Option Json
ow_admin_token none = none
ow_admin_token (some (r, json)) = if is_success r then member_of "token" json else none

-- `r.json().get("id", "")`
abbrev id_of : Option Json → Json
id_of (some (obj ms)) = elim (get_member "id" ms) [ none ↦ text "" | some id ↦ id ]
id_of _ = text ""

abbrev is_there_already : HttpResponse → Bool
is_there_already r =
    (r.status_code == 400 || r.status_code == 409)
    && is_infix (codes "already") (map to_lower (codes r.text))

abbrev added : Option Reply → Json
added none = text ""
added (some (r, json)) =
    if is_there_already r then text "" else if is_success r then id_of json else text ""

abbrev add_with : (Json → Option Reply) → Option Json → Json
add_with add none = text ""
add_with add (some token) = added (add token)

-- The administrator's sign-in, and the call that adds the user with the token.
unfoldable pub create_openwebui_user : String → String → Option Reply → (Json → Option Reply) → Json
create_openwebui_user admin_email admin_password signin add =
    if not (str_eq admin_email "") && not (str_eq admin_password "")
    then add_with add (ow_admin_token signin)
    else text ""

-- `valves.get("user_key_map") or "{}"`; anything but a text fails to parse.
abbrev pub map_text : Option Json → Option String
map_text none = some "{}"
map_text (some (text t)) = if str_eq t "" then some "{}" else some t
map_text (some j) = if is_falsy j then some "{}" else none

abbrev parsed : (String → Option Json) → Option String → Json
parsed parse none = obj end
parsed parse (some t) = elim (parse t) [ none ↦ obj end | some j ↦ j ]

-- `key_map[email] = api_key`, which raises unless the value is a dictionary
abbrev with_key : String → String → Json → Option Json
with_key email key (obj ms) = some (obj (set_member email (text key) ms))
with_key email key _ = none

abbrev post_map :
    (Json → String) → (Members → Option Reply) → Members → Option Json → Bool × Option Members
post_map dump post valves none = (false, none)
post_map dump post valves (some key_map) =
    let posted = set_member "user_key_map" (text (dump key_map)) valves in
    elim (post posted) [
      | none ↦ (false, some posted)
      | some (r, json) ↦ (is_success r, some posted)
    ]

abbrev with_valves :
    (String → Option Json)
    → (Json → String)
    → (Members → Option Reply)
    → String
    → String
    → Option Json
    → Bool × Option Members
with_valves parse dump post email key (some (obj valves)) =
    post_map dump post valves
      (with_key email key (parsed parse (map_text (get_member "user_key_map" valves))))
with_valves parse dump post email key _ = (false, none)

-- The answer, and the valves that the call has posted.
unfoldable pub update_pipeline_user_key_map :
    (String → Option Json)
    → (Json → String)
    → String
    → Option Reply
    → (Members → Option Reply)
    → String
    → String
    → Bool × Option Members
update_pipeline_user_key_map parse dump pipelines_api_key none post email key = (false, none)
update_pipeline_user_key_map parse dump pipelines_api_key (some (r, json)) post email key =
    if str_eq pipelines_api_key ""
    then (false, none)
    else if is_success r
    then with_valves parse dump post email key json
    else (false, none)

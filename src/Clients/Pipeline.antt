-- ===== src/Clients/Pipeline.antt =====
-- pipelines/gpu_relay_router.py. The library's `json.loads` is an argument, none where it raises,
-- and so is what the bridge answers.
use gpu_relay.Common.{
  ℕ, String, str_eq, Bool, true, false, Option, none, some, List, map, filter, startswith, prepend,
  take_chars, split_once, Result, err, ok, value_error, ◌>>=◌, if◌then◌else◌,
}
use gpu_relay.Json.{Json, Members, text, obj, end, get_member, set_member, pop_member}
use gpu_relay.Workflow.Local.{is_falsy}
use gpu_relay.Bridge.Inference.{HttpResponse, is_success}

pub record Valves : Type 0 where
  pub bridge_url : String
  pub admin_key : String
  pub user_key_map : String
  pub fallback_key : String

abbrev pub known : Option Json → Json
known none = obj end
known (some j) = j

-- `key_map.get(email)`, which only a dictionary has; AttributeError is a value error here.
abbrev pub get_key : String → Json → Result (Option Json)
get_key email (obj ms) = ok (get_member email ms)
get_key email _ = err value_error

-- `v or fallback_key or admin_key`
abbrev pub or_fallback : Valves → Option Json → Json
or_fallback v none = if str_eq v.fallback_key "" then text v.admin_key else text v.fallback_key
or_fallback v (some key) =
    if is_falsy key
    then (if str_eq v.fallback_key "" then text v.admin_key else text v.fallback_key)
    else key

-- The user's email, if there is a user with one.
abbrev pub email_of : Option String → String
email_of none = ""
email_of (some email) = email

-- `_resolve_key`
unfoldable pub resolve_key : (String → Option Json) → Valves → Option String → Result Json
resolve_key parse v user = do
  key ← get_key (email_of user) (known (parse v.user_key_map))
  ok (or_fallback v key)

abbrev behind_point : String → Option (String × String) → String
behind_point model none = model
behind_point model (some (front, rest)) = rest

abbrev pub stripped : Option Json → Result String
stripped none = ok ""
stripped (some (text model)) = ok (behind_point model (split_once b'.' model))
stripped (some _) = err value_error

-- `_strip_model`
unfoldable pub strip_model : Members → Result String
strip_model body = stripped (get_member "model" body)

-- What a call of `pipe` comes to.
pub data Piped : Type 0 where
  no_key : Piped
  bridge_error : ℕ → String → Piped
  answered : Json → Piped
  streamed : List String → Piped

abbrev truthy : Option Json → Bool
truthy none = false
truthy (some j) = if is_falsy j then false else true

-- The request's body without the user, for the model's name at the bridge.
unfoldable pub payload_of : String → Members → Members
payload_of model body = set_member "model" (text model) (pop_member "user" body)

-- The lines that `_stream` passes on.
unfoldable pub stream_lines : List String → List String
stream_lines lines = map (λ line. prepend line "\n\n") (filter (startswith "data: ") lines)

-- The bridge for a key and a payload: its response, the response's JSON, and its lines when it is
-- streamed.
pub record Bridge : Type 0 where
  pub post : Json → Members → Result HttpResponse
  pub json_of : HttpResponse → Result Json
  pub lines_of : HttpResponse → List String

abbrev errored : HttpResponse → Piped
errored r = bridge_error r.status_code (take_chars 500 r.text)

abbrev received : Bridge → Bool → HttpResponse → Result Piped
received b wants_stream r =
    if is_success r
    then if wants_stream
      then ok (streamed (stream_lines (b.lines_of r)))
      else (do j ← b.json_of r; ok (answered j))
    else ok (errored r)

abbrev send_with : Bridge → Members → Json → Result Piped
send_with b body key = do
  model ← strip_model body
  r ← b.post key (payload_of model body)
  received b (truthy (get_member "stream" body)) r

unfoldable pub pipe :
    (String → Option Json) → Bridge → Valves → Members → Option String → Result Piped
pipe parse b v body user = do
  key ← resolve_key parse v user
  elim (is_falsy key) [ true ↦ ok no_key | false ↦ send_with b body key ]

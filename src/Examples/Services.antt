-- ===== src/Examples/Services.antt =====
-- The pipeline, its synchronisation and the gateway, at concrete messages.
use gpu_relay.Common.{
  ℕ, String, str_eq, ◌≡◌, refl, true, false, Option, none, some, [], ◌∷◌, lookup, ok, if◌then◌else◌,
}
use gpu_relay.Json.{Json, Members, text, obj, end, member, get_member}
use gpu_relay.Bridge.Inference.{HttpResponse}
use gpu_relay.Clients.Pipeline.{Valves, resolve_key}
use gpu_relay.Clients.Sync.{Reply, update_pipeline_user_key_map}
use gpu_relay.Clients.Sync.Synced.{resolve-update_pipeline_user_key_map}
use gpu_relay.Clients.Gateway.{is_hop_by_hop, Received, Upstream, Response, upstream_request, proxy}
use gpu_relay.Clients.Gateway.Forwarded.{last_of, proxy_lem}

abbrev response : ℕ → HttpResponse
response code = record { status_code = code; text = "" }

abbrev get : Received
get = record {
  method = "GET";
  path = "v1/models";
  query = "";
  headers = ("authorization", "Bearer sk-llm-a") ∷ ("Connection", "close") ∷ [];
  body = [];
}

abbrev bridge : Upstream → Response
bridge asked = record {
  status_code = 200;
  headers = ("content-type", "application/json") ∷ ("content-length", "2") ∷ [];
  content = b'{' ∷ b'}' ∷ [];
}

proxy_lem_example :
    let asked = upstream_request "http://bridge" "bridge" get in
    let answer = proxy "http://bridge" "bridge" bridge get in
    (asked.method ≡ "GET")
    × (asked.content ≡ [])
    × ((k : String)
        → lookup k asked.headers ≡ (
            if str_eq "host" k
            then some "bridge"
            else if is_hop_by_hop k
            then none
            else last_of k get.headers))
    × (answer.status_code ≡ 200)
    × (answer.content ≡ b'{' ∷ b'}' ∷ [])
    × ((k : String)
        → lookup k answer.headers
          ≡ (if is_hop_by_hop k then none else last_of k (bridge asked).headers))
proxy_lem_example = proxy_lem "http://bridge" "bridge" bridge get

abbrev old_map : Members
old_map = member "ann@example.org" (text "sk-llm-a") end

abbrev new_map : Members
new_map =
    member "ann@example.org" (text "sk-llm-a") (member "bob@example.org" (text "sk-llm-b") end)

-- A library that knows the two maps.
abbrev loads : String → Option Json
loads t = if str_eq t "old" then some (obj old_map) else some (obj new_map)

abbrev dumps : Json → String
dumps j = "new"

abbrev valves : Valves
valves = record {
  bridge_url = "http://bridge";
  admin_key = "sk-llm-admin";
  user_key_map = "old";
  fallback_key = "";
}

abbrev stored : Members
stored = member "user_key_map" (text "old") end

abbrev posted : Members
posted = member "user_key_map" (text "new") end

abbrev post : Members → Option Reply
post ms = some (response 200, none)

synced :
    update_pipeline_user_key_map loads dumps "pipe-key"
      (some (response 200, some (obj stored)))
      post
      "bob@example.org"
      "sk-llm-b"
    ≡ (true, some posted)
unfolding update_pipeline_user_key_map get_member gpu_relay.Json.set_member
synced = refl

resolve-update_pipeline_user_key_map_example :
    (t : String) × (get_member "user_key_map" posted ≡ some (text t))
    × (resolve_key loads (record valves { user_key_map = t }) (some "bob@example.org")
        ≡ ok (text "sk-llm-b"))
    × ((other : String)
        → str_eq "bob@example.org" other ≡ false
        → resolve_key loads (record valves { user_key_map = t }) (some other)
          ≡ resolve_key loads valves (some other))
unfolding gpu_relay.Json.get_member gpu_relay.Json.set_member
resolve-update_pipeline_user_key_map_example =
    resolve-update_pipeline_user_key_map loads dumps post "pipe-key" "bob@example.org" "sk-llm-b"
      (response 200) stored posted old_map valves refl refl refl refl refl synced

-- ===== src/Clients/Sync/Synced.antt =====
-- The key that the bridge synchronises is the one that the pipeline uses.
use gpu_relay.Common.{
  String, str_eq, eq_iff, eq_refl, ◌≡◌, refl, sym, subst, ◌∙◌, true, false, Option, some, inl, inr,
  Bool-cases, Option-cases, ok, arith, if◌then◌else◌,
}
use gpu_relay.Json.{Json, Members, text, obj, end, member, get_member, set_member}
use gpu_relay.Workflow.Local.{is_falsy}
use gpu_relay.Bridge.Inference.{HttpResponse, is_success}
use gpu_relay.Clients.Pipeline.{Valves, resolve_key, or_fallback}
use gpu_relay.Clients.Sync.{Reply, update_pipeline_user_key_map}

get-set_member :
    (key wanted : String) (v : Json) (ms : Members)
    → get_member wanted (set_member key v ms)
      ≡ (if str_eq key wanted then some v else get_member wanted ms)
unfolding get_member set_member
get-set_member key wanted v end = refl
get-set_member key wanted v (member k old ms) =
    ground (arith, get-set_member key wanted v ms, eq_iff k wanted, eq_iff k key, eq_iff key wanted)

resolve-known :
    (parse : String → Option Json) (v : Valves) (t wanted : String) (ms : Members)
    → parse t ≡ some (obj ms)
    → resolve_key parse (record v { user_key_map = t }) (some wanted)
      ≡ ok (or_fallback v (get_member wanted ms))
unfolding resolve_key
resolve-known parse v t wanted ms e = rw (e, resolve_key) refl

-- The valves that a call with a readable map posts.
posts :
    (parse : String → Option Json) (dump : Json → String) (post : Members → Option Reply)
    (api_key email key t : String) (r : HttpResponse) (valves posted ms : Members)
    → get_member "user_key_map" valves ≡ some (text t)
    → str_eq t "" ≡ false
    → parse t ≡ some (obj ms)
    → update_pipeline_user_key_map parse dump api_key (some (r, some (obj valves))) post email key
      ≡ (true, some posted)
    → set_member "user_key_map" (text (dump (obj (set_member email (text key) ms)))) valves ≡ posted
unfolding update_pipeline_user_key_map
posts parse dump post api_key email key t r valves posted ms here full reads e =
    elim (Bool-cases (str_eq api_key "")) [
      | inl empty ↦ cc (rw (empty, update_pipeline_user_key_map) at e)
      | inr used ↦ elim (Bool-cases (is_success r)) [
        | inr failed ↦ cc (rw (used, failed, update_pipeline_user_key_map) at e)
        | inl fetched ↦
            elim (Option-cases (
              post (
                set_member "user_key_map" (text (dump (obj (set_member email (text key) ms))))
                  valves))) [
                    | inl raised ↦ cc (
                        rw (used, fetched, here, full, reads, raised, update_pipeline_user_key_map)
                          at e)
                    | inr (reply, answered) ↦ cc (
                        rw
                          (used, fetched, here, full, reads, answered, update_pipeline_user_key_map)
                          at e)
                  ]
      ]
    ]

-- A successful synchronisation posts a key map with which the pipeline sends that user's chats under
-- the new key, and every other user's under the key that it used before: for a key that is not
-- empty, a stored map that is not empty and that the pipeline can read, and a library that reads
-- back the map that it writes.
pub resolve-update_pipeline_user_key_map :
    (parse : String → Option Json) (dump : Json → String) (post : Members → Option Reply)
    (api_key email key : String) (r : HttpResponse) (valves posted ms : Members) (v : Valves)
    → parse (dump (obj (set_member email (text key) ms)))
      ≡ some (obj (set_member email (text key) ms))
    → get_member "user_key_map" valves ≡ some (text v.user_key_map)
    → str_eq v.user_key_map "" ≡ false
    → parse v.user_key_map ≡ some (obj ms)
    → str_eq key "" ≡ false
    → update_pipeline_user_key_map parse dump api_key (some (r, some (obj valves))) post email key
      ≡ (true, some posted)
    → (t : String) × (get_member "user_key_map" posted ≡ some (text t))
      × (resolve_key parse (record v { user_key_map = t }) (some email) ≡ ok (text key))
      × ((other : String)
          → str_eq email other ≡ false
          → resolve_key parse (record v { user_key_map = t }) (some other)
            ≡ resolve_key parse v (some other))
unfolding update_pipeline_user_key_map is_falsy
resolve-update_pipeline_user_key_map parse dump post api_key email key r valves posted ms v back
      here full reads ne e =
    let t = dump (obj (set_member email (text key) ms)) in
    let sent =
      posts parse dump post api_key email key v.user_key_map r valves posted ms here full reads e in
    (
      t,
      subst (λ p. get_member "user_key_map" p ≡ some (text t)) sent
          (get-set_member "user_key_map" "user_key_map" (text t) valves),
      resolve-known parse v t email (set_member email (text key) ms) back
          ∙ rw (get-set_member email email (text key) ms, eq_refl email, is_falsy, ne) refl,
      λ other differ.
          resolve-known parse v t other (set_member email (text key) ms) back
          ∙ rw (get-set_member email other (text key) ms, differ) refl
          ∙ sym (resolve-known parse v v.user_key_map other ms reads),
    )

-- ===== src/Providers/Runpod/Pods.antt =====
-- providers/runpod.py: the errors of its GraphQL API, and the termination, the status and the offers.
-- What the API answers is an argument.
use gpu_relay.Common.{
  ℕ, zero, suc, String, str_eq, Bool, true, false, not, ◌&&◌, ◌||◌, Option, none, some, List, [],
  ◌∷◌, any, codes, contains, map, to_lower, is_infix, join, prepend, take_chars, Dict, lookup,
  or_default, leb, ltb, ◌==◌, if◌then◌else◌,
}
use gpu_relay.Gpu.{GpuOffer}
use gpu_relay.Providers.{StatusInfo}

-- `p in s.lower()`
abbrev pub mentions : String → String → Bool
mentions p s = is_infix (codes p) (map to_lower (codes s))

-- A ProviderError, or another exception: its text, and whether it may be retried.
pub record GqlError : Type 0 where
  pub message : String
  pub retryable : Bool

-- What came back: an exception of the transport; an HTTP error with its number, the messages of the
-- body where it can be read, and the text; or a body, with the errors that it lists, if it does.
pub data Reply {ℓ} (A : Type ℓ) : Type ℓ where
  broken : String → Reply A
  http_error : ℕ → String → Option (List String) → String → Reply A
  body : Option (List String) → A → Reply A

pub data Outcome {ℓ} (A : Type ℓ) : Type ℓ where
  raised : GqlError → Outcome A
  returned : A → Outcome A

-- `list(dict.fromkeys(msgs))`: the first of equal texts stays.
unfoldable pub unique_from : List String → List String → List String
unique_from seen [] = []
unique_from seen (m ∷ ms) =
    let rest = unique_from (m ∷ seen) ms in
    let same = unique_from seen ms in if contains m seen then same else m ∷ rest

abbrev pub detail_of : Option (List String) → String → String
detail_of none text = take_chars 200 text
detail_of (some messages) text =
    let joined = join "; " messages in if str_eq joined "" then take_chars 200 text else joined

unfoldable pub is_transient : String → Bool
is_transient m = mentions "try again" m || mentions "something went wrong" m

abbrev pub gql_error : List String → GqlError
gql_error messages =
    let unique = unique_from [] messages in
    record {
      message = prepend "RunPod GQL error: " (join "; " unique);
      retryable = any is_transient unique;
    }

-- `_gql`; the number of an HTTP error comes with its digits.
unfoldable pub gql {ℓ} : {A : Type ℓ} → Reply A → Outcome A
gql (broken message) = raised (record { message = message; retryable = true })
gql (http_error code digits messages text) = raised (record {
  message = join "" ("RunPod API HTTP " ∷ digits ∷ ": " ∷ detail_of messages text ∷ []);
  retryable = leb 500 code;
})
gql (body (some errors) a) = raised (gql_error errors)
gql (body none a) = returned a

-- How a termination ends.
pub data Ended : Type 0 where
  deleted already_gone given_up : Ended

-- What follows a call: the state that it leaves, and the rounds behind it.
abbrev pub by_outcome {ℓ} : {S : Type ℓ} → Outcome (Unit {0}) → S → Ended × S → Ended × S
by_outcome (returned a) s again = (deleted, s)
by_outcome (raised e) s again = if mentions "not found" e.message then (already_gone, s) else again

abbrev pub after_call {ℓ} : {S : Type ℓ} → (S → Ended × S) → Reply (Unit {0}) × S → Ended × S
after_call again (reply, s) = by_outcome (gql reply) s (again s)

-- The rounds of `terminate`, and what the calls leave of the API's state.
unfoldable pub terminate_rounds {ℓ} : {S : Type ℓ} → (S → Reply (Unit {0}) × S) → ℕ → S → Ended × S
terminate_rounds call zero s = (given_up, s)
terminate_rounds call (suc left) s = after_call (λ s'. terminate_rounds call left s') (call s)

-- `terminate`: three rounds. The key of a call is the adapter's own, whatever key launched the pod.
unfoldable pub terminate {ℓ} :
    {S : Type ℓ}
    → ((api_key external_id : String) → S → Reply (Unit {0}) × S)
    → (own_key external_id : String) → S
    → Ended × S
terminate mutation own_key external_id s = terminate_rounds (mutation own_key external_id) 3 s

-- A port of a running pod; the numbers that go into a URL come as digits.
pub record Port : Type 0 where
  pub private_port : ℕ
  pub is_ip_public : Bool
  pub ip : String
  pub public_port : Option String

-- The pod that a query gives.
pub record PodData : Type 0 where
  pub id : String
  pub desired_status : String
  pub ports : List Port
  pub env : Dict String
  pub gpu_display_name : String
  pub cost_per_hr : Option ℕ

abbrev pub ollama_port : ℕ
ollama_port = 11434

abbrev pub proxy_url : String → String
proxy_url id = join "" ("https://" ∷ id ∷ "-11434.proxy.runpod.net" ∷ [])

unfoldable pub port_url : List Port → Option String
port_url [] = none
port_url (p ∷ ps) =
    let rest = port_url ps in
    if p.private_port == ollama_port && p.is_ip_public && not (str_eq p.ip "")
    then some (join "" ("http://" ∷ p.ip ∷ ":" ∷ or_default p.public_port "11434" ∷ []))
    else rest

-- `_extract_endpoint`
unfoldable pub extract_endpoint : PodData → String
extract_endpoint pod =
    or_default (port_url pod.ports) (if str_eq pod.id "" then "" else proxy_url pod.id)

abbrev pub status_map : Dict String
status_map = ("RUNNING", "ready") ∷ ("EXITED", "terminated") ∷ ("FAILED", "failed") ∷ []

abbrev pub status_of : String → PodData → StatusInfo
status_of external_id pod = record {
  external_id = external_id;
  gpu = pod.gpu_display_name;
  model = or_default (lookup "OLLAMA_MODEL" pod.env) "";
  cost_per_hour_usd = or_default pod.cost_per_hr 0;
  status = or_default (lookup pod.desired_status status_map) "starting";
  endpoint_url = extract_endpoint pod;
}

abbrev pub of_pod : String → Outcome (Option PodData) → Outcome StatusInfo
of_pod external_id (raised e) = raised e
of_pod external_id (returned none) = raised (record {
  message = join "" ("RunPod pod " ∷ external_id ∷ " not found" ∷ []);
  retryable = false;
})
of_pod external_id (returned (some pod)) = returned (status_of external_id pod)

-- `get_status`, for what the query came back with.
unfoldable pub get_status : String → Reply (Option PodData) → Outcome StatusInfo
get_status external_id reply = of_pod external_id (gql reply)

abbrev pub or_poll : Outcome StatusInfo → String → String
or_poll (raised e) rest = rest
or_poll (returned info) rest = if str_eq info.endpoint_url "" then rest else info.endpoint_url

-- `_wait_for_endpoint`: one query for each five seconds until the deadline.
unfoldable pub wait_for_endpoint : String → List (Reply (Option PodData)) → String
wait_for_endpoint external_id [] = proxy_url external_id
wait_for_endpoint external_id (reply ∷ replies) =
    or_poll (get_status external_id reply) (wait_for_endpoint external_id replies)

-- A GPU type of the API, with its prices where it has them.
pub record GpuType : Type 0 where
  pub id : String
  pub display_name : Option String
  pub memory_in_gb : ℕ
  pub secure_price : Option ℕ
  pub community_price : Option ℕ

-- `a or b or 0`
abbrev pub price_of : Option ℕ → Option ℕ → ℕ
price_of none b = or_default b 0
price_of (some zero) b = or_default b 0
price_of (some (suc a)) b = suc a

abbrev pub offer_of : GpuType → GpuOffer
offer_of g =
    let price = price_of g.secure_price g.community_price in
    record {
      provider = "runpod";
      gpu = or_default g.display_name g.id;
      vram_gb = g.memory_in_gb;
      cost_per_hour_usd = price;
      available = ltb 0 price;
      gpu_type_id = g.id;
    }

abbrev pub listed_offers : Outcome (List GpuType) → Outcome (List GpuOffer)
listed_offers (raised e) = raised e
listed_offers (returned types) = returned (map offer_of types)

-- `list_gpus`
unfoldable pub list_gpus : Reply (List GpuType) → Outcome (List GpuOffer)
list_gpus reply = listed_offers (gql reply)

-- ===== src/Clients/Gateway.antt =====
-- gateway/main.py. Headers are the pairs that the libraries list: those of a request in the order of
-- the message, a name perhaps more than once; those of a response with their names in lower case and
-- the values of one name joined by the HTTP client. A body is its bytes.
pub mod Forwarded
use gpu_relay.Common.{
  same_codes, ℕ, String, Bool, true, false, not, ◌||◌, ◌&&◌, ◌==◌, Option, none, some, List, [],
  ◌∷◌, map, filter, any, codes, is_infix, to_lower, prepend, lookup, insert, Dict, or_default,
  if◌then◌else◌, str_eq,
}

abbrev pub hop_by_hop : List String
hop_by_hop =
    "connection" ∷ "keep-alive" ∷ "proxy-authenticate" ∷ "proxy-authorization" ∷ "te" ∷ "trailers"
    ∷ "transfer-encoding" ∷ "upgrade" ∷ "content-encoding" ∷ "content-length" ∷ []

-- `k.lower() in _HOP_BY_HOP`
unfoldable pub is_hop_by_hop : String → Bool
is_hop_by_hop k = any (λ name. same_codes (map to_lower (codes k)) (codes name)) hop_by_hop

-- A comprehension of a dictionary: the last of the entries with a key counts.
unfoldable pub dict_of : Dict String → List (String × String) → Dict String
dict_of d [] = d
dict_of d ((k, v) ∷ headers) = dict_of (insert k v d) headers

unfoldable pub end_to_end : List (String × String) → Dict String
end_to_end headers = dict_of [] (filter (λ h. not (is_hop_by_hop h.0)) headers)

pub record Received : Type 0 where
  pub method : String
  pub path : String
  pub query : String
  pub headers : List (String × String)
  pub body : List ℕ

pub record Upstream : Type 0 where
  pub method : String
  pub url : String
  pub headers : Dict String
  pub content : List ℕ

-- The response of the bridge, and what the gateway answers.
pub record Response : Type 0 where
  pub status_code : ℕ
  pub headers : List (String × String)
  pub content : List ℕ

pub record Passed : Type 0 where
  pub is_stream : Bool
  pub status_code : ℕ
  pub headers : Dict String
  pub content : List ℕ
  pub media_type : Option String

abbrev target_url : String → Received → String
target_url bridge_url r =
    let url = prepend bridge_url (prepend "/" r.path) in
    if str_eq r.query "" then url else prepend url (prepend "?" r.query)

unfoldable pub upstream_request : String → String → Received → Upstream
upstream_request bridge_url bridge_host r = record {
  method = r.method;
  url = target_url bridge_url r;
  headers = insert "host" bridge_host (end_to_end r.headers);
  content = r.body;
}

-- The headers of a request have their names in lower case.
unfoldable pub wants_stream : Received → Bool
wants_stream r =
    is_infix (codes "text/event-stream") (codes (or_default (lookup "accept" r.headers) ""))
    || is_infix (codes "\"stream\":true") r.body

unfoldable pub passed : Bool → Response → Passed
passed stream r =
    let content_type = lookup "content-type" r.headers in
    record {
      is_stream = stream;
      status_code = r.status_code;
      headers = end_to_end r.headers;
      content = r.content;
      media_type =
          if stream then some (or_default content_type "text/event-stream") else content_type;
    }

unfoldable pub proxy : String → String → (Upstream → Response) → Received → Passed
proxy bridge_url bridge_host send r =
    passed (wants_stream r) (send (upstream_request bridge_url bridge_host r))

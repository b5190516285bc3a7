-- ===== src/Clients/Gateway/Forwarded.antt =====
-- What the gateway passes on of a message's headers.
use gpu_relay.Common.{
  String, str_eq, eq_iff, ◌≡◌, refl, sym, ◌∙◌, true, false, not, none, some, List, [], ◌∷◌, filter,
  lookup, insert, lookup-insert, Dict, Option, Bool, ap, Bool-cases, inl, inr, if◌then◌else◌, arith,
}
use gpu_relay.Clients.Gateway.{
  is_hop_by_hop, dict_of, end_to_end, Received, Response, upstream_request, proxy, passed,
}

lookup-dropped :
    (k : String) (headers : List (String × String)) (d : Dict String)
    → is_hop_by_hop k ≡ true
    → lookup k (dict_of d (filter (λ h. not (is_hop_by_hop h.0)) headers)) ≡ lookup k d
unfolding dict_of
lookup-dropped k [] d hop = refl
lookup-dropped k ((name, v) ∷ headers) d hop = elim (Bool-cases (is_hop_by_hop name)) [
  | inl y ↦ rw y (lookup-dropped k headers d hop)
  | inr n ↦
      let differ : str_eq name k ≡ false = ground (arith, hop, n, eq_iff name k) in
      rw n
        (lookup-dropped k headers (insert name v d) hop ∙ lookup-insert name k v d ∙ rw differ refl)
]

lookup-kept :
    (k : String) (headers : List (String × String)) (d d' : Dict String)
    → is_hop_by_hop k ≡ false
    → lookup k d ≡ lookup k d'
    → lookup k (dict_of d (filter (λ h. not (is_hop_by_hop h.0)) headers))
      ≡ lookup k (dict_of d' headers)
unfolding dict_of
lookup-kept k [] d d' keep same = same
lookup-kept k ((name, v) ∷ headers) d d' keep same = elim (Bool-cases (is_hop_by_hop name)) [
  | inl y ↦
      let differ : str_eq name k ≡ false = ground (arith, keep, y, eq_iff name k) in
      rw y (
        lookup-kept k headers d (insert name v d') keep
          (same ∙ sym (lookup-insert name k v d' ∙ rw differ refl)))
  | inr n ↦ rw n (
      lookup-kept k headers (insert name v d) (insert name v d') keep
        (lookup-insert name k v d ∙ rw same refl ∙ sym (lookup-insert name k v d')))
]

end_to_end_lem :
    (k : String) (headers : List (String × String))
    → lookup k (end_to_end headers)
      ≡ (if is_hop_by_hop k then none else lookup k (dict_of [] headers))
unfolding end_to_end lookup
end_to_end_lem k headers = elim (Bool-cases (is_hop_by_hop k)) [
  | inl y ↦ rw y (lookup-dropped k headers [] y)
  | inr n ↦ rw n (lookup-kept k headers [] [] n refl)
]

-- The value of the last header with a name.
abbrev pub last_of : String → List (String × String) → Option String
last_of k [] = none
last_of k ((name, v) ∷ headers) = elim (last_of k headers) [
  | some w ↦ some w
  | none ↦ if str_eq name k then some v else none
]

abbrev or_before : Option String → Option String → Option String
or_before (some w) before = some w
or_before none before = before

before-insert :
    (last : Option String) (b : Bool) (v : String) (before : Option String)
    → or_before last (if b then some v else before)
      ≡ or_before (elim last [ some w ↦ some w | none ↦ if b then some v else none ]) before
before-insert (some w) b v before = refl
before-insert none true v before = refl
before-insert none false v before = refl

lookup-dict_of :
    (k : String) (headers : List (String × String)) (d : Dict String)
    → lookup k (dict_of d headers) ≡ or_before (last_of k headers) (lookup k d)
unfolding dict_of
lookup-dict_of k [] d = refl
lookup-dict_of k ((name, v) ∷ headers) d =
    lookup-dict_of k headers (insert name v d)
    ∙ ap (or_before (last_of k headers)) (lookup-insert name k v d)
    ∙ before-insert (last_of k headers) (str_eq name k) v (lookup k d)

before-none : (o : Option String) → or_before o none ≡ o
before-none none = refl
before-none (some w) = refl

end_to_end-last_of :
    (k : String) (headers : List (String × String))
    → lookup k (end_to_end headers) ≡ (if is_hop_by_hop k then none else last_of k headers)
unfolding lookup
end_to_end-last_of k headers =
    end_to_end_lem k headers
    ∙ ap (λ o. if is_hop_by_hop k then none else o)
        (lookup-dict_of k headers [] ∙ before-none (last_of k headers))

-- The gateway sends the method and the body of a request as they came, and of each header, the
-- authorization among them, the last value that the request has; but for the host, which is the
-- bridge's, and the headers of the connection, which it drops. The answer has the status and the
-- content of the bridge's response, and of each header but those the last value that the HTTP client
-- lists.
pub proxy_lem :
    (url host : String) (send : gpu_relay.Clients.Gateway.Upstream → Response) (r : Received)
    → let asked = upstream_request url host r in
      let response = send asked in
      let answer = proxy url host send r in
      (asked.method ≡ r.method)
      × (asked.content ≡ r.body)
      × ((k : String)
          → lookup k asked.headers ≡ (
              if str_eq "host" k
              then some host
              else if is_hop_by_hop k
              then none
              else last_of k r.headers))
      × (answer.status_code ≡ response.status_code)
      × (answer.content ≡ response.content)
      × ((k : String)
          → lookup k answer.headers
            ≡ (if is_hop_by_hop k then none else last_of k response.headers))
unfolding upstream_request proxy passed
proxy_lem url host send r = (
  refl,
  refl,
  λ k.
      lookup-insert "host" k host (end_to_end r.headers)
      ∙ ap (λ o. if str_eq "host" k then some host else o) (end_to_end-last_of k r.headers),
  refl,
  refl,
  λ k. end_to_end-last_of k (send (upstream_request url host r)).headers,
)

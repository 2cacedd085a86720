-- ===== src/Model/Json/RoundTrip/Endpoints.antt =====
-- The endpoints of a span in its JSON form.
use zipkin_go.Base.{
  ℕ, ◌≡◌, refl, arith, false, inl, inr, Option, none, some, List, [], ◌∷◌, ◌++◌, Str, length,
  length-append, ◌==◌, Bool-cases, Error, ok,
}
use zipkin_go.Model.LowerCase.{LowerCase, lower_case, lower_case-empty}
use zipkin_go.Model.Spans.{Endpoint, endpoint_empty}
use zipkin_go.Model.Json.{JsonEndpoint, JsonField, local_endpoint_field, remote_endpoint_field}
use zipkin_go.Model.Json.Encode.{
  marshal_endpoint, marshal_endpoint_field, non_empty, non_zero, ipv4_prefix,
}
use zipkin_go.Model.Json.Decode.{
  Reading, no_endpoint, read_endpoint, endpoint_saved, read_field, read_fields, drop_empty, or_old,
}
use zipkin_go.Model.Json.RoundTrip.Values.{IsJsonEndpoint, json_ip, json_endpoint, marshal_ip_lem}

-- An endpoint that is not empty.
abbrev full_endpoint : LowerCase → Endpoint → Endpoint
full_endpoint l e = record {
  service_name = lower_case l e.service_name;
  ipv4 = json_ip e.ipv4;
  ipv6 = json_ip e.ipv6;
  port = e.port;
}

or_old-non_empty : (s : Str) → or_old (non_empty s) [] ≡ s
or_old-non_empty [] = refl
or_old-non_empty (c ∷ s) = refl

endpoint_back :
    (l : LowerCase) (address_error type_error : Error) (e : Endpoint)
    → IsJsonEndpoint (some e)
    → (j : JsonEndpoint) × (marshal_endpoint l address_error e ≡ ok j)
      × (read_endpoint j no_endpoint ≡ full_endpoint l e)
      × ((saved : Option Error) → endpoint_saved type_error j saved ≡ saved)
unfolding marshal_endpoint
endpoint_back l address_error type_error e (four, six, small) =
    let (o4, w4, r4) = marshal_ip_lem address_error e.ipv4 four in
    let (o6, w6, r6) = marshal_ip_lem address_error e.ipv6 six in
    (
      record {
        service_name = non_empty (lower_case l e.service_name);
        ipv4 = o4;
        ipv6 = o6;
        port = non_zero e.port;
      },
      rw (w4, w6) refl,
      rw (or_old-non_empty (lower_case l e.service_name), r4, r6) (ground arith),
      λ saved. ground arith,
    )

json_ip-empty : (ip : List ℕ) → (length (json_ip ip) == 0) ≡ (length ip == 0)
json_ip-empty ip = ground (arith, length-append ipv4_prefix ip)

full_endpoint-not_empty :
    (l : LowerCase) (e : Endpoint)
    → endpoint_empty (some e) ≡ false
    → endpoint_empty (some (full_endpoint l e)) ≡ false
unfolding endpoint_empty
full_endpoint-not_empty l e full =
    rw (lower_case-empty l e.service_name, json_ip-empty e.ipv4, json_ip-empty e.ipv6) full

pub drop_empty-json_endpoint :
    (l : LowerCase) (o : Option Endpoint) → drop_empty (json_endpoint l o) ≡ json_endpoint l o
unfolding endpoint_empty
drop_empty-json_endpoint l none = ground arith
drop_empty-json_endpoint l (some e) = elim (Bool-cases (endpoint_empty (some e))) [
  | inl empty ↦ rw empty refl
  | inr full ↦ rw (full, full_endpoint-not_empty l e full) refl
]

abbrev pub with_local : Reading → Option Endpoint → Reading
with_local r o = record r { span = record r.span { local_endpoint = o } }

abbrev pub with_remote : Reading → Option Endpoint → Reading
with_remote r o = record r { span = record r.span { remote_endpoint = o } }

module _ (l : LowerCase) (address_error type_error : Error) where
  -- The endpoint is written, or left out where it is empty, and read back into a nil pointer.
  pub local_endpoint_back :
      (o : Option Endpoint)
      → IsJsonEndpoint o
      → (fields : List JsonField) × (marshal_endpoint_field l address_error local_endpoint_field o
          ≡ ok fields)
        × ((rest : List JsonField) (r : Reading)
            → r.span.local_endpoint ≡ none
            → read_fields type_error (fields ++ rest) r
              ≡ read_fields type_error rest (with_local r (json_endpoint l o)))
  unfolding marshal_endpoint_field read_fields read_field
  local_endpoint_back none h = ([], refl, λ rest r z. rw (← z) refl)
  local_endpoint_back (some e) h = elim (Bool-cases (endpoint_empty (some e))) [
    | inl empty ↦ ([], rw empty refl, λ rest r z. rw (empty, ← z) refl)
    | inr full ↦
        (let (j, writes, reads, saves) = endpoint_back l address_error type_error e h in
          (
            local_endpoint_field j ∷ [],
            rw (full, writes) refl,
            λ rest r z. rw (full, z, reads, saves r.saved) refl,
          ))
  ]

  pub remote_endpoint_back :
      (o : Option Endpoint)
      → IsJsonEndpoint o
      → (fields : List JsonField) × (marshal_endpoint_field l address_error remote_endpoint_field o
          ≡ ok fields)
        × ((rest : List JsonField) (r : Reading)
            → r.span.remote_endpoint ≡ none
            → read_fields type_error (fields ++ rest) r
              ≡ read_fields type_error rest (with_remote r (json_endpoint l o)))
  unfolding marshal_endpoint_field read_fields read_field
  remote_endpoint_back none h = ([], refl, λ rest r z. rw (← z) refl)
  remote_endpoint_back (some e) h = elim (Bool-cases (endpoint_empty (some e))) [
    | inl empty ↦ ([], rw empty refl, λ rest r z. rw (empty, ← z) refl)
    | inr full ↦
        (let (j, writes, reads, saves) = endpoint_back l address_error type_error e h in
          (
            remote_endpoint_field j ∷ [],
            rw (full, writes) refl,
            λ rest r z. rw (full, z, reads, saves r.saved) refl,
          ))
  ]

-- ===== src/Endpoints/Tests.antt =====
-- Addresses at which the theorems on endpoints are applied, and texts that are refused.
use zipkin_go.Base.{
  ℕ, ◌≡◌, refl, arith, none, some, List, [], ◌∷◌, Str, codes, Error, Outcome, ok, err, num_range,
}
use zipkin_go.Strconv.{format_uint}
use zipkin_go.Model.Spans.{Endpoint}
use zipkin_go.Endpoints.{addr_error, split_host_port, parse_port, new_endpoint}
use zipkin_go.Endpoints.Addresses.{first_four, first_six, Fits, new_endpoint-Fits}
use zipkin_go.Endpoints.Laws.{join_host_port, new_endpoint-join_host_port}

abbrev no_text : Error → Str
no_text e = []

abbrev loopback : List (List ℕ)
loopback =
    (0 ∷ 0 ∷ 0 ∷ 0 ∷ 0 ∷ 0 ∷ 0 ∷ 0 ∷ 0 ∷ 0 ∷ 0 ∷ 0 ∷ 0 ∷ 0 ∷ 0 ∷ 1 ∷ [])
    ∷ (0 ∷ 0 ∷ 0 ∷ 0 ∷ 0 ∷ 0 ∷ 0 ∷ 0 ∷ 0 ∷ 0 ∷ 255 ∷ 255 ∷ 127 ∷ 0 ∷ 0 ∷ 1 ∷ [])
    ∷ (10 ∷ 0 ∷ 0 ∷ 1 ∷ [])
    ∷ []

abbrev lookup_ip : Str → Outcome (List (List ℕ))
lookup_ip host = ok loopback

abbrev local_endpoint : Endpoint
local_endpoint = record {
  service_name = codes "svc";
  ipv4 = 127 ∷ 0 ∷ 0 ∷ 1 ∷ [];
  ipv6 = 0 ∷ 0 ∷ 0 ∷ 0 ∷ 0 ∷ 0 ∷ 0 ∷ 0 ∷ 0 ∷ 0 ∷ 0 ∷ 0 ∷ 0 ∷ 0 ∷ 0 ∷ 1 ∷ [];
  port = 9411;
}

looks_up :
    new_endpoint no_text lookup_ip (codes "svc") (codes "localhost:9411") ≡ ok (some local_endpoint)
unfolding new_endpoint
looks_up = refl

no_port : new_endpoint no_text lookup_ip [] (codes ":0") ≡ ok none
unfolding new_endpoint
no_port = refl

too_many_colons :
    split_host_port (codes "::1")
    ≡ err (addr_error (codes "::1") (codes "too many colons in address"))
unfolding split_host_port
too_many_colons = refl

too_great : parse_port (codes "65536") ≡ err num_range
unfolding parse_port
too_great = refl

new_endpoint-Fits_example : Fits no_text lookup_ip (codes "svc") local_endpoint
new_endpoint-Fits_example =
    new_endpoint-Fits no_text lookup_ip (codes "svc") (codes "localhost:9411") local_endpoint
      looks_up

new_endpoint-join_host_port_example :
    new_endpoint no_text lookup_ip (codes "svc") (join_host_port (codes "::1") (format_uint 9411))
    ≡ ok (
        some (record {
          service_name = codes "svc";
          ipv4 = first_four loopback;
          ipv6 = first_six loopback;
          port = 9411;
        }))
new_endpoint-join_host_port_example =
    new_endpoint-join_host_port no_text lookup_ip (codes "svc") (codes "::1") 9411 loopback
      (omega arith) refl refl (omega arith) refl

-- ===== src/Model/Json/Checks.antt =====
-- What `MarshalJSON` refuses, how far it rounds, and what `UnmarshalJSON` lets through.
use zipkin_go.Base.{
  ℕ, ◌+◌, ◌*◌, ◌^◌, ◌/◌, ◌<◌, ◌≤◌, ◌≡◌, ◌≢◌, ◌⊎◌, inl, inr, Bool-cases, ltb, refl, arith, Bool,
  true, not, ◌&&◌, ◌||◌, Option, none, some, List, length, ◌==◌, ℤ, pos, ltb_ℤ, eqb_ℤ, ◌+ℤ◌, Error,
  ok, is_ok, bind-eq-ok,
}
use zipkin_go.Model.LowerCase.{LowerCase}
use zipkin_go.Model.Spans.{Time, Endpoint, endpoint_empty, zero_time, SpanModel}
use zipkin_go.Model.Json.{JsonEndpoint, JsonField, local_endpoint_field, remote_endpoint_field}
use zipkin_go.Model.Json.Encode.{
  marshal_timestamp, marshal_duration, marshal_ip, marshal_endpoint, marshal_endpoint_field,
  marshal_span,
}
use zipkin_go.Model.Json.Decode.{Reading, finish_reading, read_fields, unmarshal_span, drop_empty}

-- A start that is unset, or not before the first second after the Unix epoch.
abbrev pub starts_late : Time → Bool
starts_late t = eqb_ℤ t zero_time || not (ltb_ℤ t (pos 1000000000))

abbrev pub ip_fits : List ℕ → Bool
ip_fits ip = length ip == 0 || (length ip == 4 || length ip == 16)

abbrev pub ips_fit : Option Endpoint → Bool
ips_fit none = true
ips_fit (some e) = ip_fits e.ipv4 && ip_fits e.ipv6

is_ok-marshal_ip : (e : Error) (ip : List ℕ) → is_ok (marshal_ip e ip) ≡ ip_fits ip
unfolding marshal_ip
is_ok-marshal_ip e ip = ground arith

is_ok-marshal_endpoint :
    (l : LowerCase) (e : Error) (x : Endpoint)
    → is_ok (marshal_endpoint l e x) ≡ (ip_fits x.ipv4 && ip_fits x.ipv6)
unfolding marshal_endpoint
is_ok-marshal_endpoint l e x = ground (arith, is_ok-marshal_ip e x.ipv4, is_ok-marshal_ip e x.ipv6)

is_ok-marshal_endpoint_field :
    (l : LowerCase) (e : Error) (f : JsonEndpoint → JsonField) (o : Option Endpoint)
    → is_ok (marshal_endpoint_field l e f o) ≡ ips_fit o
unfolding marshal_endpoint_field endpoint_empty
is_ok-marshal_endpoint_field l e f none = refl
is_ok-marshal_endpoint_field l e f (some x) = ground (arith, is_ok-marshal_endpoint l e x)

is_ok-marshal_timestamp : (t : Time) → is_ok (marshal_timestamp t) ≡ starts_late t
unfolding marshal_timestamp
is_ok-marshal_timestamp t = ground arith

is_ok-marshal_duration : (d : ℤ) → is_ok (marshal_duration d) ≡ not (ltb_ℤ d (pos 0))
unfolding marshal_duration
is_ok-marshal_duration d = ground arith

-- `MarshalJSON` succeeds exactly where the start is unset or a second or more after the Unix epoch,
-- the duration is not negative, and the addresses of the endpoints have no, four or sixteen bytes:
-- a start within the first second of 1970 is refused like one before it.
pub is_ok-marshal_span :
    (l : LowerCase) (e : Error) (s : SpanModel)
    → is_ok (marshal_span l e s) ≡ (
        starts_late s.timestamp
        && (not (ltb_ℤ s.duration (pos 0))
            && (ips_fit s.local_endpoint && ips_fit s.remote_endpoint)))
unfolding marshal_span
is_ok-marshal_span l e s = ground (
  arith,
  is_ok-marshal_timestamp s.timestamp,
  is_ok-marshal_duration s.duration,
  is_ok-marshal_endpoint_field l e (λ (j : JsonEndpoint). local_endpoint_field j) s.local_endpoint,
  is_ok-marshal_endpoint_field l e (λ (j : JsonEndpoint). remote_endpoint_field j)
      s.remote_endpoint,
)

-- The microseconds that `MarshalJSON` writes for a duration that is not negative, and that does not
-- overflow when it is rounded, are at most 999 nanoseconds above it and 499 below it, and no duration
-- above zero is written as none.
pub marshal_duration_bounds :
    (n : ℕ)
    → n + 500 < 2 ^ 63
    → (k : ℕ) × (marshal_duration (pos n) ≡ ok (pos k))
      × (k * 1000 ≤ n + 999)
      × (n ≤ k * 1000 + 499)
      × ((n ≡ 0) ⊎ (0 < k))
unfolding marshal_duration ◌+ℤ◌
marshal_duration_bounds n h = elim (Bool-cases (ltb n 1000)) [
  | inr long ↦ ((n + 500) / 1000, ground arith, omega arith, omega arith, inr (ground arith))
  | inl short ↦ elim (Bool-cases (n == 0)) [
    | inl unset ↦ (0, ground arith, omega arith, ground arith, inl (ground arith))
    | inr set ↦ (1, ground arith, ground arith, ground arith, inr (omega arith))
  ]
]

finish_reading-ok :
    (r : Reading) (s : SpanModel)
    → finish_reading r ≡ ok s
    → (s.id ≢ 0)
      × (drop_empty s.local_endpoint ≡ s.local_endpoint)
      × (drop_empty s.remote_endpoint ≡ s.remote_endpoint)
unfolding finish_reading
finish_reading-ok r s h = ground arith

-- A span that `UnmarshalJSON` accepts has an identifier, and no endpoint that is empty, whatever the
-- fields and whatever it is written to.
pub unmarshal_span-accepts :
    (type_error : Error) (s0 s : SpanModel) (fields : List JsonField)
    → unmarshal_span type_error s0 fields ≡ ok s
    → (s.id ≢ 0)
      × (drop_empty s.local_endpoint ≡ s.local_endpoint)
      × (drop_empty s.remote_endpoint ≡ s.remote_endpoint)
unfolding unmarshal_span
unmarshal_span-accepts type_error s0 s fields h =
    let (r, read, finished) =
      bind-eq-ok (read_fields type_error fields (record { span = s0; t = 0; d = 0; saved = none }))
        finish_reading h in
    finish_reading-ok r s finished

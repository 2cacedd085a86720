-- ===== src/Model/Json/RoundTrip/Values.antt =====
-- The values of a span in its JSON form: times, durations, addresses and annotations.
use mathlib.Core.List.{map}
use zipkin_go.Base.{
  ℕ, ◌+◌, ◌*◌, ◌/◌, ◌^◌, ◌<◌, ◌≤◌, ◌≡◌, refl, arith, ◌⊎◌, inl, inr, Option, none, some, List, [],
  ◌∷◌, ◌++◌, length, ltb, ◌==◌, if◌then◌else◌, Bool-cases, All, ℤ, pos, negsuc, ◌+ℤ◌, Error, ok,
}
use zipkin_go.Model.LowerCase.{LowerCase, lower_case}
use zipkin_go.Model.Spans.{Time, zero_time, Endpoint, endpoint_empty, Annotation}
use zipkin_go.Model.Times.{round_micros_lem}
use zipkin_go.Model.Json.Encode.{
  json_micros, marshal_timestamp, marshal_duration, ipv4_prefix, marshal_ip, marshal_annotation,
  marshal_annotations,
}
use zipkin_go.Model.Json.Decode.{of_micros, unmarshal_annotation, unmarshal_annotations, or_old}

-- A time that is written as one microsecond at least, up to 2262.
abbrev pub IsMicros : ℤ → Type 0
IsMicros t = (n : ℕ) × (t ≡ pos n) × (500 ≤ n) × (n + 500 < 2 ^ 63)

-- An address of no, four or sixteen bytes.
abbrev pub IsIp : List ℕ → Type 0
IsIp ip = (length ip ≡ 0) ⊎ ((length ip ≡ 4) ⊎ (length ip ≡ 16))

abbrev pub IsJsonEndpoint : Option Endpoint → Type 0
IsJsonEndpoint none = Unit
IsJsonEndpoint (some e) = IsIp e.ipv4 × IsIp e.ipv6 × (e.port < 2 ^ 16)

-- Whole microseconds, halves up.
abbrev pub json_time : ℤ → ℤ
json_time (pos n) = pos ((n + 500) / 1000 * 1000)
json_time (negsuc n) = negsuc n

pub json_micros_lem : (n : ℕ) → n + 500 < 2 ^ 63 → json_micros (pos n) ≡ pos ((n + 500) / 1000)
unfolding json_micros
json_micros_lem n h = rw (round_micros_lem n) (ground arith)

pub of_micros_lem :
    (n : ℕ) → n + 500 < 2 ^ 63 → of_micros ((n + 500) / 1000) ≡ pos ((n + 500) / 1000 * 1000)
of_micros_lem n h = ground arith

-- Durations below a microsecond become one.
abbrev pub json_duration : ℤ → ℤ
json_duration (pos n) =
    if n == 0 then pos 0 else if ltb n 1000 then pos 1000 else pos ((n + 500) / 1000 * 1000)
json_duration (negsuc n) = negsuc n

abbrev pub json_ip : List ℕ → List ℕ
json_ip ip = if length ip == 4 then ipv4_prefix ++ ip else ip

abbrev pub json_endpoint : LowerCase → Option Endpoint → Option Endpoint
json_endpoint l none = none
json_endpoint l (some e) =
    if endpoint_empty (some e)
    then none
    else some (record {
      service_name = lower_case l e.service_name;
      ipv4 = json_ip e.ipv4;
      ipv6 = json_ip e.ipv6;
      port = e.port;
    })

abbrev pub json_annotation : Annotation → Annotation
json_annotation a = record a { timestamp = json_time a.timestamp }

annotation_back :
    (e : Error) (a : Annotation)
    → IsMicros a.timestamp
    → unmarshal_annotation e (marshal_annotation a) ≡ ok (json_annotation a)
unfolding unmarshal_annotation marshal_annotation
annotation_back e a (n, at, low, high) =
    rw (at, json_micros_lem n high) (ground (arith, of_micros_lem n high))

pub annotations_back :
    (e : Error) (xs : List Annotation)
    → All (λ a. IsMicros a.timestamp) xs
    → unmarshal_annotations e (marshal_annotations xs) ≡ ok (map json_annotation xs)
unfolding unmarshal_annotations marshal_annotations
annotations_back e [] h = refl
annotations_back e (x ∷ xs) h = rw (annotation_back e x h.0, annotations_back e xs h.1) refl

pub duration_back :
    (n : ℕ)
    → n + 500 < 2 ^ 63
    → (k : ℕ) × (marshal_duration (pos n) ≡ ok (pos k))
      × (k < 2 ^ 64)
      × (of_micros k ≡ json_duration (pos n))
unfolding marshal_duration ◌+ℤ◌
duration_back n h = elim (Bool-cases (n == 0)) [
  | inl none_left ↦ (0, ground arith, omega arith, ground arith)
  | inr some_left ↦ elim (Bool-cases (ltb n 1000)) [
    | inl short ↦ (1, ground arith, omega arith, ground arith)
    | inr long ↦ ((n + 500) / 1000, ground arith, omega arith, ground arith)
  ]
]

-- The zero time, or a time from the first second of 1970 to 2262.
abbrev pub IsStart : Time → Type 0
IsStart t = (t ≡ zero_time) ⊎ ((n : ℕ) × (t ≡ pos n) × (1000000000 ≤ n) × (n + 500 < 2 ^ 63))

pub timestamp_back :
    (t : Time)
    → IsStart t
    → (k : ℕ) × (marshal_timestamp t ≡ ok (pos k))
      × (k < 2 ^ 64)
      × ((if k == 0 then zero_time else of_micros k) ≡ json_time t)
unfolding marshal_timestamp
timestamp_back t (inl unset) = (0, rw unset refl, omega arith, rw unset refl)
timestamp_back t (inr (n, at, low, high)) = (
  (n + 500) / 1000,
  rw (at, json_micros_lem n high) (ground arith),
  omega arith,
  rw at (ground (arith, of_micros_lem n high)),
)

pub marshal_ip_lem :
    (e : Error) (ip : List ℕ)
    → IsIp ip
    → (o : Option (List ℕ)) × (marshal_ip e ip ≡ ok o) × (or_old o [] ≡ json_ip ip)
unfolding marshal_ip
marshal_ip_lem e [] h = (none, refl, refl)
marshal_ip_lem e (b ∷ ip) (inl h) = absurd (omega arith)
marshal_ip_lem e (b ∷ ip) (inr (inl h)) = (some (ipv4_prefix ++ b ∷ ip), ground arith, ground arith)
marshal_ip_lem e (b ∷ ip) (inr (inr h)) = (some (b ∷ ip), ground arith, ground arith)

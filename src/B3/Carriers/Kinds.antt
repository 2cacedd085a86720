-- ===== src/B3/Carriers/Kinds.antt =====
-- The three kinds of carrier: a Go map, the header of an HTTP request, the metadata of a gRPC call.
use zipkin_go.Base.{
  none, some, List, [], ◌∷◌, ◌++◌, Str, str_eq, if◌then◌else◌, Outcome, Dict, lookup, insert,
  lookup-insert, ◌≡◌, refl, arith,
}
use zipkin_go.HttpHeader
use zipkin_go.HttpHeader.{HttpHeader, canonical_key}
use zipkin_go.Model.Spans.{SpanContext}
use zipkin_go.B3.Headers.{Key, key_text}
use zipkin_go.B3.Carriers.{Carrier, InjectOption, inject_options, extract, extract_headers, inject}

-- A missing key of a Go map reads as the empty text.
unfoldable pub map_get : Dict Str → Str → Str
map_get m k = elim (lookup k m) [ none ↦ [] | some v ↦ v ]

pub map_get_set :
    (m : Dict Str) (k j : Key) (v : Str)
    → map_get (insert (key_text k) v m) (key_text j)
      ≡ (if str_eq (key_text k) (key_text j) then v else map_get m (key_text j))
unfolding map_get
map_get_set m k j v = ground (arith, lookup-insert (key_text k) (key_text j) v m)

abbrev pub map_carrier : Carrier (Dict Str)
map_carrier = record {
  get = λ m k. map_get m (key_text k);
  set = λ m k v. insert (key_text k) v m;
  get_set = map_get_set;
}

-- Canonical forms keep the six keys apart.
canonical_keys :
    (k j : Key)
    → str_eq (canonical_key (key_text k)) (canonical_key (key_text j))
      ≡ str_eq (key_text k) (key_text j)
unfolding canonical_key
canonical_keys k j = ground arith

pub http_get_set :
    (h : HttpHeader) (k j : Key) (v : Str)
    → HttpHeader.get (HttpHeader.set h (key_text k) v) (key_text j)
      ≡ (if str_eq (key_text k) (key_text j) then v else HttpHeader.get h (key_text j))
unfolding HttpHeader.get HttpHeader.set
http_get_set h k j v = ground (
  arith,
  lookup-insert (canonical_key (key_text k)) (canonical_key (key_text j)) (v ∷ []) h,
  canonical_keys k j,
)

abbrev pub http_carrier : Carrier HttpHeader
http_carrier = record {
  get = λ h k. HttpHeader.get h (key_text k);
  set = λ h k v. HttpHeader.set h (key_text k) v;
  get_set = http_get_set;
}

-- `metadata.MD` is a map of slices, which the code indexes itself.
abbrev pub Metadata : Type 0
Metadata = Dict (List Str)

abbrev last_value : List Str → Str
last_value [] = []
last_value (v ∷ []) = v
last_value (v ∷ w ∷ vs) = last_value (w ∷ vs)

unfoldable pub get_grpc_header : Metadata → Str → Str
get_grpc_header md k = elim (lookup k md) [ none ↦ [] | some vs ↦ last_value vs ]

abbrev grpc_values : Metadata → Str → List Str
grpc_values md k = elim (lookup k md) [ none ↦ [] | some vs ↦ vs ]

unfoldable pub set_grpc_header : Metadata → Str → Str → Metadata
set_grpc_header md k v = insert k (grpc_values md k ++ v ∷ []) md

last_value-append : (vs : List Str) (v : Str) → last_value (vs ++ v ∷ []) ≡ v
last_value-append [] v = refl
last_value-append (w ∷ []) v = refl
last_value-append (w ∷ u ∷ vs) v = last_value-append (u ∷ vs) v

pub grpc_get_set :
    (md : Metadata) (k j : Key) (v : Str)
    → get_grpc_header (set_grpc_header md (key_text k) v) (key_text j)
      ≡ (if str_eq (key_text k) (key_text j) then v else get_grpc_header md (key_text j))
unfolding get_grpc_header set_grpc_header
grpc_get_set md k j v = ground (
  arith,
  lookup-insert (key_text k) (key_text j) (grpc_values md (key_text k) ++ v ∷ []) md,
  last_value-append (grpc_values md (key_text k)) v,
)

abbrev pub grpc_carrier : Carrier Metadata
grpc_carrier = record {
  get = λ md k. get_grpc_header md (key_text k);
  set = λ md k v. set_grpc_header md (key_text k) v;
  get_set = grpc_get_set;
}

-- propagation/b3/map.go
unfoldable pub extract_map : Dict Str → Outcome SpanContext
unfolding extract
extract_map m = extract map_carrier m

unfoldable pub inject_map : List InjectOption → SpanContext → Dict Str → Outcome (Dict Str)
unfolding inject
inject_map opts = inject map_carrier (inject_options opts)

-- propagation/b3/http.go
unfoldable pub extract_http : HttpHeader → Outcome SpanContext
unfolding extract
extract_http h = extract http_carrier h

unfoldable pub inject_http : List InjectOption → SpanContext → HttpHeader → Outcome HttpHeader
unfolding inject
inject_http opts = inject http_carrier (inject_options opts)

-- propagation/b3/grpc.go: the headers alone, both ways.
unfoldable pub extract_grpc : Metadata → Outcome SpanContext
unfolding extract_headers
extract_grpc md = extract_headers grpc_carrier md

unfoldable pub inject_grpc : SpanContext → Metadata → Outcome Metadata
unfolding inject
inject_grpc = inject grpc_carrier (inject_options [])

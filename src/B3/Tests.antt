-- ===== src/B3/Tests.antt =====
-- Contexts and headers at which the theorems on propagation/b3 are applied, some of them those of
-- propagation/b3/spancontext_test.go.
use zipkin_go.Base.{
  ℕ, ◌<◌, ◌≡◌, ◌≢◌, ◌↔◌, ◌⊎◌, inl, inr, refl, arith, Bool, true, false, Option, none, some, List,
  [], ◌∷◌, ◌++◌, Str, codes, Dict, Outcome, ok, err, panic, out_of_range, invalid_scope,
  invalid_scope_parent_single, empty_context_error, invalid_trace_id_header,
}
use zipkin_go.HttpHeader.{HttpHeader}
use zipkin_go.Model.TraceIds.{TraceId}
use zipkin_go.Model.Spans.{SpanContext, empty_context}
use zipkin_go.B3.Wire.{IsWire}
use zipkin_go.B3.Headers.{trace_id, span_id, parent_span_id, sampled, flags, context, parse_headers}
use zipkin_go.B3.Headers.Laws.{Reads, parse_headers_iff}
use zipkin_go.B3.Single.{parse_single_header, build_single_header}
use zipkin_go.B3.Single.Panics.{IsTruncated, parse_single_header_panics_iff}
use zipkin_go.B3.Single.RoundTrip.{
  parse_single_header-build_single_header, undecided_parent_refused,
}
use zipkin_go.B3.Carriers.{with_single_and_multi_header, extract}
use zipkin_go.B3.Carriers.Kinds.{map_carrier, http_carrier, map_get, extract_http, inject_http}
use zipkin_go.B3.Carriers.RoundTrip.{IsFresh}
use zipkin_go.B3.Carriers.Errors.{FailsWith, extract-err_iff, extract_http-inject_http}

-- A 128-bit trace identifier alone.
abbrev truncated : Str
truncated = codes "80f198ee56343ba864fe8b2a57d3eff7-"

truncated_panics : parse_single_header truncated ≡ panic out_of_range
unfolding parse_single_header zipkin_go.B3.Single.parse_parts zipkin_go.B3.Single.parse_wide
    zipkin_go.B3.Single.parse_high zipkin_go.Base.index zipkin_go.Base.slice
    zipkin_go.Strconv.parse_uint
truncated_panics = refl

abbrev child : SpanContext
child = record empty_context {
  trace_id = record { high = 9; low = 10 };
  id = 11;
  parent_id = some 12;
  sampled = some true;
}

child-IsWire : IsWire child
unfolding zipkin_go.Model.TraceIds.trace_id_empty
child-IsWire = record {
  trace_bound = record { high_bound = omega arith; low_bound = omega arith };
  has_trace = refl;
  has_span = omega arith;
  span_bound = omega arith;
  parent_bound = λ p e. ground arith;
}

child_header :
    build_single_header child
    ≡ codes "0000000000000009000000000000000a-000000000000000b-1-000000000000000c"
unfolding build_single_header zipkin_go.Base.join zipkin_go.Model.TraceIds.trace_id_empty
    zipkin_go.Model.TraceIds.trace_id_string zipkin_go.Strconv.hex_pad
    zipkin_go.Model.SpanIds.span_id_string
child_header = refl

abbrev undecided : SpanContext
undecided = record child { sampled = none }

undecided-IsWire : IsWire undecided
unfolding zipkin_go.Model.TraceIds.trace_id_empty
undecided-IsWire = record {
  trace_bound = record { high_bound = omega arith; low_bound = omega arith };
  has_trace = refl;
  has_span = omega arith;
  span_bound = omega arith;
  parent_bound = λ p e. ground arith;
}

parse_single_header_panics_iff_example :
    (parse_single_header truncated ≡ panic out_of_range)
    ↔ ((out_of_range ≡ out_of_range) × IsTruncated truncated)
parse_single_header_panics_iff_example = parse_single_header_panics_iff truncated out_of_range

parse_single_header-build_single_header_example :
    parse_single_header (build_single_header child) ≡ ok child
parse_single_header-build_single_header_example =
    parse_single_header-build_single_header child child-IsWire (inr (inr refl))

undecided_parent_refused_example :
    parse_single_header (build_single_header undecided) ≡ err invalid_scope_parent_single
undecided_parent_refused_example =
    undecided_parent_refused undecided 12 undecided-IsWire refl refl refl

parse_headers_iff_example :
    (parse_headers (codes "9000000000000000a") (codes "b") (codes "c") (codes "true") [] ≡ ok child)
    ↔ Reads (codes "9000000000000000a") (codes "b") (codes "c") (codes "true") [] child
parse_headers_iff_example =
    parse_headers_iff (codes "9000000000000000a") (codes "b") (codes "c") (codes "true") [] child

parses_child :
    parse_headers (codes "9000000000000000a") (codes "b") (codes "c") (codes "true") [] ≡ ok child
unfolding parse_headers zipkin_go.B3.Headers.parse_sampled zipkin_go.Base.to_lower
    zipkin_go.Model.TraceIds.trace_id_from_hex zipkin_go.Base.slice zipkin_go.Strconv.parse_uint
parses_child = refl

abbrev refused : Dict Str
refused = (codes "x-b3-traceid", codes "1") ∷ (codes "b3", codes "1234") ∷ []

extract-err_iff_example :
    (extract map_carrier refused ≡ err invalid_scope) ↔ FailsWith map_carrier refused invalid_scope
extract-err_iff_example = extract-err_iff map_carrier refused invalid_scope

abbrev other_keys : Dict Str
other_keys = (codes "accept", codes "*") ∷ []

other_keys-IsFresh : IsFresh map_carrier other_keys
unfolding map_get zipkin_go.Base.lookup
other_keys-IsFresh trace_id = refl
other_keys-IsFresh span_id = refl
other_keys-IsFresh parent_span_id = refl
other_keys-IsFresh sampled = refl
other_keys-IsFresh flags = refl
other_keys-IsFresh context = refl

no_header-IsFresh : IsFresh http_carrier []
unfolding zipkin_go.HttpHeader.get zipkin_go.Base.lookup
no_header-IsFresh k = refl

extract_http-inject_http_example :
    (r' : HttpHeader) × (inject_http (with_single_and_multi_header ∷ []) undecided [] ≡ ok r')
    × (extract_http r' ≡ ok undecided)
extract_http-inject_http_example =
    extract_http-inject_http (with_single_and_multi_header ∷ []) undecided [] undecided-IsWire
      no_header-IsFresh (inl refl)

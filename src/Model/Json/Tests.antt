-- ===== src/Model/Json/Tests.antt =====
-- A span at which the theorems on the JSON form are applied.
use zipkin_go.Base.{
  to_lower, ℕ, ◌+◌, ◌*◌, ◌≤◌, ◌<◌, ◌≡◌, ◌≢◌, ◌⊎◌, refl, arith, inl, inr, Bool, true, false, not,
  ◌&&◌, Option, none, some, List, [], ◌∷◌, Str, codes, lookup, ℤ, pos, ltb_ℤ, Error, other,
  num_range, Outcome, ok, err, is_ok, All, valid_timestamp_required, valid_id_required,
}
use zipkin_go.Model.LowerCase.{LowerCase, to_lower-IsNoUpper}
use zipkin_go.Model.Spans.{Endpoint, SpanModel, client, empty_context}
use zipkin_go.Model.Json.{
  JsonField, other_field, name_field, id_field, duration_field, trace_id_field, debug_field,
  local_endpoint_field,
}
use zipkin_go.Model.Json.Encode.{marshal_span}
use zipkin_go.Model.Json.Decode.{unmarshal_span}
use zipkin_go.Model.Json.RoundTrip.{IsJson, new_span, json_span, unmarshal_span-marshal_span}
use zipkin_go.Model.Json.Schema.{FitsSchema}
use zipkin_go.Model.Json.Schema.Fields.{marshal_span-FitsSchema}
use zipkin_go.Model.Json.Checks.{starts_late, ips_fit, is_ok-marshal_span}

abbrev address_error : Error
address_error = other (codes "invalid IP address")

to_lower-keeps : (c : ℕ) (s : Str) → to_lower (c ∷ s) ≢ []
unfolding to_lower
to_lower-keeps c s = λ e. cc

-- A table without letters beyond ASCII.
abbrev ascii : LowerCase
ascii = record { lower = to_lower; keeps = to_lower-keeps; lowers = to_lower-IsNoUpper }

abbrev service : Endpoint
service = record { service_name = codes "Svc"; ipv4 = 10 ∷ 0 ∷ 0 ∷ 1 ∷ []; ipv6 = []; port = 80 }

abbrev example_span : SpanModel
example_span = record new_span {
  context = record empty_context {
    trace_id = record { high = 1; low = 2 };
    id = 3;
    parent_id = some 4;
    sampled = some true;
  };
  name = codes "GET";
  kind = client;
  timestamp = pos 1500000000123456500;
  duration = pos 400;
  local_endpoint = some service;
  annotations = record { timestamp = pos 1500000000123456789; value = codes "wr" } ∷ [];
  tags = (codes "a", codes "1") ∷ (codes "b", codes "2") ∷ [];
}

example_span-IsJson : IsJson example_span
unfolding lookup
example_span-IsJson = record {
  trace_bound = record { high_bound = omega arith; low_bound = omega arith };
  has_span = omega arith;
  span_bound = omega arith;
  parent_bound = omega arith;
  start = inr (1500000000123456500, refl, omega arith, omega arith);
  duration_bound = (400, refl, omega arith);
  local_bound = (inr (inl refl), inl refl, omega arith);
  remote_bound = tt;
  annotation_bounds = ((1500000000123456789, refl, omega arith, omega arith), tt);
  tags_once = (refl, (refl, tt));
}

unmarshal_span-marshal_span_example :
    (fields : List JsonField) × (marshal_span ascii address_error example_span ≡ ok fields)
    × (unmarshal_span num_range new_span fields ≡ ok (json_span ascii example_span))
unmarshal_span-marshal_span_example =
    unmarshal_span-marshal_span ascii address_error num_range example_span example_span-IsJson

rounds_up :
    ((json_span ascii example_span).timestamp ≡ pos 1500000000123457000)
    × ((json_span ascii example_span).duration ≡ pos 1000)
rounds_up = (refl, refl)

first_second :
    marshal_span ascii address_error (record example_span { timestamp = pos 999999999 })
    ≡ err valid_timestamp_required
unfolding marshal_span
first_second = refl

is_ok-marshal_span_example : is_ok (marshal_span ascii address_error example_span) ≡ (
    starts_late example_span.timestamp
    && (not (ltb_ℤ example_span.duration (pos 0))
        && (ips_fit example_span.local_endpoint && ips_fit example_span.remote_endpoint)))
is_ok-marshal_span_example = is_ok-marshal_span ascii address_error example_span

abbrev named_fields : List JsonField
named_fields = other_field ∷ id_field (codes "\"000000000000000a\"") ∷ name_field (codes "n") ∷ []

reads_fields :
    unmarshal_span num_range new_span named_fields
    ≡ ok (record new_span {
      context = record empty_context { id = 10 };
      name = codes "n";
      timestamp = new_span.timestamp;
    })
unfolding unmarshal_span zipkin_go.Model.SpanIds.unmarshal_span_id zipkin_go.Base.slice
    zipkin_go.Strconv.parse_uint zipkin_go.Strconv.parse_uint_value
    zipkin_go.Model.Spans.endpoint_empty
reads_fields = refl

no_id : unmarshal_span num_range new_span (name_field (codes "n") ∷ []) ≡ err valid_id_required
unfolding unmarshal_span
no_id = refl

abbrev named_span : SpanModel
named_span = record new_span { context = record empty_context { id = 10 }; name = codes "n" }

abbrev small_span : SpanModel
small_span = record new_span {
  context = record empty_context {
    trace_id = record { high = 0; low = 171 };
    id = 3;
    debug = true;
  };
  name = codes "GET";
  duration = pos 400;
  local_endpoint = some service;
}

abbrev small_fields : List JsonField
small_fields =
    duration_field (pos 1)
    ∷ trace_id_field (codes "\"00000000000000ab\"")
    ∷ id_field (codes "\"0000000000000003\"")
    ∷ debug_field true
    ∷ name_field (codes "get")
    ∷ local_endpoint_field (record {
      service_name = some (codes "svc");
      ipv4 = some (0 ∷ 0 ∷ 0 ∷ 0 ∷ 0 ∷ 0 ∷ 0 ∷ 0 ∷ 0 ∷ 0 ∷ 255 ∷ 255 ∷ 10 ∷ 0 ∷ 0 ∷ 1 ∷ []);
      ipv6 = none;
      port = some (pos 80);
    })
    ∷ []

writes_small : marshal_span ascii address_error small_span ≡ ok small_fields
unfolding marshal_span zipkin_go.Model.Spans.endpoint_empty
    zipkin_go.Model.TraceIds.marshal_trace_id zipkin_go.Model.SpanIds.marshal_span_id
    zipkin_go.Base.to_lower zipkin_go.Model.TraceIds.trace_id_string
    zipkin_go.Model.SpanIds.span_id_string zipkin_go.Strconv.hex_pad
writes_small = refl

marshal_span-FitsSchema_example : All FitsSchema small_fields
marshal_span-FitsSchema_example =
    marshal_span-FitsSchema ascii address_error small_span small_fields writes_small

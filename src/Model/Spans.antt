-- ===== src/Model/Spans.antt =====
-- model/span.go, model/endpoint.go, model/annotation.go and model/kind.go: the data of a span.
-- A time is its nanoseconds since the Unix epoch; the monotonic clock reading is not kept.
use zipkin_go.Base.{
  ℕ, ◌*◌, ◌-◌, Bool, true, false, ◌&&◌, Option, none, some, List, [], Str, Dict, codes, str_eq,
  length, ◌==◌, Error, ℤ, negsuc,
}
use zipkin_go.Model.TraceIds.{TraceId, no_trace_id}
use zipkin_go.Model.SpanIds.{SpanId}
use zipkin_go.Model.Baggage.{Baggage}

abbrev pub Kind : Type 0
Kind = Str

abbrev pub undetermined : Kind
undetermined = []

abbrev pub client : Kind
client = codes "CLIENT"

abbrev pub server : Kind
server = codes "SERVER"

abbrev pub producer : Kind
producer = codes "PRODUCER"

abbrev pub consumer : Kind
consumer = codes "CONSUMER"

abbrev pub Time : Type 0
Time = ℤ

-- 0001-01-01T00:00:00Z, the zero value of `time.Time`.
abbrev pub zero_time : Time
zero_time = negsuc (62135596800 * 1000000000 - 1)

abbrev pub Duration : Type 0
Duration = ℤ

pub record Endpoint : Type 0 where
  pub service_name : Str
  pub ipv4 : List ℕ
  pub ipv6 : List ℕ
  pub port : ℕ

-- The receiver may be nil.
unfoldable pub endpoint_empty : Option Endpoint → Bool
endpoint_empty none = true
endpoint_empty (some e) =
    str_eq e.service_name [] && (e.port == 0 && (length e.ipv4 == 0 && length e.ipv6 == 0))

pub record Annotation : Type 0 where
  pub timestamp : Time
  pub value : Str

-- A pointer to a value that nobody writes through is an `Option` of the value.
pub record SpanContext : Type 0 where
  pub trace_id : TraceId
  pub id : SpanId
  pub parent_id : Option SpanId
  pub debug : Bool
  pub sampled : Option Bool
  pub err : Option Error
  pub baggage : Option Baggage

abbrev pub empty_context : SpanContext
empty_context = record {
  trace_id = no_trace_id;
  id = 0;
  parent_id = none;
  debug = false;
  sampled = none;
  err = none;
  baggage = none;
}

pub record SpanModel : Type 0 where
  pub context : SpanContext
  pub open context use *
  pub name : Str
  pub kind : Kind
  pub timestamp : Time
  pub duration : Duration
  pub shared : Bool
  pub local_endpoint : Option Endpoint
  pub remote_endpoint : Option Endpoint
  pub annotations : List Annotation
  pub tags : Dict Str

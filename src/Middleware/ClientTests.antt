-- ===== src/Middleware/ClientTests.antt =====
-- A client at which the theorems on its requests are applied, and requests followed in the source.
use zipkin_go.Base.{
  ℕ, ◌≡◌, refl, arith, Bool, true, false, ◌&&◌, ◌||◌, Option, none, some, List, [], ◌∷◌, ◌++◌, Str,
  codes, lookup, length, if◌then◌else◌, ℤ, pos, Error, other, Outcome, ok, err,
}
use zipkin_go.Model.Spans.{SpanContext, empty_context, client}
use zipkin_go.B3.Wire.{IsWire, wire_context}
use zipkin_go.Tracer.State.{Tracer, Span, SpanImpl, recording, span_context, blank_span, Context}
use zipkin_go.Tracer.SpanCalls.{SpanCall, is_sampled, tag_call, tag_error}
use zipkin_go.Tracer.Lineage.Roots.{IsJoined}
use zipkin_go.Tracer.TagValues.{span_tags, or_else, first_tag}
use zipkin_go.Middleware.ErrHandlers.{default_err_handler, tag_calls, default_err_handler-quiet}
use zipkin_go.Middleware.HttpServer.{ServerRequest, Served, serve_http}
use zipkin_go.Middleware.SpanTrace.{TraceEvent, get_conn, dns_done}
use zipkin_go.Middleware.Transport.{
  ClientRequest, Response, Attempt, RoundTripper, Transport, discard, transport_trace,
  new_transport,
}
use zipkin_go.Middleware.Transport.Trip.{Tripped, trip_with_span, round_trip}
use zipkin_go.Middleware.Transport.Laws.{IsQuiet, returns, trip_with_span-reports}
use zipkin_go.Middleware.Transport.Results.{
  failure_text, trip_with_span-returned, trip_with_span-error_tag,
}
use zipkin_go.Middleware.Transport.Propagation.{propagated, serve_http-round_trip}
use zipkin_go.Middleware.Client.{Client, Doing, responded, do_with_span, Closing, close_all}
use zipkin_go.Middleware.Client.Laws.{has_failed, any_returns, do_with_span-reports}
use zipkin_go.Middleware.Tests.{handler, tracer, recorded, no_endpoint, fails, no_header-IsFresh}

abbrev refused : Error
refused = other (codes "refused")

abbrev error_text : Error → Str
error_text (other s) = s
error_text _ = []

-- A server that fails, with a body; and one that cannot be reached.
abbrev unavailable : Response
unavailable = record {
  status_code = pos 503;
  content_length = pos 4;
  body = record { bytes = codes "busy"; failure = none };
}

abbrev answers : RoundTripper
answers req = record {
  events =
      (pos 110, get_conn (codes "a:80"))
      ∷ (pos 111, dns_done (codes "10.0.0.1" ∷ codes "10.0.0.2" ∷ []) (some refused))
      ∷ [];
  returned = ok unavailable;
}

abbrev unreachable : RoundTripper
unreachable req = record { events = []; returned = err refused }

abbrev reads_body : Str → List SpanCall
reads_body body = tag_call (codes "error.body") body ∷ []

abbrev transport : Transport ℕ
transport = record {
  tracer = tracer;
  rt = answers;
  http_trace = true;
  default_tags = (codes "zone", codes "a") ∷ [];
  err_handler = default_err_handler error_text;
  err_response_reader = some reads_body;
  request_sampler = some (λ req. discard);
  remote_endpoint = none;
}

abbrev get_root : ClientRequest
get_root = record { method = codes "GET"; scheme = codes "http"; path = codes "/"; header = [] }

transport-IsQuiet : IsQuiet transport
transport-IsQuiet = record {
  handler = default_err_handler-quiet error_text;
  reader = λ f body e. ground arith;
}

trip_with_span-reports_example :
    (let trip = trip_with_span error_text transport get_root (recording recorded) (pos 200) in
      length trip.sent ≡ (if is_sampled recorded.context && returns trip.returned then 1 else 0))
trip_with_span-reports_example =
    trip_with_span-reports transport error_text get_root recorded (pos 200) transport-IsQuiet refl
      refl

trip_with_span-returned_example :
    (trip_with_span error_text transport get_root (recording recorded) (pos 200)).returned
    ≡ ok unavailable
trip_with_span-returned_example =
    trip_with_span-returned transport error_text get_root (recording recorded) (pos 200) refl

trip_with_span-error_tag_example :
    lookup tag_error
      (span_tags (trip_with_span error_text transport get_root (recording recorded) (pos 200)).span)
    ≡ or_else (lookup tag_error recorded.tags) (
        or_else
          (first_tag tag_error (tag_calls transport.default_tags))
          (failure_text error_text (ok unavailable)))
trip_with_span-error_tag_example =
    trip_with_span-error_tag transport error_text refl get_root recorded (pos 200)

-- The request sampler discards the trace for the servers, and the client's span is sent all the same.
discarded :
    length (trip_with_span error_text transport get_root (recording recorded) (pos 200)).sent ≡ 1
unfolding trip_with_span zipkin_go.Tracer.State.is_noop zipkin_go.Tracer.SpanCalls.run_calls
    zipkin_go.Tracer.SpanCalls.call_span zipkin_go.Middleware.SpanTrace.trace_all
    default_err_handler lookup zipkin_go.Base.insert
discarded = refl

tagged_error :
    lookup tag_error
      (span_tags (trip_with_span error_text transport get_root (recording recorded) (pos 200)).span)
    ≡ some (codes "503")
unfolding lookup trip_with_span zipkin_go.Tracer.State.is_noop zipkin_go.Tracer.SpanCalls.run_calls
    zipkin_go.Middleware.SpanTrace.trace_all default_err_handler
    zipkin_go.Tracer.SpanCalls.call_span zipkin_go.Base.insert zipkin_go.Strconv.format_int
tagged_error = refl

-- The span that the transport starts.
abbrev client_span : SpanImpl
client_span = record {
  model = record blank_span.model {
    context = record empty_context {
      trace_id = record { high = 0; low = 1 };
      id = 2;
      sampled = some true;
    };
    name = codes "http/GET";
    kind = client;
    timestamp = pos 100;
  };
  must_collect = 1;
  flush_on_finish = true;
}

abbrev trip : Tripped
trip = trip_with_span error_text transport get_root (recording client_span) (pos 200)

trips : round_trip error_text transport none get_root (pos 100) (pos 200) 0 ≡ ok (trip, 2)
unfolding round_trip zipkin_go.Tracer.Start.start_span_from_context
    zipkin_go.Tracer.Start.start_span zipkin_go.Tracer.SpanOptions.run_options
    zipkin_go.Tracer.SpanOptions.kind_option zipkin_go.Tracer.SpanOptions.remote_endpoint_option
    zipkin_go.Tracer.Start.span_from_context zipkin_go.Tracer.Start.start_recording
    zipkin_go.Tracer.Start.decide zipkin_go.Tracer.Start.assign_ids span_context
    zipkin_go.Model.TraceIds.trace_id_empty zipkin_go.Tracer.Start.new_span
trips = refl

abbrev received : ServerRequest
received = record {
  method = codes "GET";
  path = codes "/";
  content_length = pos 0;
  remote_addr = codes "127.0.0.1:80";
  header = trip.request.header;
}

abbrev discarded_context : SpanContext
discarded_context = record client_span.context { sampled = some false }

discarded_context-IsWire : IsWire discarded_context
unfolding zipkin_go.Model.TraceIds.trace_id_empty
discarded_context-IsWire = record {
  trace_bound = record { high_bound = omega arith; low_bound = omega arith };
  has_trace = refl;
  has_span = omega arith;
  span_bound = omega arith;
  parent_bound = λ p e. ground arith;
}

propagates : propagated transport get_root trip.span ≡ discarded_context
unfolding trip_with_span zipkin_go.Tracer.State.is_noop zipkin_go.Tracer.SpanCalls.run_calls
    zipkin_go.Middleware.SpanTrace.trace_all default_err_handler
    zipkin_go.Tracer.SpanCalls.call_span lookup zipkin_go.Base.insert
propagates = refl

trip_context : span_context trip.span ≡ client_span.context
unfolding span_context trip_with_span zipkin_go.Tracer.State.is_noop
    zipkin_go.Tracer.SpanCalls.run_calls zipkin_go.Middleware.SpanTrace.trace_all
    default_err_handler zipkin_go.Tracer.SpanCalls.call_span lookup zipkin_go.Base.insert
trip_context = refl

serve_http-round_trip_example :
    (served : Served ℕ) × (sp : Span) × (serve_http error_text handler tracer no_endpoint fails
        received
        (pos 300)
        (pos 400)
        0
      ≡ ok served)
    × (served.context ≡ some sp)
    × IsJoined tracer
        (pos 300)
        (wire_context (propagated transport get_root trip.span))
        (span_context sp)
        0
unfolding zipkin_go.Middleware.Transport.Trip.baggage_headers
serve_http-round_trip_example =
    serve_http-round_trip error_text transport handler tracer no_endpoint fails none get_root
      received (pos 100) (pos 200) (pos 300) (pos 400) 0 2 0 trip trips
      (rw propagates discarded_context-IsWire) (rw trip_context no_header-IsFresh) refl
      (omega arith) refl refl refl

-- The application span of the request, whose body is closed twice.
abbrev does : Context → ClientRequest → Doing
does ctx req = record { calls = []; result = responded unavailable }

abbrev closings : List Closing
closings =
    record { now = pos 210; stop = pos 220; inner = ok tt }
    ∷ record { now = pos 230; stop = pos 240; inner = err refused }
    ∷ []

do_with_span-reports_example :
    (let done = do_with_span error_text true does none get_root (pos 200) (recording recorded) in
      length (done.sent ++ (close_all true closings done.span).1) ≡ (
        if is_sampled recorded.context && (has_failed done.result || any_returns closings)
        then 1
        else 0))
do_with_span-reports_example =
    do_with_span-reports error_text true does none get_root (pos 200) recorded closings refl refl
      refl refl

abbrev http_client : Client ℕ
http_client = record {
  tracer = tracer;
  http_transport = some unreachable;
  installed = none;
  http_trace = true;
  default_tags = [];
  transport_options = transport_trace false ∷ [];
  remote_endpoint = none;
}

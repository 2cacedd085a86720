-- ===== src/Middleware/Transport.antt =====
-- middleware/http/transport.go, its options, and request_sampler.go. The wrapped `http.RoundTripper` stands for what it
-- does with the request that it gets: the callbacks of the trace that it makes before it returns, and
-- what it returns.
pub mod Trip
pub mod Laws
pub mod Results
pub mod Propagation
use zipkin_go.Base.{
  ℕ, Bool, true, false, ◌||◌, Option, none, some, List, [], ◌∷◌, ◌++◌, Str, Dict, codes, ltb,
  if◌then◌else◌, ℤ, pos, ltb_ℤ, Error, Outcome, ok, err, panic, valid_tracer_required, ◌>>=◌,
}
use zipkin_go.Strconv.{format_int}
use zipkin_go.HttpHeader.{HttpHeader, add}
use zipkin_go.Model.Baggage.{Baggage, iterate_fields}
use zipkin_go.Model.Spans.{SpanContext, SpanModel, Endpoint, Time, client}
use zipkin_go.B3.Carriers.Kinds.{inject_http}
use zipkin_go.Tracer.State.{Tracer, Span, span_context, is_noop, Context}
use zipkin_go.Tracer.SpanCalls.{SpanCall, tag_call, finish_call, run_calls}
use zipkin_go.Tracer.SpanOptions.{kind_option, remote_endpoint_option}
use zipkin_go.Tracer.Start.{start_span_from_context}
use zipkin_go.Middleware.ErrHandlers.{ErrHandler, default_err_handler, tag_calls}
use zipkin_go.Middleware.SpanTrace.{TraceEvent, trace_all}

-- The parts of an outgoing `*http.Request` that the code reads. Its header is a map that is there.
pub record ClientRequest : Type 0 where
  pub method : Str
  pub scheme : Str
  pub path : Str
  pub header : HttpHeader

-- A body as a reader: the bytes that are left, and the error behind them, where it is not the end.
pub record Body : Type 0 where
  pub bytes : Str
  pub failure : Option Error

pub record Response : Type 0 where
  pub status_code : ℤ
  pub content_length : ℤ
  pub body : Body

pub record Attempt : Type 0 where
  pub events : List (Time × TraceEvent)
  pub returned : Outcome Response

abbrev pub RoundTripper : Type 0
RoundTripper = ClientRequest → Attempt

abbrev pub RequestSampler : Type 0
RequestSampler = ClientRequest → Option Bool

-- The calls that a reader of error bodies makes on the span, for the bytes of the body.
abbrev pub ErrResponseReader : Type 0
ErrResponseReader = Str → List SpanCall

pub record Transport (W : Type 0) : Type 0 where
  pub tracer : Tracer W
  pub rt : RoundTripper
  pub http_trace : Bool
  pub default_tags : Dict Str
  pub err_handler : ErrHandler
  pub err_response_reader : Option ErrResponseReader
  pub request_sampler : Option RequestSampler
  pub remote_endpoint : Option Endpoint

-- request_sampler.go
abbrev pub sample : Option Bool
sample = some true

abbrev pub discard : Option Bool
discard = some false

abbrev pub TransportOption : Type 0 → Type 0
TransportOption W = Transport W → Transport W

module _ {W : Type 0} where
  -- A nil round tripper changes nothing.
  unfoldable pub round_tripper : Option RoundTripper → TransportOption W
  round_tripper none t = t
  round_tripper (some rt) t = record t { rt = rt }

  unfoldable pub transport_tags : Dict Str → TransportOption W
  transport_tags tags t = record t { default_tags = tags }

  unfoldable pub transport_trace : Bool → TransportOption W
  transport_trace enable t = record t { http_trace = enable }

  unfoldable pub transport_err_handler : ErrHandler → TransportOption W
  transport_err_handler h t = record t { err_handler = h }

  unfoldable pub transport_err_response_reader : ErrResponseReader → TransportOption W
  transport_err_response_reader r t = record t { err_response_reader = some r }

  unfoldable pub transport_remote_endpoint : Option Endpoint → TransportOption W
  transport_remote_endpoint e t = record t { remote_endpoint = e }

  unfoldable pub transport_request_sampler : Option RequestSampler → TransportOption W
  transport_request_sampler f t = record t { request_sampler = f }

  abbrev pub run_transport_options : List (TransportOption W) → TransportOption W
  run_transport_options [] t = t
  run_transport_options (o ∷ os) t = run_transport_options os (o t)

  unfoldable pub initial_transport : (Error → Str) → RoundTripper → Tracer W → Transport W
  unfolding default_err_handler
  initial_transport error_text default_transport tracer = record {
    tracer = tracer;
    rt = default_transport;
    http_trace = false;
    default_tags = [];
    err_handler = default_err_handler error_text;
    err_response_reader = none;
    request_sampler = none;
    remote_endpoint = none;
  }

  -- `default_transport` is `http.DefaultTransport`; no tracer is a nil one.
  unfoldable pub new_transport :
      (Error → Str)
      → RoundTripper
      → Option (Tracer W)
      → List (TransportOption W)
      → Outcome (Transport W)
  unfolding initial_transport
  new_transport error_text default_transport none options = err valid_tracer_required
  new_transport error_text default_transport (some tracer) options =
      ok (run_transport_options options (initial_transport error_text default_transport tracer))

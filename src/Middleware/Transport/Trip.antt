-- ===== src/Middleware/Transport/Trip.antt =====
-- `RoundTrip` of middleware/http/transport.go. The log line for a body that cannot be read is left out.
use zipkin_go.Base.{
  Bool, true, false, ◌||◌, Option, none, some, List, [], ◌∷◌, ◌++◌, Str, codes, if◌then◌else◌, ℤ,
  pos, ltb_ℤ, Error, Outcome, ok, err, panic, ◌>>=◌,
}
use zipkin_go.Strconv.{format_int}
use zipkin_go.HttpHeader.{HttpHeader, add}
use zipkin_go.Model.Baggage.{Baggage, iterate_fields}
use zipkin_go.Model.Spans.{SpanContext, SpanModel, Time, client}
use zipkin_go.B3.Carriers.Kinds.{inject_http}
use zipkin_go.Tracer.State.{Span, span_context, is_noop, Context}
use zipkin_go.Tracer.SpanCalls.{SpanCall, tag_call, finish_call, run_calls}
use zipkin_go.Tracer.SpanOptions.{kind_option, remote_endpoint_option}
use zipkin_go.Tracer.Start.{start_span_from_context}
use zipkin_go.Middleware.ErrHandlers.{tag_calls}
use zipkin_go.Middleware.SpanTrace.{TraceEvent, trace_all}
use zipkin_go.Middleware.Transport.{
  ClientRequest, Response, RequestSampler, ErrResponseReader, Transport,
}

unfoldable pub add_values : Str → List Str → HttpHeader → HttpHeader
add_values key [] header = header
add_values key (v ∷ vs) header = add_values key vs (add header key v)

-- The registered fields of the span's baggage.
unfoldable pub baggage_headers : Option Baggage → HttpHeader → HttpHeader
unfolding add_values
baggage_headers none header = header
baggage_headers (some b) header = iterate_fields add_values b header

-- The error of the injection is dropped, and the header left as it is.
abbrev pub injected_header : Outcome HttpHeader → HttpHeader → HttpHeader
injected_header (ok header') header = header'
injected_header (err e) header = header
injected_header (panic p) header = header

-- The sampler changes the copy of the context that is injected.
unfoldable pub sample_client_request :
    Option RequestSampler → ClientRequest → SpanContext → SpanContext
sample_client_request none req sc = sc
sample_client_request (some f) req sc = elim (f req) [
  | none ↦ sc
  | some b ↦ record sc { sampled = some b }
]

abbrev pub with_header : ClientRequest → HttpHeader → ClientRequest
with_header req header = record req { header = header }

unfoldable pub inject_into : SpanContext → ClientRequest → ClientRequest
inject_into sc req = with_header req (injected_header (inject_http [] sc req.header) req.header)

unfoldable pub response_size_calls : ℤ → List SpanCall
response_size_calls n =
    if ltb_ℤ (pos 0) n then tag_call (codes "http.response.size") (format_int n) ∷ [] else []

-- The body of an error that the reader gets: where it can be read whole it is closed, and the
-- response gets a body with the same bytes. Where it cannot, what is left of it is its error.
unfoldable pub read_error_body :
    Option ErrResponseReader → Response → List SpanCall × Response × Bool
read_error_body none res = ([], res, false)
read_error_body (some reader) res = elim res.body.failure [
  | none ↦ (
    reader res.body.bytes,
    record res { body = record { bytes = res.body.bytes; failure = none } },
    true,
  )
  | some e ↦ ([], record res { body = record { bytes = []; failure = some e } }, false)
]

-- What `RoundTrip` leaves: the span, the request that the wrapped round tripper got, what was sent to
-- the reporter, what was returned, and whether the body of the response was closed.
pub record Tripped : Type 0 where
  pub span : Span
  pub request : ClientRequest
  pub sent : List SpanModel
  pub returned : Outcome Response
  pub closed : Bool

unfoldable pub trip_name : ClientRequest → Str
trip_name req = req.scheme ++ b'/' ∷ req.method

module _ {W : Type 0} where
  -- The calls for a response, the response that the caller gets, and whether its body was closed.
  unfoldable pub response_calls : Transport W → Response → List SpanCall × Response × Bool
  unfolding response_size_calls read_error_body
  response_calls t res =
      let size = response_size_calls res.content_length in
      if ltb_ℤ res.status_code (pos 200) || ltb_ℤ (pos 299) res.status_code
      then (let status = tag_call (codes "http.status_code") (format_int res.status_code) in
          if ltb_ℤ (pos 399) res.status_code
          then (let (read, res', closed) = read_error_body t.err_response_reader res in
              (size ++ status ∷ (t.err_handler none res.status_code ++ read), res', closed))
          else (size ++ status ∷ [], res, false))
      else (size, res, false)

  -- What follows the wrapped round tripper. A panic of it leaves the function before the span is
  -- finished.
  unfoldable pub end_trip :
      Transport W → Outcome Response → Time → List SpanCall × Outcome Response × Bool
  unfolding response_calls
  end_trip t (ok res) stop =
      let (calls, res', closed) = response_calls t res in
      (calls ++ finish_call stop ∷ [], ok res', closed)
  end_trip t (err e) stop = (t.err_handler (some e) (pos 0) ++ finish_call stop ∷ [], err e, false)
  end_trip t (panic p) stop = ([], panic p, false)

  -- All calls on a recorded span: `ended` are those that follow the wrapped round tripper.
  unfoldable pub trip_calls :
      (Error → Str)
      → Transport W
      → ClientRequest
      → List (Time × TraceEvent)
      → List SpanCall
      → List SpanCall
  trip_calls error_text t req events ended =
      tag_calls t.default_tags
      ++ (tag_call (codes "http.method") req.method
          ∷ tag_call (codes "http.path") req.path
          ∷ ((if t.http_trace then trace_all error_text events else []) ++ ended))

  unfoldable pub record_trip : (Error → Str) → Transport W → ClientRequest → Span → Time → Tripped
  unfolding sample_client_request inject_into end_trip trip_calls
  record_trip error_text t req sp stop =
      let req' = inject_into (sample_client_request t.request_sampler req (span_context sp)) req in
      let trip = t.rt req' in
      let (ended, returned, closed) = end_trip t trip.returned stop in
      let (sp', sent) = run_calls (trip_calls error_text t req trip.events ended) sp in
      record { span = sp'; request = req'; sent = sent; returned = returned; closed = closed }

  -- A span that is not recorded: the context is propagated all the same.
  unfoldable pub pass_trip : Transport W → ClientRequest → Span → Tripped
  unfolding inject_into
  pass_trip t req sp =
      let req' = inject_into (span_context sp) req in
      record {
        span = sp;
        request = req';
        sent = [];
        returned = (t.rt req').returned;
        closed = false;
      }

  unfoldable pub trip_with_span :
      (Error → Str) → Transport W → ClientRequest → Span → Time → Tripped
  unfolding baggage_headers record_trip pass_trip
  trip_with_span error_text t req sp stop =
      let req' = with_header req (baggage_headers (span_context sp).baggage req.header) in
      if is_noop sp then pass_trip t req' sp else record_trip error_text t req' sp stop

  -- `RoundTrip`, with the Go context of the request and the clock at its start and at its end.
  unfoldable pub round_trip :
      (Error → Str)
      → Transport W
      → Context
      → ClientRequest
      → Time
      → Time
      → W
      → Outcome (Tripped × W)
  unfolding trip_with_span trip_name
  round_trip error_text t ctx req start stop w = do
    (sp, _, w') ←
        start_span_from_context error_text t.tracer start ctx (trip_name req)
          (kind_option client ∷ remote_endpoint_option t.remote_endpoint ∷ []) w
    ok (trip_with_span error_text t req sp stop, w')

-- ===== src/Middleware/Transport/Propagation.antt =====
-- From a traced client to a traced server.
use zipkin_go.Base.{
  ◌≡◌, ◌≢◌, refl, ap, sym, ◌∙◌, arith, inl, true, Option, none, some, List, [], ◌∷◌, Str, Error, ok,
  bind-eq-ok,
}
use zipkin_go.HttpHeader.{HttpHeader}
use zipkin_go.Model.Spans.{SpanContext, Endpoint, Time, client}
use zipkin_go.B3.Wire.{IsWire, wire_context}
use zipkin_go.B3.Carriers.Kinds.{http_carrier, inject_http}
use zipkin_go.B3.Carriers.RoundTrip.{IsFresh}
use zipkin_go.B3.Carriers.Errors.{extract_http-inject_http}
use zipkin_go.Tracer.State.{
  Tracer, Span, SpanImpl, noop_span, recording, span_context, is_noop, Context,
}
use zipkin_go.Tracer.SpanCalls.{SpanCall, call_impl, call_span, run_calls}
use zipkin_go.Tracer.Reports.{call_impl-pending}
use zipkin_go.Tracer.Lineage.Roots.{IsJoined}
use zipkin_go.Middleware.HttpServer.{ServerRequest, ServerHandler, Handled, Served, serve_http}
use zipkin_go.Middleware.Requests.{serve_http-inject_http}
use zipkin_go.Middleware.Transport.{ClientRequest, Transport}
use zipkin_go.Tracer.SpanOptions.{kind_option, remote_endpoint_option}
use zipkin_go.Tracer.Start.{start_span_from_context}
use zipkin_go.Middleware.Transport.Trip.{
  injected_header, Tripped, trip_name, round_trip, with_header, baggage_headers, inject_into,
  sample_client_request, trip_with_span, record_trip, pass_trip,
}

-- The request with the baggage of the span in its header.
abbrev pub with_baggage : ClientRequest → SpanContext → ClientRequest
with_baggage req sc = with_header req (baggage_headers sc.baggage req.header)

-- The context that `RoundTrip` propagates: the span's, with the decision of the request sampler where
-- the span is recorded.
abbrev pub propagated : {W : Type 0} → Transport W → ClientRequest → Span → SpanContext
propagated t req (noop_span sc) = sc
propagated t req (recording s) =
    sample_client_request t.request_sampler (with_baggage req s.context) s.context

module _ {W : Type 0} (t : Transport W) (error_text : Error → Str) (req : ClientRequest) where
  -- The wrapped round tripper gets the request with the baggage and the context injected.
  trip_with_span-request :
      (sp : Span) (stop : Time)
      → (trip_with_span error_text t req sp stop).request
        ≡ inject_into (propagated t req sp) (with_baggage req (span_context sp))
  unfolding trip_with_span is_noop record_trip pass_trip span_context
  trip_with_span-request (noop_span sc) stop = refl
  trip_with_span-request (recording s) stop = refl

  -- The calls on a span leave its context alone, and with it what is propagated.
  propagated-run_calls :
      (cs : List SpanCall) (s : SpanImpl)
      → (propagated t req (run_calls cs (recording s)).0 ≡ propagated t req (recording s))
        × (span_context (run_calls cs (recording s)).0 ≡ s.context)
  unfolding run_calls call_span span_context
  propagated-run_calls [] s = (refl, refl)
  propagated-run_calls (c ∷ cs) s =
      let (same, context) = propagated-run_calls cs (call_impl c s).0 in
      let kept = (call_impl-pending c s).1 in
      (
        same ∙ ap (λ sc. sample_client_request t.request_sampler (with_baggage req sc) sc) kept,
        context ∙ kept,
      )

  propagated-trip :
      (sp : Span) (stop : Time)
      → (propagated t req (trip_with_span error_text t req sp stop).span ≡ propagated t req sp)
        × (span_context (trip_with_span error_text t req sp stop).span ≡ span_context sp)
  unfolding trip_with_span is_noop record_trip pass_trip span_context
  propagated-trip (noop_span sc) stop = (refl, refl)
  propagated-trip (recording s) stop = propagated-run_calls _ s

  -- What was injected is what the server finds.
  inject_http-request :
      (sc : SpanContext) (header : HttpHeader)
      → IsWire sc
      → IsFresh http_carrier header
      → inject_http [] sc header ≡ ok (inject_into sc (with_header req header)).header
  unfolding inject_into
  inject_http-request sc header wire free =
      let (header', injected, extracted) =
        extract_http-inject_http [] sc header wire free (inl refl) in
      injected ∙ ap ok (sym (ap (λ y. injected_header y header) injected))

  trip_with_span-sends :
      (sp : Span) (stop : Time) (trip : Tripped)
      → trip_with_span error_text t req sp stop ≡ trip
      → IsWire (propagated t req trip.span)
      → IsFresh http_carrier (with_baggage req (span_context trip.span)).header
      → inject_http []
          (propagated t req trip.span)
          (with_baggage req (span_context trip.span)).header
        ≡ ok trip.request.header
  trip_with_span-sends sp stop trip e = rw (← e) (
      let (same, context) = propagated-trip sp stop in
      rw (same, context, trip_with_span-request sp stop)
        (inject_http-request (propagated t req sp) (with_baggage req (span_context sp)).header))

-- A server whose tracer is no noop and shares spans, and that has no baggage handler and no request
-- sampler, joins the span of the client that sent it the request, where the client's context has both
-- identifiers and its header had no B3 keys, its baggage included: the next handler gets a Go context
-- with a span of the identifiers and of the debug flag of the client's span, noop or not, and of its
-- decision, or that of the client's request sampler where the client's span is recorded, where one
-- was made.
pub serve_http-round_trip :
    {W V : Type 0} (error_text : Error → Str) (t : Transport W) (h : ServerHandler)
    (tracer : Tracer V) (new_endpoint : Str → Option Endpoint)
    (next : Context → ServerRequest → Handled) (ctx : Context) (req : ClientRequest)
    (r : ServerRequest) (start stop start' stop' : Time) (w w' : W) (v : V) (trip : Tripped)
    → round_trip error_text t ctx req start stop w ≡ ok (trip, w')
    → IsWire (propagated t req trip.span)
    → IsFresh http_carrier (with_baggage req (span_context trip.span)).header
    → r.header ≡ trip.request.header
    → tracer.noop ≢ 1
    → tracer.shared_spans ≡ true
    → h.baggage ≡ none
    → h.request_sampler ≡ none
    → (served : Served V) × (sp : Span) × (serve_http error_text h tracer new_endpoint next r start'
          stop' v
        ≡ ok served)
      × (served.context ≡ some sp)
      × IsJoined tracer start' (wire_context (propagated t req trip.span)) (span_context sp) v
unfolding round_trip
serve_http-round_trip error_text t h tracer new_endpoint next ctx req r start stop start' stop' w w'
      v trip sent wire free same on shared no_baggage no_sampler =
    let ((sp, ctx', w1), started, ended) =
      bind-eq-ok
        (start_span_from_context error_text t.tracer start ctx (trip_name req)
          (kind_option client ∷ remote_endpoint_option t.remote_endpoint ∷ []) w)
        _ sent in
    let tripped : trip_with_span error_text t req sp stop ≡ trip = ground arith in
    serve_http-inject_http error_text h tracer new_endpoint next r start' stop' v []
      (propagated t req trip.span) (with_baggage req (span_context trip.span)).header on shared
      no_baggage no_sampler wire free (inl refl)
      (trip_with_span-sends t error_text req sp stop trip tripped wire free ∙ ap ok (sym same))

-- ===== src/Middleware/Transport/Results.antt =====
-- What the caller of a traced client gets, and what the span says of it.
use zipkin_go.Base.{
  ◌≡◌, refl, ap, ◌∙◌, arith, Option, none, some, List, [], ◌∷◌, ◌++◌, Str, lookup, if◌then◌else◌,
  pos, ltb_ℤ, Error, Outcome, ok, err, panic,
}
use zipkin_go.Strconv.{format_int}
use zipkin_go.Model.Spans.{Time}
use zipkin_go.Tracer.State.{Span, SpanImpl, noop_span, recording, span_context, is_noop}
use zipkin_go.Tracer.SpanCalls.{SpanCall, tag_error, finish_call}
use zipkin_go.Tracer.TagValues.{span_tags, or_else, first_tag, first_tag-append, run_calls-tags}
use zipkin_go.Middleware.ErrHandlers.{default_err_handler, tag_calls}
use zipkin_go.Middleware.SpanTrace.{TraceEvent, trace_all}
use zipkin_go.Middleware.SpanTrace.Laws.{trace_all-IsTrace, IsTrace-harmless}
use zipkin_go.Middleware.Transport.{ClientRequest, Response, ErrResponseReader, Transport}
use zipkin_go.Middleware.Transport.Trip.{
  with_header, baggage_headers, inject_into, sample_client_request, response_size_calls,
  read_error_body, response_calls, end_trip, trip_calls, record_trip, pass_trip, trip_with_span,
}
use zipkin_go.Middleware.Transport.Laws.{traced, traced-IsTrace}

-- The body of a response can be read to its end.
abbrev pub IsWhole : Outcome Response → Type 0
IsWhole (ok res) = res.body.failure ≡ none
IsWhole _ = Unit

read_error_body-same :
    (o : Option ErrResponseReader) (res : Response)
    → res.body.failure ≡ none
    → (read_error_body o res).1 ≡ res
unfolding read_error_body
read_error_body-same none res whole = refl
read_error_body-same (some f) res whole = ground arith

module _ {W : Type 0} (t : Transport W) where
  response_calls-same : (res : Response) → res.body.failure ≡ none → (response_calls t res).1 ≡ res
  unfolding response_calls
  response_calls-same res whole =
      ground (arith, read_error_body-same t.err_response_reader res whole)

  end_trip-same : (r : Outcome Response) (stop : Time) → IsWhole r → (end_trip t r stop).1 ≡ r
  unfolding end_trip
  end_trip-same (ok res) stop whole = ap ok (response_calls-same res whole)
  end_trip-same (err e) stop whole = refl
  end_trip-same (panic p) stop whole = refl

  -- The caller gets what the wrapped round tripper returned for the request that it got, an error or
  -- a panic included, and a body with the same bytes where that can be read to its end, whether or
  -- not the span is recorded and whatever reads the body of an error.
  pub trip_with_span-returned :
      (error_text : Error → Str) (req : ClientRequest) (sp : Span) (stop : Time)
      → IsWhole (t.rt (trip_with_span error_text t req sp stop).request).returned
      → (trip_with_span error_text t req sp stop).returned
        ≡ (t.rt (trip_with_span error_text t req sp stop).request).returned
  unfolding trip_with_span is_noop record_trip pass_trip
  trip_with_span-returned error_text req (noop_span sc) stop whole = refl
  trip_with_span-returned error_text req (recording s) stop whole = end_trip-same _ stop whole

  first_error-trip_calls :
      (error_text : Error → Str) (req : ClientRequest) (events : List (Time × TraceEvent))
      (ended : List SpanCall)
      → first_tag tag_error (trip_calls error_text t req events ended)
        ≡ or_else (first_tag tag_error (tag_calls t.default_tags)) (first_tag tag_error ended)
  unfolding trip_calls
  first_error-trip_calls error_text req events ended =
      let trace = traced t.http_trace (trace_all error_text events) in
      let tags = tag_calls t.default_tags in
      let (a, b, c, d) =
        IsTrace-harmless trace tag_error refl
          (traced-IsTrace t.http_trace _ (trace_all-IsTrace error_text events)) in
      first_tag-append tag_error tags _
      ∙ ap (or_else (first_tag tag_error tags)) (first_tag-append tag_error trace ended ∙ rw c refl)

-- Why a request failed: its error, or a status above 399.
abbrev pub failure_text : (Error → Str) → Outcome Response → Option Str
failure_text error_text (ok res) =
    if ltb_ℤ (pos 399) res.status_code then some (format_int res.status_code) else none
failure_text error_text (err e) = some (error_text e)
failure_text error_text (panic p) = none

module _ {W : Type 0} (t : Transport W) (error_text : Error → Str)
    (default : t.err_handler ≡ default_err_handler error_text) where
  first_error-response_calls :
      (res : Response) (stop : Time)
      → first_tag tag_error ((response_calls t res).0 ++ finish_call stop ∷ [])
        ≡ (if ltb_ℤ (pos 399) res.status_code then some (format_int res.status_code) else none)
  unfolding response_calls response_size_calls default_err_handler
  first_error-response_calls res stop = rw (response_calls, default) (ground arith)

  first_error-end_trip :
      (r : Outcome Response) (stop : Time)
      → first_tag tag_error (end_trip t r stop).0 ≡ failure_text error_text r
  unfolding end_trip default_err_handler
  first_error-end_trip (ok res) stop = first_error-response_calls res stop
  first_error-end_trip (err e) stop = rw default refl
  first_error-end_trip (panic p) stop = refl

  -- With the default error handler, the error tag of a recorded span says at the end of the request
  -- why it failed, by the text of the error or by the status of a response above 399, and is absent
  -- where it did not, unless the span or the default tags had one before, which stays: whatever
  -- callbacks of the trace ran and whatever reads the body of an error.
  pub trip_with_span-error_tag :
      (req : ClientRequest) (s : SpanImpl) (stop : Time)
      → lookup tag_error (span_tags (trip_with_span error_text t req (recording s) stop).span)
        ≡ or_else (lookup tag_error s.tags) (
            or_else (first_tag tag_error (tag_calls t.default_tags)) (
              failure_text error_text
                (t.rt (trip_with_span error_text t req (recording s) stop).request).returned))
  unfolding trip_with_span is_noop record_trip span_context
  trip_with_span-error_tag req s stop =
      let req' = with_header req (baggage_headers s.context.baggage req.header) in
      let got = t.rt (inject_into (sample_client_request t.request_sampler req' s.context) req') in
      let ended = (end_trip t got.returned stop).0 in
      run_calls-tags (trip_calls error_text t req' got.events ended) s tag_error
      ∙ ap (or_else (lookup tag_error s.tags)) (
          first_error-trip_calls t error_text req' got.events ended
          ∙ ap (or_else (first_tag tag_error (tag_calls t.default_tags)))
              (first_error-end_trip got.returned stop))

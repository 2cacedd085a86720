-- ===== src/Middleware/Transport/Laws.antt =====
-- What a request of a traced client leaves behind.
use zipkin_go.Base.{
  ◌≡◌, refl, ◌∙◌, arith, Bool, true, false, ◌&&◌, Option, none, some, List, [], ◌∷◌, ◌++◌, Str,
  Dict, codes, length, if◌then◌else◌, ℤ, pos, Error, Outcome, ok, err, panic,
}
use zipkin_go.Model.Spans.{Time}
use zipkin_go.Tracer.State.{SpanImpl, recording, span_context, is_noop}
use zipkin_go.Tracer.SpanCalls.{SpanCall, is_sampled, tag_call, tag_error, finish_call}
use zipkin_go.Tracer.Sampling.{IsCollected}
use zipkin_go.Tracer.Reports.{
  is_finish, is_flush, any_call, any_call-append, count_calls, count_calls-append,
  run_calls-reports_once,
}
use zipkin_go.Middleware.ErrHandlers.{tag_calls, count_flushes-tag_calls}
use zipkin_go.Middleware.SpanTrace.{TraceEvent, trace_all}
use zipkin_go.Middleware.SpanTrace.Laws.{IsTrace, trace_all-IsTrace, IsTrace-harmless}
use zipkin_go.Middleware.Transport.{ClientRequest, Response, ErrResponseReader, Transport}
use zipkin_go.Middleware.Transport.Trip.{
  with_header, baggage_headers, inject_into, sample_client_request, response_size_calls,
  read_error_body, response_calls, end_trip, trip_calls, record_trip, trip_with_span,
}

-- A function that ends by returning, not by a panic.
abbrev pub returns {ℓ} : {A : Type ℓ} → Outcome A → Bool
returns (ok a) = true
returns (err e) = true
returns (panic p) = false

any_finish-tag_calls : (tags : Dict Str) → any_call is_finish (tag_calls tags) ≡ false
any_finish-tag_calls [] = refl
any_finish-tag_calls ((k, v) ∷ tags) = any_finish-tag_calls tags

-- The calls for a trace that is made or not.
abbrev pub traced : Bool → List SpanCall → List SpanCall
traced on cs = if on then cs else []

pub traced-IsTrace : (on : Bool) (cs : List SpanCall) → IsTrace cs → IsTrace (traced on cs)
traced-IsTrace true cs h = h
traced-IsTrace false cs h = tt

module _ {W : Type 0} (t : Transport W) where
  -- The handlers of errors and of error bodies leave the flushing of the span alone.
  pub record IsQuiet : Type 0 where
    pub handler : (e : Option Error) (code : ℤ) → count_calls is_flush (t.err_handler e code) ≡ 0
    pub reader :
        (f : ErrResponseReader) (body : Str)
        → t.err_response_reader ≡ some f
        → count_calls is_flush (f body) ≡ 0

  read_error_body-quiet :
      (o : Option ErrResponseReader) (res : Response)
      → ((f : ErrResponseReader) → o ≡ some f → count_calls is_flush (f res.body.bytes) ≡ 0)
      → count_calls is_flush (read_error_body o res).0 ≡ 0
  unfolding read_error_body
  read_error_body-quiet none res h = refl
  read_error_body-quiet (some f) res h = ground (arith, h f refl)

  response_calls-quiet :
      IsQuiet → (res : Response) → count_calls is_flush (response_calls t res).0 ≡ 0
  unfolding response_calls response_size_calls
  response_calls-quiet q res =
      let read = (read_error_body t.err_response_reader res).0 in
      ground (
        arith,
        count_calls-append is_flush (t.err_handler none res.status_code) read,
        q.handler none res.status_code,
        read_error_body-quiet t.err_response_reader res (λ f e. q.reader f res.body.bytes e),
      )

  end_trip-quiet :
      IsQuiet
      → (r : Outcome Response) (stop : Time) → count_calls is_flush (end_trip t r stop).0 ≡ 0
  unfolding end_trip
  end_trip-quiet q (ok res) stop = omega (
    arith,
    count_calls-append is_flush (response_calls t res).0 (finish_call stop ∷ []),
    response_calls-quiet q res,
  )
  end_trip-quiet q (err e) stop = omega (
    arith,
    count_calls-append is_flush (t.err_handler (some e) (pos 0)) (finish_call stop ∷ []),
    q.handler (some e) (pos 0),
  )
  end_trip-quiet q (panic p) stop = refl

  any_finish-last :
      (cs : List SpanCall) (stop : Time) → any_call is_finish (cs ++ finish_call stop ∷ []) ≡ true
  any_finish-last cs stop = ground (arith, any_call-append is_finish cs (finish_call stop ∷ []))

  end_trip-finishes :
      (r : Outcome Response) (stop : Time)
      → any_call is_finish (end_trip t r stop).0 ≡ returns (end_trip t r stop).1
  unfolding end_trip
  end_trip-finishes (ok res) stop = any_finish-last (response_calls t res).0 stop
  end_trip-finishes (err e) stop = any_finish-last (t.err_handler (some e) (pos 0)) stop
  end_trip-finishes (panic p) stop = refl

  module _ (error_text : Error → Str) (req : ClientRequest) where
    trip_calls-finish :
        (events : List (Time × TraceEvent)) (ended : List SpanCall)
        → (any_call is_finish (trip_calls error_text t req events ended) ≡ any_call is_finish ended)
          × (count_calls is_flush (trip_calls error_text t req events ended)
              ≡ count_calls is_flush ended)
    unfolding trip_calls
    trip_calls-finish events ended =
        let trace = traced t.http_trace (trace_all error_text events) in
        let tags = tag_calls t.default_tags in
        let rest =
          tag_call (codes "http.method") req.method
          ∷ tag_call (codes "http.path") req.path
          ∷ (trace ++ ended) in
        let (a, b, c, d) =
          IsTrace-harmless trace tag_error refl
            (traced-IsTrace t.http_trace _ (trace_all-IsTrace error_text events)) in
        (
          ground (
            arith,
            any_call-append is_finish tags rest,
            any_call-append is_finish trace ended,
            any_finish-tag_calls t.default_tags,
          ),
          omega (
            arith,
            count_calls-append is_flush tags rest,
            count_calls-append is_flush trace ended,
            count_flushes-tag_calls t.default_tags,
          ),
        )

  record_trip-reports :
      (error_text : Error → Str) (req : ClientRequest) (s : SpanImpl) (stop : Time)
      → IsQuiet
      → IsCollected (recording s)
      → s.flush_on_finish ≡ true
      → (let trip = record_trip error_text t req (recording s) stop in
          length trip.sent ≡ (if is_sampled s.context && returns trip.returned then 1 else 0))
  unfolding record_trip
  record_trip-reports error_text req s stop q c flushes =
      let sc = sample_client_request t.request_sampler req (span_context (recording s)) in
      let got = t.rt (inject_into sc req) in
      let ended = (end_trip t got.returned stop).0 in
      let (finished, flushed) = trip_calls-finish error_text req got.events ended in
      run_calls-reports_once (trip_calls error_text t req got.events ended) s _ c flushes
        (finished ∙ end_trip-finishes got.returned stop)
        (flushed ∙ end_trip-quiet q got.returned stop)

  -- The span of a request that is recorded, is sampled and flushes on finish is reported once, where
  -- the error handler and the reader of error bodies do not flush it, and where the wrapped round
  -- tripper returns a response or an error; it is not reported where that panics, or where the span
  -- is not sampled, whatever the request sampler decides.
  pub trip_with_span-reports :
      (error_text : Error → Str) (req : ClientRequest) (s : SpanImpl) (stop : Time)
      → IsQuiet
      → IsCollected (recording s)
      → s.flush_on_finish ≡ true
      → (let trip = trip_with_span error_text t req (recording s) stop in
          length trip.sent ≡ (if is_sampled s.context && returns trip.returned then 1 else 0))
  unfolding trip_with_span is_noop span_context
  trip_with_span-reports error_text req s stop q c flushes =
      record_trip-reports error_text
        (with_header req (baggage_headers s.context.baggage req.header)) s stop q c flushes

-- ===== src/Middleware/Requests.antt =====
-- What a request to a traced server leaves behind.
use zipkin_go.Base.{
  ℕ, ◌+◌, ◌≡◌, ◌≢◌, ◌⊎◌, refl, ap, ◌∙◌, arith, true, false, ◌||◌, Option, none, some, List, ◌∷◌,
  ◌++◌, All, Str, codes, str_eq, lookup, length, if◌then◌else◌, ℤ, pos, ltb_ℤ, ne→==_false, Error,
  ok,
}
use zipkin_go.Strconv.{format_int}
use zipkin_go.HttpHeader.{HttpHeader}
use zipkin_go.Model.Spans.{SpanContext, Endpoint, Time}
use zipkin_go.B3.Wire.{IsWire, IsDecided, wire_context}
use zipkin_go.B3.Carriers.{InjectOption, inject_options}
use zipkin_go.B3.Carriers.Kinds.{http_carrier, extract_http, inject_http}
use zipkin_go.B3.Carriers.RoundTrip.{IsFresh}
use zipkin_go.B3.Carriers.Errors.{extract_http-inject_http}
use zipkin_go.Tracer.State.{Tracer, Span, SpanImpl, recording, span_context, is_noop, Context}
use zipkin_go.Tracer.SpanCalls.{is_sampled, tag_error}
use zipkin_go.Tracer.TracerOptions.{extract_context}
use zipkin_go.Tracer.Start.{new_context}
use zipkin_go.Tracer.Lineage.Roots.{IsJoined, start_span-join}
use zipkin_go.Tracer.Sampling.{IsCollected}
use zipkin_go.Tracer.Reports.{
  is_finish, is_flush, any_call, any_call-append, count_calls, count_calls-append,
  run_calls-reports,
}
use zipkin_go.Tracer.TagValues.{span_tags, last_tag, last_tag-append, run_calls-tags}
use zipkin_go.Middleware.ErrHandlers.{default_err_handler, tag_calls, count_flushes-tag_calls}
use zipkin_go.Middleware.ResponseWriter.{
  ResponseCall, write_header, RwInterceptor, intercept, intercept-append, IsNoHeader,
  intercept-status_code,
}
use zipkin_go.Middleware.HttpServer.{
  ServerRequest, ServerHandler, Handled, store_baggage, sample_request, request_calls, status_calls,
  size_calls, exit_calls, Served, request_context, request_name, handle_request, serve_http,
}

count_flushes-request_calls :
    (h : ServerHandler) (e : Option Endpoint) (r : ServerRequest)
    → count_calls is_flush (request_calls h e r) ≡ 0
unfolding request_calls
count_flushes-request_calls h e r =
    rw
      (
        request_calls,
        count_calls-append is_flush (tag_calls h.default_tags),
        count_flushes-tag_calls,
      )
      (ground arith)

count_flushes-size_calls :
    (h : ServerHandler) (size : ℕ) → count_calls is_flush (size_calls h size) ≡ 0
unfolding size_calls
count_flushes-size_calls h size = ground arith

last_status-size_calls :
    (h : ServerHandler) (size : ℕ) → last_tag (codes "http.status_code") (size_calls h size) ≡ none
unfolding size_calls
last_status-size_calls h size = ground arith

-- What the deferred function tags last is on a recorded span at the end of the request.
pub handle_request-exit_tag :
    {W : Type 0} (h : ServerHandler) (endpoint : Option Endpoint)
    (next : Context → ServerRequest → Handled) (r : ServerRequest) (s : SpanImpl) (stop : Time)
    (w : W) (key v : Str)
    → str_eq key tag_error ≡ false
    → last_tag key (
        exit_calls h
          (intercept
            (next (some (recording s)) r).responses
            (record { size = 0; status_code = pos 200 }))
          stop)
      ≡ some v
    → lookup key (span_tags (handle_request h endpoint next r (recording s) stop w).span) ≡ some v
unfolding handle_request is_noop new_context
handle_request-exit_tag h endpoint next r s stop w key v other last =
    let handled = next (some (recording s)) r in
    let head = request_calls h endpoint r in
    let tail =
      exit_calls h (intercept handled.responses (record { size = 0; status_code = pos 200 }))
        stop in
    run_calls-tags (head ++ (handled.calls ++ tail)) s key
    ∙ ground (
      arith,
      last_tag-append key head (handled.calls ++ tail),
      last_tag-append key handled.calls tail,
    )

module _ (error_text : Error → Str) (h : ServerHandler)
    (default : h.err_handler ≡ default_err_handler error_text) where
  count_flushes-status_calls : (code : ℤ) → count_calls is_flush (status_calls h code) ≡ 0
  unfolding status_calls default_err_handler
  count_flushes-status_calls code = rw (status_calls, default) (ground arith)

  last_status-status_calls :
      (code : ℤ)
      → last_tag (codes "http.status_code") (status_calls h code)
        ≡ (if ltb_ℤ code (pos 200) || ltb_ℤ (pos 299) code then some (format_int code) else none)
  unfolding status_calls default_err_handler
  last_status-status_calls code = rw (status_calls, default) (ground arith)

  count_flushes-exit_calls :
      (ri : RwInterceptor) (stop : Time) → count_calls is_flush (exit_calls h ri stop) ≡ 0
  unfolding exit_calls
  count_flushes-exit_calls ri stop =
      rw
        (
          exit_calls,
          count_calls-append is_flush (status_calls h ri.status_code),
          count_calls-append is_flush (size_calls h ri.size),
          count_flushes-status_calls,
          count_flushes-size_calls,
        )
        refl

  finishes-exit_calls :
      (ri : RwInterceptor) (stop : Time) → any_call is_finish (exit_calls h ri stop) ≡ true
  unfolding exit_calls
  finishes-exit_calls ri stop =
      rw
        (
          exit_calls,
          any_call-append is_finish (status_calls h ri.status_code),
          any_call-append is_finish (size_calls h ri.size),
        )
        (ground arith)

  last_status-exit_calls :
      (ri : RwInterceptor) (stop : Time)
      → last_tag (codes "http.status_code") (exit_calls h ri stop) ≡ (
          if ltb_ℤ ri.status_code (pos 200) || ltb_ℤ (pos 299) ri.status_code
          then some (format_int ri.status_code)
          else none)
  unfolding exit_calls
  last_status-exit_calls ri stop =
      rw
        (
          exit_calls,
          last_tag-append (codes "http.status_code") (status_calls h ri.status_code),
          last_tag-append (codes "http.status_code") (size_calls h ri.size),
          last_status-size_calls,
        )
        (last_status-status_calls ri.status_code)

  -- With the default error handler, the span of a request that is recorded, is marked for collection,
  -- is sampled and flushes on finish has been reported once by the end of the request, whatever the
  -- next handler does, however often it finishes the span, and where it panics too; and once more for
  -- each time that the handler flushes the span. A span that is not sampled is not reported.
  pub handle_request-reports :
      {W : Type 0} (endpoint : Option Endpoint) (next : Context → ServerRequest → Handled)
      (r : ServerRequest) (s : SpanImpl) (stop : Time) (w : W)
      → IsCollected (recording s)
      → s.flush_on_finish ≡ true
      → length (handle_request h endpoint next r (recording s) stop w).sent ≡ (
          if is_sampled s.context
          then 1 + count_calls is_flush (next (some (recording s)) r).calls
          else 0)
  unfolding handle_request is_noop new_context
  handle_request-reports endpoint next r s stop w c flushes =
      let handled = next (some (recording s)) r in
      let ri = intercept handled.responses (record { size = 0; status_code = pos 200 }) in
      let head = request_calls h endpoint r in
      let tail = exit_calls h ri stop in
      let finished : any_call is_finish (head ++ (handled.calls ++ tail)) ≡ true = ground (
        arith,
        any_call-append is_finish head (handled.calls ++ tail),
        any_call-append is_finish handled.calls tail,
        finishes-exit_calls ri stop,
      ) in
      let flushed : count_calls is_flush (head ++ (handled.calls ++ tail))
          ≡ count_calls is_flush handled.calls =
        omega (
          arith,
          count_calls-append is_flush head (handled.calls ++ tail),
          count_calls-append is_flush handled.calls tail,
          count_flushes-request_calls h endpoint r,
          count_flushes-exit_calls ri stop,
        ) in
      run_calls-reports (head ++ (handled.calls ++ tail)) s c
      ∙ rw (finished, flushed, flushes) (ground arith)

  -- With the default error handler, where the last status that the next handler passed to `WriteHeader`,
  -- which need not be the first, is below 200 or above 299, that status is on a recorded span at the end
  -- of the request, as the last value of its tag, whatever the next handler set there, and where it
  -- panics too.
  pub handle_request-status :
      {W : Type 0} (endpoint : Option Endpoint) (next : Context → ServerRequest → Handled)
      (r : ServerRequest) (s : SpanImpl) (stop : Time) (w : W) (code : ℤ)
      (before after : List ResponseCall)
      → (next (some (recording s)) r).responses ≡ before ++ write_header code ∷ after
      → All IsNoHeader after
      → (ltb_ℤ code (pos 200) || ltb_ℤ (pos 299) code) ≡ true
      → lookup
          (codes "http.status_code")
          (span_tags (handle_request h endpoint next r (recording s) stop w).span)
        ≡ some (format_int code)
  unfolding intercept
  handle_request-status endpoint next r s stop w code before after wrote none_after failed =
      let start : RwInterceptor = record { size = 0; status_code = pos 200 } in
      let at : (intercept (next (some (recording s)) r).responses start).status_code ≡ code =
        ap (λ x. (intercept x start).status_code) wrote
        ∙ ap (λ x. x.status_code) (intercept-append before (write_header code ∷ after) start)
        ∙ intercept-status_code after _ none_after in
      handle_request-exit_tag h endpoint next r s stop w (codes "http.status_code")
        (format_int code) refl (rw (last_status-exit_calls _ stop, at, failed) refl)

-- A server whose tracer is no noop and shares spans, and that has no baggage handler and no request
-- sampler, joins the span whose context, with both identifiers, a client injected into a header
-- without B3 keys, whatever the client's options, if they ask for the separate headers, or for the
-- single header alone and the context has no parent or is decided: the next handler gets a Go
-- context with a span of the client's identifiers and debug flag, and of the client's decision,
-- where it made one.
pub serve_http-inject_http :
    {W : Type 0} (error_text : Error → Str) (h : ServerHandler) (t : Tracer W)
    (new_endpoint : Str → Option Endpoint) (next : Context → ServerRequest → Handled)
    (r : ServerRequest) (start stop : Time) (w : W) (opts : List InjectOption) (sc : SpanContext)
    (fresh : HttpHeader)
    → t.noop ≢ 1
    → t.shared_spans ≡ true
    → h.baggage ≡ none
    → h.request_sampler ≡ none
    → IsWire sc
    → IsFresh http_carrier fresh
    → ((inject_options opts).should_inject_multi_header ≡ true)
      ⊎ (((inject_options opts).should_inject_single_header ≡ true)
          × ((sc.parent_id ≡ none) ⊎ IsDecided sc))
    → inject_http opts sc fresh ≡ ok r.header
    → (served : Served W) × (sp : Span) × (serve_http error_text h t new_endpoint next r start stop
          w
        ≡ ok served)
      × (served.context ≡ some sp)
      × IsJoined t start (wire_context sc) (span_context sp) w
unfolding serve_http request_context store_baggage sample_request extract_context handle_request
    new_context
serve_http-inject_http error_text h t new_endpoint next r start stop w opts sc fresh on shared
      no_baggage no_sampler wire free asks sent =
    let (header, injected, extracted) = extract_http-inject_http opts sc fresh wire free asks in
    let same : header ≡ r.header = ground arith in
    let got : extract_http r.header ≡ ok (wire_context sc) = rw (← same) extracted in
    let (sp, w', started, joined) =
      start_span-join t start error_text (wire_context sc) (request_name h r) w on shared refl
        wire.has_trace in
    (
      handle_request h (new_endpoint r.remote_addr) next r sp stop w',
      sp,
      rw (got, ne→==_false t.noop 1 on, no_baggage, no_sampler, started) refl,
      refl,
      joined,
    )

-- ===== src/Middleware/Client/Laws.antt =====
-- The transport that `NewClient` installs, and the life of an application span.
use zipkin_go.Base.{
  ◌≡◌, refl, ap, sym, ◌∙◌, arith, Bool, true, false, ◌&&◌, ◌||◌, Option, none, some, List, [], ◌∷◌,
  ◌++◌, Str, codes, length, if◌then◌else◌, Error, ok,
}
use zipkin_go.Model.Spans.{SpanModel, Time}
use zipkin_go.Tracer.State.{Span, SpanImpl, recording, Context}
use zipkin_go.Tracer.SpanCalls.{SpanCall, run_calls, is_sampled, tag_call}
use zipkin_go.Tracer.Start.{new_context}
use zipkin_go.Tracer.Sampling.{IsCollected}
use zipkin_go.Tracer.Reports.{
  is_finish, is_flush, any_call, any_call-append, count_calls, count_calls-append, run_calls-append,
  run_calls-reports_once,
}
use zipkin_go.Middleware.Transport.{
  ClientRequest, RoundTripper, Transport, TransportOption, run_transport_options, round_tripper,
  transport_trace, transport_remote_endpoint, initial_transport, new_transport,
}
use zipkin_go.Middleware.Transport.Trip.{response_size_calls}
use zipkin_go.Middleware.Transport.Laws.{returns}
use zipkin_go.Middleware.Client.{
  Client, install, Doing, DoResult, responded, failed, panicked, app_response_calls,
  app_result_calls, do_with_span, Closing, close_calls, close, close_all,
}

abbrev pub has_failed : DoResult → Bool
has_failed (failed res e) = true
has_failed _ = false

abbrev pub any_returns : List Closing → Bool
any_returns [] = false
any_returns (c ∷ cs) = returns c.inner || any_returns cs

-- The calls of all closings.
abbrev closing_calls : Bool → List Closing → List SpanCall
closing_calls on [] = []
closing_calls on (c ∷ cs) = close_calls on c ++ closing_calls on cs

close_all-run_calls :
    (on : Bool) (cs : List Closing) (sp : Span)
    → close_all on cs sp ≡ run_calls (closing_calls on cs) sp
unfolding close_all close run_calls
close_all-run_calls on [] sp = refl
close_all-run_calls on (c ∷ cs) sp =
    let (sp', sent) = run_calls (close_calls on c) sp in
    ap (λ (p : Span × List SpanModel). (p.0, sent ++ p.1)) (close_all-run_calls on cs sp')
    ∙ sym (run_calls-append (close_calls on c) (closing_calls on cs) sp)

closing_calls-finish :
    (on : Bool) (cs : List Closing)
    → (any_call is_finish (closing_calls on cs) ≡ any_returns cs)
      × (count_calls is_flush (closing_calls on cs) ≡ 0)
unfolding close_calls
closing_calls-finish on [] = (refl, refl)
closing_calls-finish on (c ∷ cs) = ground (
  arith,
  any_call-append is_finish (close_calls on c) (closing_calls on cs),
  count_calls-append is_flush (close_calls on c) (closing_calls on cs),
  closing_calls-finish on cs,
)

app_result_calls-finish :
    (error_text : Error → Str) (on : Bool) (r : DoResult) (now : Time)
    → (any_call is_finish (app_result_calls error_text on r now) ≡ has_failed r)
      × (count_calls is_flush (app_result_calls error_text on r now) ≡ 0)
unfolding app_result_calls app_response_calls response_size_calls
app_result_calls-finish error_text on (responded res) now = ground arith
app_result_calls-finish error_text on (failed res e) now = (refl, refl)
app_result_calls-finish error_text on (panicked p) now = (refl, refl)

-- An application span that is recorded and flushes on finish, and that `Do` neither finishes nor
-- flushes, is sent to the reporter once if it is sampled and `Do` fails, or returns a response whose
-- body is closed by a call that does not panic, however often it is closed; otherwise it is not sent.
pub do_with_span-reports :
    (error_text : Error → Str) (http_trace : Bool) (do_request : Context → ClientRequest → Doing)
    (ctx : Context) (req : ClientRequest) (now : Time) (s : SpanImpl) (cs : List Closing)
    → IsCollected (recording s)
    → s.flush_on_finish ≡ true
    → any_call is_finish (do_request (some (recording s)) req).calls ≡ false
    → count_calls is_flush (do_request (some (recording s)) req).calls ≡ 0
    → (let done = do_with_span error_text http_trace do_request ctx req now (recording s) in
        length (done.sent ++ (close_all http_trace cs done.span).1)
        ≡ (if is_sampled s.context && (has_failed done.result || any_returns cs) then 1 else 0))
unfolding do_with_span new_context
do_with_span-reports error_text http_trace do_request ctx req now s cs c flushes open_still quiet =
    let doing = do_request (some (recording s)) req in
    let ended = app_result_calls error_text http_trace doing.result now in
    let calls =
      tag_call (codes "http.method") req.method
      ∷ tag_call (codes "http.path") req.path
      ∷ (doing.calls ++ ended) in
    let closing = closing_calls http_trace cs in
    let (finished, flushed) = app_result_calls-finish error_text http_trace doing.result now in
    let (finished', flushed') = closing_calls-finish http_trace cs in
    ap (λ (p : Span × List SpanModel). length ((run_calls calls (recording s)).1 ++ p.1))
      (close_all-run_calls http_trace cs (run_calls calls (recording s)).0)
    ∙ ap (λ (p : Span × List SpanModel). length p.1)
        (sym (run_calls-append calls closing (recording s)))
    ∙ run_calls-reports_once (calls ++ closing) s _ c flushes
        (ground (
          arith,
          any_call-append is_finish (doing.calls ++ ended) closing,
          any_call-append is_finish doing.calls ended,
        ))
        (omega (
          arith,
          count_calls-append is_flush (doing.calls ++ ended) closing,
          count_calls-append is_flush doing.calls ended,
        ))

run_transport_options-append :
    {W : Type 0} (xs ys : List (TransportOption W)) (t : Transport W)
    → run_transport_options (xs ++ ys) t ≡ run_transport_options ys (run_transport_options xs t)
run_transport_options-append [] ys t = refl
run_transport_options-append (x ∷ xs) ys t = run_transport_options-append xs ys (x t)

abbrev pub given_or : Option RoundTripper → RoundTripper → RoundTripper
given_or none rt = rt
given_or (some rt') rt = rt'

round_tripper-given_or :
    {W : Type 0} (o : Option RoundTripper) (t : Transport W)
    → round_tripper o t ≡ record t { rt = given_or o t.rt }
unfolding round_tripper
round_tripper-given_or none t = refl
round_tripper-given_or (some rt) t = refl

-- `NewClient` installs the transport that `NewTransport` makes of the tracer and the options that were
-- given for it, but with the tracing and the remote endpoint of the client, and with the transport of
-- the embedded client, where that has one, as the wrapped round tripper.
pub install-new_transport :
    {W : Type 0} (error_text : Error → Str) (default_transport : RoundTripper) (c : Client W)
    → (t : Transport W) × (c' : Client W) × (new_transport error_text default_transport
          (some c.tracer)
          c.transport_options
        ≡ ok t)
      × (install error_text default_transport c ≡ ok c')
      × (c'.installed
          ≡ some (record t {
            rt = given_or c.http_transport t.rt;
            http_trace = c.http_trace;
            remote_endpoint = c.remote_endpoint;
          }))
unfolding install new_transport round_tripper transport_trace transport_remote_endpoint
install-new_transport {W} error_text default_transport c =
    let start = initial_transport error_text default_transport c.tracer in
    let t = run_transport_options c.transport_options start in
    let own =
      round_tripper c.http_transport
      ∷ transport_trace c.http_trace
      ∷ transport_remote_endpoint c.remote_endpoint
      ∷ [] in
    let options = c.transport_options ++ own in
    (
      t,
      record c {
        transport_options = options;
        installed = some (run_transport_options options start);
      },
      refl,
      refl,
      ap some (
          run_transport_options-append c.transport_options own start
          ∙ ap
              (λ (x : Transport W). record x {
                http_trace = c.http_trace;
                remote_endpoint = c.remote_endpoint;
              })
              (round_tripper-given_or c.http_transport t)),
    )

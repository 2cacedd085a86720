-- ===== src/Middleware/HttpServer.antt =====
-- middleware/http/server.go. The next handler stands for what it does: what it writes to the response,
-- its calls on the span, and whether it panics. What the response itself becomes is the wrapped writer's.
use zipkin_go.Base.{
  ℕ, Bool, false, ◌&&◌, ◌||◌, Option, none, some, List, [], ◌∷◌, ◌++◌, Str, Dict, codes, str_eq,
  ltb, if◌then◌else◌, ℤ, pos, ltb_ℤ, Error, Outcome, ok, ◌>>=◌,
}
use zipkin_go.Middleware.ResponseWriter.{ResponseCall, RwInterceptor, intercept}
use zipkin_go.Middleware.ErrHandlers.{ErrHandler, default_err_handler, tag_calls}
use zipkin_go.Strconv.{format_uint, format_int}
use zipkin_go.HttpHeader.{HttpHeader}
use zipkin_go.Model.Baggage.{Baggage, new_fields, add_field}
use zipkin_go.Model.Spans.{SpanContext, SpanModel, Endpoint, Time, server}
use zipkin_go.B3.Carriers.Kinds.{extract_http}
use zipkin_go.Tracer.State.{Tracer, Span, is_noop, Context}
use zipkin_go.Tracer.SpanCalls.{
  SpanCall, tag_call, set_remote_endpoint_call, finish_call, run_calls,
}
use zipkin_go.Tracer.SpanOptions.{kind_option, parent}
use zipkin_go.Tracer.TracerOptions.{extract_context}
use zipkin_go.Tracer.Start.{start_span, new_context}

-- The parts of an `*http.Request` that the code reads.
pub record ServerRequest : Type 0 where
  pub method : Str
  pub path : Str
  pub content_length : ℤ
  pub remote_addr : Str
  pub header : HttpHeader

pub record ServerHandler : Type 0 where
  pub name : Str
  pub default_tags : Dict Str
  pub tag_response_size : Bool
  pub request_sampler : Option (ServerRequest → Option Bool)
  pub err_handler : ErrHandler
  pub baggage : Option Baggage

abbrev pub ServerOption : Type 0
ServerOption = ServerHandler → ServerHandler

unfoldable pub server_tags : Dict Str → ServerOption
server_tags tags h = record h { default_tags = tags }

unfoldable pub tag_response_size_option : Bool → ServerOption
tag_response_size_option enabled h = record h { tag_response_size = enabled }

unfoldable pub span_name_option : Str → ServerOption
span_name_option name h = record h { name = name }

unfoldable pub request_sampler_option : Option (ServerRequest → Option Bool) → ServerOption
request_sampler_option f h = record h { request_sampler = f }

unfoldable pub server_err_handler : ErrHandler → ServerOption
server_err_handler eh h = record h { err_handler = eh }

unfoldable pub enable_baggage : Option Baggage → ServerOption
enable_baggage b h = record h { baggage = b }

abbrev pub run_server_options : List ServerOption → ServerOption
run_server_options [] h = h
run_server_options (o ∷ os) h = run_server_options os (o h)

unfoldable pub new_server_handler : (Error → Str) → List ServerOption → ServerHandler
unfolding default_err_handler
new_server_handler error_text opts = run_server_options opts (record {
  name = [];
  default_tags = [];
  tag_response_size = false;
  request_sampler = none;
  err_handler = default_err_handler error_text;
  baggage = none;
})

-- What the next handler does.
pub record Handled : Type 0 where
  pub responses : List ResponseCall
  pub calls : List SpanCall
  pub returned : Outcome (Unit {0})

-- `Add` for each field of the header, in some order.
unfoldable pub add_headers : HttpHeader → Baggage → Outcome Baggage
add_headers [] b = ok b
add_headers ((key, values) ∷ fields) b = do (b', _) ← add_field b key values; add_headers fields b'

unfoldable pub store_baggage : Option Baggage → HttpHeader → SpanContext → Outcome SpanContext
unfolding add_headers
store_baggage none header sc = ok sc
store_baggage (some handler) header sc = do
  b ← add_headers header (new_fields handler)
  ok (record sc { baggage = some b })

unfoldable pub sample_request :
    Option (ServerRequest → Option Bool) → ServerRequest → SpanContext → SpanContext
sample_request none r sc = sc
sample_request (some f) r sc = elim (f r) [ none ↦ sc | some b ↦ record sc { sampled = some b } ]

-- What is set on the span before the next handler runs; `endpoint` is that of the remote address.
unfoldable pub request_calls : ServerHandler → Option Endpoint → ServerRequest → List SpanCall
request_calls h endpoint r =
    set_remote_endpoint_call endpoint
    ∷ (tag_calls h.default_tags
        ++ (tag_call (codes "http.method") r.method
            ∷ tag_call (codes "http.path") r.path
            ∷ (if ltb_ℤ (pos 0) r.content_length
                then tag_call (codes "http.request.size") (format_int r.content_length) ∷ []
                else [])))

unfoldable pub status_calls : ServerHandler → ℤ → List SpanCall
status_calls h code =
    if ltb_ℤ code (pos 200) || ltb_ℤ (pos 299) code
    then tag_call (codes "http.status_code") (format_int code)
      ∷ (if ltb_ℤ (pos 399) code then h.err_handler none code else [])
    else []

unfoldable pub size_calls : ServerHandler → ℕ → List SpanCall
size_calls h size =
    if h.tag_response_size && ltb 0 size
    then tag_call (codes "http.response.size") (format_uint size) ∷ []
    else []

-- The deferred function, which runs on a panic too.
unfoldable pub exit_calls : ServerHandler → RwInterceptor → Time → List SpanCall
unfolding status_calls size_calls
exit_calls h ri stop =
    status_calls h ri.status_code ++ (size_calls h ri.size ++ finish_call stop ∷ [])

-- What a request leaves: the span at its end, the Go context that the next handler got, what was sent to
-- the reporter, and whether the handler returned.
pub record Served (W : Type 0) : Type 0 where
  pub span : Span
  pub context : Context
  pub sent : List SpanModel
  pub returned : Outcome (Unit {0})
  pub state : W

unfoldable pub request_context :
    {W : Type 0} → ServerHandler → Tracer W → ServerRequest → Outcome SpanContext
unfolding store_baggage sample_request
request_context h t r = do
  sc ← extract_context t (extract_http r.header)
  sc' ← store_baggage h.baggage r.header sc
  ok (sample_request h.request_sampler r sc')

unfoldable pub request_name : ServerHandler → ServerRequest → Str
request_name h r = if str_eq h.name [] then r.method else h.name

unfoldable pub handle_request :
    {W : Type 0}
    → ServerHandler
    → Option Endpoint
    → (Context → ServerRequest → Handled)
    → ServerRequest
    → Span
    → Time
    → W
    → Served W
unfolding request_calls exit_calls intercept
handle_request h endpoint next r sp stop w =
    let ctx = new_context none sp in
    let handled = next ctx r in
    let calls =
      if is_noop sp
      then handled.calls
      else request_calls h endpoint r
        ++ (handled.calls
            ++ exit_calls h
                (intercept handled.responses (record { size = 0; status_code = pos 200 })) stop) in
    let (sp', sent) = run_calls calls sp in
    record { span = sp'; context = ctx; sent = sent; returned = handled.returned; state = w }

-- `ServeHTTP`, with the clock at its start and at its end.
unfoldable pub serve_http :
    {W : Type 0}
    → (Error → Str)
    → ServerHandler
    → Tracer W
    → (Str → Option Endpoint)
    → (Context → ServerRequest → Handled)
    → ServerRequest
    → Time
    → Time
    → W
    → Outcome (Served W)
unfolding request_context request_name handle_request
serve_http error_text h t new_endpoint next r start stop w = do
  sc ← request_context h t r
  (sp, w') ←
      start_span t start (request_name h r) (kind_option server ∷ parent error_text sc ∷ []) w
  ok (handle_request h (new_endpoint r.remote_addr) next r sp stop w')

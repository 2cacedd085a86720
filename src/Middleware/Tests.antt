-- ===== src/Middleware/Tests.antt =====
-- A server at which the theorems on its requests are applied.
use zipkin_go.Base.{
  ℕ, ◌+◌, ◌≡◌, ◌≢◌, refl, arith, inl, inr, Bool, true, false, Option, none, some, List, [], ◌∷◌,
  Str, Dict, codes, lookup, length, if◌then◌else◌, ℤ, pos, Error, Outcome, ok,
}
use zipkin_go.Strconv.{format_int, format_uint}
use zipkin_go.HttpHeader.{HttpHeader}
use zipkin_go.Model.Spans.{SpanModel, SpanContext, Endpoint, empty_context}
use zipkin_go.B3.Wire.{IsWire}
use zipkin_go.B3.Carriers.{with_single_header_only}
use zipkin_go.B3.Carriers.Kinds.{http_carrier, inject_http}
use zipkin_go.B3.Carriers.RoundTrip.{IsFresh}
use zipkin_go.Tracer.State.{
  Tracer, Span, SpanImpl, recording, span_context, blank_span, policy_restart, Context,
}
use zipkin_go.Tracer.SpanCalls.{flush_call, finish_call, is_sampled}
use zipkin_go.Tracer.Lineage.Roots.{IsJoined}
use zipkin_go.Tracer.Reports.{is_flush, count_calls}
use zipkin_go.Tracer.TagValues.{span_tags}
use zipkin_go.Model.Spans.{client}
use zipkin_go.Model.TraceIds.{trace_id_empty}
use zipkin_go.B3.Carriers.Kinds.{grpc_carrier, Metadata, extract_grpc}
use zipkin_go.Tracer.SpanOptions.{kind_option, remote_endpoint_option}
use zipkin_go.Tracer.Start.{start_span_from_context}
use zipkin_go.Middleware.Grpc.{
  GrpcServer, GrpcClient, server_tags_option, with_remote_service_name, new_grpc_server_handler,
  new_grpc_client_handler, rpc_span_name, tag_rpc_client, tag_rpc_server,
}
use zipkin_go.Middleware.Grpc.Propagation.{tag_rpc_server-tag_rpc_client}
use zipkin_go.Middleware.ErrHandlers.{default_err_handler}
use zipkin_go.Middleware.ResponseWriter.{
  write_header, write_body, read_from, flusher, wrap, has_interface, has_interface-wrap,
}
use zipkin_go.Middleware.Sizes.{handle_request-size}
use zipkin_go.Middleware.HttpServer.{
  ServerRequest, ServerHandler, Handled, Served, handle_request, serve_http,
}
use zipkin_go.Middleware.Requests.{
  handle_request-reports, handle_request-status, serve_http-inject_http,
}

abbrev pub no_text : Error → Str
no_text e = []

abbrev pub handler : ServerHandler
handler = record {
  name = [];
  default_tags = (codes "zone", codes "a") ∷ [];
  tag_response_size = true;
  request_sampler = none;
  err_handler = default_err_handler no_text;
  baggage = none;
}

abbrev pub tracer : Tracer ℕ
tracer = record {
  default_tags = [];
  extract_failure_policy = policy_restart;
  sampler = λ id w. (true, w);
  generate = record {
    span_id = λ t w. (w + 1, w + 1);
    trace_id = λ w. (record { high = 0; low = w + 1 }, w + 1);
  };
  local_endpoint = none;
  noop = 0;
  shared_spans = true;
  unsampled_noop = false;
}

abbrev sent : SpanContext
sent = record empty_context { trace_id = record { high = 0; low = 5 }; id = 6; sampled = some true }

sent-IsWire : IsWire sent
unfolding zipkin_go.Model.TraceIds.trace_id_empty
sent-IsWire = record {
  trace_bound = record { high_bound = omega arith; low_bound = omega arith };
  has_trace = refl;
  has_span = omega arith;
  span_bound = omega arith;
  parent_bound = λ p e. ground arith;
}

abbrev request : ServerRequest
request = record {
  method = codes "GET";
  path = codes "/";
  content_length = pos 0;
  remote_addr = codes "127.0.0.1:80";
  header = (codes "B3", codes "0000000000000005-0000000000000006-1" ∷ []) ∷ [];
}

-- A handler that sets a status twice and fails, and flushes the span itself.
abbrev pub fails : Context → ServerRequest → Handled
fails ctx r = record {
  responses = write_header (pos 404) ∷ write_header (pos 503) ∷ write_body 7 7 ∷ [];
  calls = flush_call ∷ finish_call (pos 150) ∷ [];
  returned = ok tt;
}

abbrev pub recorded : SpanImpl
recorded = record {
  model = record blank_span.model { context = sent };
  must_collect = 1;
  flush_on_finish = true;
}

abbrev pub no_endpoint : Str → Option Endpoint
no_endpoint a = none

handle_request-reports_example :
    length (handle_request {W = ℕ} handler none fails request (recording recorded) (pos 200) 0).sent
    ≡ (if is_sampled sent
        then 1 + count_calls is_flush (flush_call ∷ finish_call (pos 150) ∷ [])
        else 0)
handle_request-reports_example =
    handle_request-reports no_text handler refl none fails request recorded (pos 200) 0 refl refl

handle_request-status_example :
    lookup (codes "http.status_code") (
      span_tags
        (handle_request {W = ℕ} handler none fails request (recording recorded) (pos 200) 0).span)
    ≡ some (format_int (pos 503))
handle_request-status_example =
    handle_request-status no_text handler refl none fails request recorded (pos 200) 0 (pos 503)
      (write_header (pos 404) ∷ []) (write_body 7 7 ∷ []) refl (tt, tt) refl

formats : format_int (pos 503) ≡ codes "503"
unfolding format_int
formats = refl

pub no_header-IsFresh : IsFresh http_carrier []
unfolding zipkin_go.HttpHeader.get lookup
no_header-IsFresh k = refl

injects : inject_http (with_single_header_only ∷ []) sent [] ≡ ok request.header
unfolding inject_http zipkin_go.B3.Carriers.is_zero_context zipkin_go.Model.TraceIds.trace_id_empty
    zipkin_go.HttpHeader.set zipkin_go.Base.insert zipkin_go.HttpHeader.canonical_key
    zipkin_go.B3.Single.build_single_header zipkin_go.Base.join
    zipkin_go.Model.TraceIds.trace_id_string zipkin_go.Strconv.hex_pad
    zipkin_go.Model.SpanIds.span_id_string
injects = refl

serve_http-inject_http_example :
    (served : Served ℕ) × (sp : Span) × (serve_http no_text handler tracer no_endpoint fails request
        (pos 100)
        (pos 200)
        0
      ≡ ok served)
    × (served.context ≡ some sp)
    × IsJoined tracer (pos 100) sent (span_context sp) 0
serve_http-inject_http_example =
    serve_http-inject_http no_text handler tracer no_endpoint fails request (pos 100) (pos 200) 0
      (with_single_header_only ∷ []) sent [] (omega arith) refl refl refl sent-IsWire
      no_header-IsFresh (inr (refl, inl refl)) injects

abbrev rpc_span : SpanImpl
rpc_span = record {
  model = record blank_span.model {
    context = record empty_context {
      trace_id = record { high = 0; low = 1 };
      id = 2;
      sampled = some true;
    };
    name = codes "pkg.Svc.Get";
    kind = client;
    timestamp = pos 100;
  };
  must_collect = 1;
  flush_on_finish = true;
}

rpc_span-IsWire : IsWire rpc_span.context
unfolding trace_id_empty
rpc_span-IsWire = record {
  trace_bound = record { high_bound = omega arith; low_bound = omega arith };
  has_trace = refl;
  has_span = omega arith;
  span_bound = omega arith;
  parent_bound = λ p e. ground arith;
}

starts_rpc_span :
    start_span_from_context no_text tracer
      (pos 100)
      none
      (rpc_span_name (codes "/pkg.Svc/Get"))
      (kind_option client ∷ remote_endpoint_option none ∷ [])
      0
    ≡ ok (recording rpc_span, some (recording rpc_span), 2)
unfolding start_span_from_context zipkin_go.Tracer.Start.start_span
    zipkin_go.Tracer.SpanOptions.run_options kind_option remote_endpoint_option
    zipkin_go.Tracer.Start.span_from_context zipkin_go.Tracer.Start.start_recording
    zipkin_go.Tracer.Start.new_context zipkin_go.Tracer.Start.decide
    zipkin_go.Tracer.Start.assign_ids trace_id_empty zipkin_go.Tracer.Start.new_span rpc_span_name
starts_rpc_span = refl

no_metadata-IsFresh : IsFresh grpc_carrier []
unfolding zipkin_go.B3.Carriers.Kinds.get_grpc_header lookup
no_metadata-IsFresh k = refl

abbrev no_peer : Str → Str → Outcome (Option Endpoint)
no_peer name addr = ok none

abbrev grpc_server : GrpcServer
grpc_server = record { default_tags = (codes "zone", codes "a") ∷ []; baggage = none }

makes_grpc_server :
    new_grpc_server_handler (server_tags_option ((codes "zone", codes "a") ∷ []) ∷ []) ≡ grpc_server
unfolding new_grpc_server_handler server_tags_option
makes_grpc_server = refl

abbrev grpc_client : GrpcClient
grpc_client = record { remote_service_name = codes "pkg" }

makes_grpc_client :
    new_grpc_client_handler (with_remote_service_name (codes "pkg") ∷ []) ≡ grpc_client
unfolding new_grpc_client_handler with_remote_service_name
makes_grpc_client = refl

tag_rpc_server-tag_rpc_client_example :
    (md : Metadata) × (joined : Span) × (sent : List SpanModel) × (v' : ℕ) × (tag_rpc_client no_text
        no_peer tracer grpc_client none
        (some [])
        (codes "/pkg.Svc/Get")
        (pos 100)
        none
        0
      ≡ ok (some (recording rpc_span), md, 2))
    × (tag_rpc_server no_text no_peer tracer grpc_server none
          (some md)
          (codes "/pkg.Svc/Get")
          (pos 110)
          40
        ≡ ok (some joined, sent, v'))
    × IsJoined tracer (pos 110) rpc_span.context (span_context joined) 40
unfolding span_context
tag_rpc_server-tag_rpc_client_example =
    tag_rpc_server-tag_rpc_client no_text no_peer tracer tracer grpc_client grpc_server none none []
      (codes "/pkg.Svc/Get") (pos 100) (pos 110) none (some (recording rpc_span)) 0 2 40
      (recording rpc_span) none none refl refl starts_rpc_span rpc_span-IsWire refl
      no_metadata-IsFresh (omega arith) refl refl

has_interface-wrap_example : has_interface flusher (wrap false true false true false) ≡ true
has_interface-wrap_example = has_interface-wrap false true false true false flusher

-- Nine bytes by `Write`, of which the writer takes seven, and 100 by `ReadFrom`.
abbrev copies : Context → ServerRequest → Handled
copies ctx r = record {
  responses = write_body 9 7 ∷ read_from 100 ∷ [];
  calls = [];
  returned = ok tt;
}

handle_request-size_example :
    lookup (codes "http.response.size") (
      span_tags
        (handle_request {W = ℕ} handler none copies request (recording recorded) (pos 200) 0).span)
    ≡ some (format_uint 7)
handle_request-size_example =
    handle_request-size handler none copies request recorded (pos 200) 0 refl (omega arith)

-- ===== src/Middleware/Grpc/Propagation.antt =====
-- From a traced gRPC client to a traced server.
use zipkin_go.Base.{
  ◌≡◌, ◌≢◌, refl, ap, ◌∙◌, true, false, if◌then◌else◌, none, some, Option, List, [], ◌∷◌, Str,
  Error, Outcome, ok, ne→==_false,
}
use zipkin_go.Model.Spans.{SpanContext, SpanModel, Endpoint, Time, client, server}
use zipkin_go.Model.TraceIds.{trace_id_empty}
use zipkin_go.B3.Wire.{IsWire, wire_context}
use zipkin_go.B3.Carriers.Kinds.{Metadata, grpc_carrier, extract_grpc, inject_grpc}
use zipkin_go.B3.Carriers.RoundTrip.{IsFresh}
use zipkin_go.B3.Carriers.Errors.{extract_grpc-inject_grpc}
use zipkin_go.Tracer.State.{Tracer, Span, is_noop, span_context, Context}
use zipkin_go.Tracer.SpanCalls.{SpanCall, run_calls, with_model}
use zipkin_go.Tracer.SpanOptions.{kind_option, parent, remote_endpoint_option, run_options}
use zipkin_go.Tracer.TracerOptions.{extract_context}
use zipkin_go.Tracer.Start.{start_span_from_context, new_context, with_context, new_span}
use zipkin_go.Tracer.Reports.{span_context-run_calls}
use zipkin_go.Tracer.Lineage.Roots.{IsJoined, start_span-IsJoined}
use zipkin_go.Middleware.ErrHandlers.{tag_calls}
use zipkin_go.Middleware.HttpServer.{store_baggage}
use zipkin_go.Middleware.Grpc.{
  GrpcServer, GrpcClient, rpc_span_name, baggage_metadata, injected_or, outgoing_metadata,
  endpoint_or_none, remote_address, remote_endpoint_from_context, tag_rpc_server, tag_rpc_client,
}

outgoing_metadata-IsWire :
    (sc : SpanContext) (md : Metadata)
    → IsWire sc
    → sc.baggage ≡ none
    → IsFresh grpc_carrier md
    → extract_grpc (outgoing_metadata sc md) ≡ ok (wire_context sc)
unfolding outgoing_metadata
outgoing_metadata-IsWire sc md wire plain free =
    let (md', injected, extracted) = extract_grpc-inject_grpc sc md wire free in
    ap (λ b. extract_grpc (baggage_metadata b (injected_or (inject_grpc sc md) md))) plain
    ∙ ap (λ y. extract_grpc (injected_or y md)) injected
    ∙ extracted

module _ {W : Type 0} (error_text : Error → Str)
    (new_endpoint : Str → Str → Outcome (Option Endpoint)) (t : Tracer W) where
  -- The server joins the span whose context is extracted from the metadata.
  tag_rpc_server-IsJoined :
      (h : GrpcServer) (peer : Option Str) (md : Metadata) (method : Str) (now : Time) (w : W)
      (from : SpanContext) (endpoint : Option Endpoint)
      → t.noop ≢ 1
      → t.shared_spans ≡ true
      → h.baggage ≡ none
      → endpoint_or_none (new_endpoint [] (remote_address peer)) ≡ ok endpoint
      → extract_grpc md ≡ ok (wire_context from)
      → trace_id_empty from.trace_id ≡ false
      → (sp : Span) × (sent : List SpanModel) × (w' : W) × (tag_rpc_server error_text new_endpoint t
            h peer
            (some md)
            method
            now
            w
          ≡ ok (some sp, sent, w'))
        × IsJoined t now (wire_context from) (span_context sp) w
  unfolding tag_rpc_server remote_endpoint_from_context extract_context store_baggage new_context
      run_options parent kind_option remote_endpoint_option
  tag_rpc_server-IsJoined h peer md method now w from endpoint on shared plain found got full =
      let sc = wire_context from in
      let s0 = new_span t (rpc_span_name method) in
      let s1 = with_context (with_model s0 (record s0.model { kind = server })) sc in
      let s = with_model s1 (record s1.model { remote_endpoint = endpoint }) in
      let (sp, w', started, joined) =
        start_span-IsJoined t now (rpc_span_name method)
          (kind_option server ∷ parent error_text sc ∷ remote_endpoint_option endpoint ∷ []) w s on
          shared refl full refl in
      let calls : List SpanCall = if is_noop sp then [] else tag_calls h.default_tags in
      let (sp', sent) = run_calls calls sp in
      (
        sp',
        sent,
        w',
        rw (got, ne→==_false t.noop 1 on, plain, found, started) refl,
        rw (span_context-run_calls calls sp) joined,
      )

-- A gRPC server whose tracer is no noop and shares spans, and that has no baggage handler, joins the span
-- that a gRPC client started for the call, where that span, noop or not, has both identifiers and no
-- baggage, the outgoing metadata of the client hold no B3 keys, and making the endpoints of the two peers
-- does not panic: the Go context of the server holds a span of the client's identifiers and debug flag,
-- and of its decision, where it made one.
pub tag_rpc_server-tag_rpc_client :
    {W V : Type 0} (error_text : Error → Str) (new_endpoint : Str → Str → Outcome (Option Endpoint))
    (tc : Tracer W) (ts : Tracer V) (c : GrpcClient) (h : GrpcServer) (peer peer' : Option Str)
    (outgoing : Metadata) (method : Str) (now now' : Time) (ctx ctx' : Context) (w w' : W) (v : V)
    (sp : Span) (endpoint endpoint' : Option Endpoint)
    → endpoint_or_none (new_endpoint c.remote_service_name (remote_address peer)) ≡ ok endpoint
    → endpoint_or_none (new_endpoint [] (remote_address peer')) ≡ ok endpoint'
    → start_span_from_context error_text tc now ctx
        (rpc_span_name method)
        (kind_option client ∷ remote_endpoint_option endpoint ∷ [])
        w
      ≡ ok (sp, ctx', w')
    → IsWire (span_context sp)
    → (span_context sp).baggage ≡ none
    → IsFresh grpc_carrier outgoing
    → ts.noop ≢ 1
    → ts.shared_spans ≡ true
    → h.baggage ≡ none
    → (md : Metadata) × (joined : Span) × (sent : List SpanModel) × (v' : V) × (tag_rpc_client
          error_text new_endpoint tc c peer
          (some outgoing)
          method
          now
          ctx
          w
        ≡ ok (ctx', md, w'))
      × (tag_rpc_server error_text new_endpoint ts h peer' (some md) method now' v
          ≡ ok (some joined, sent, v'))
      × IsJoined ts now' (wire_context (span_context sp)) (span_context joined) v
unfolding tag_rpc_client remote_endpoint_from_context
tag_rpc_server-tag_rpc_client error_text new_endpoint tc ts c h peer peer' outgoing method now now'
      ctx ctx' w w' v sp endpoint endpoint' found found' started wire no_baggage free on shared
      plain =
    let md = outgoing_metadata (span_context sp) outgoing in
    let (joined, sent, v', served, same) =
      tag_rpc_server-IsJoined error_text new_endpoint ts h peer' md method now' v (span_context sp)
        endpoint' on shared plain found'
        (outgoing_metadata-IsWire (span_context sp) outgoing wire no_baggage free) wire.has_trace in
    (md, joined, sent, v', rw (found, started) refl, served, same)

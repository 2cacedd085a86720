-- ===== src/Middleware/Grpc.antt =====
-- middleware/grpc/server.go, client.go and shared.go. The address of the peer, the metadata that a Go
-- context holds and the status of an error are arguments: they come from the gRPC packages.
pub mod Propagation
use zipkin_go.Base.{
  ◌≡◌, refl, ap, ◌∙◌, Bool, true, false, Option, none, some, List, [], ◌∷◌, Str, Dict, codes,
  to_lower, to_upper, insert, ◌==◌, if◌then◌else◌, Error, Outcome, ok, err, panic, nil_pointer,
  ◌>>=◌,
}
use zipkin_go.Model.Baggage.{Baggage, iterate_fields}
use zipkin_go.Model.Spans.{SpanContext, SpanModel, Endpoint, Time, client, server}
use zipkin_go.B3.Wire.{IsWire, wire_context}
use zipkin_go.B3.Carriers.Kinds.{Metadata, grpc_carrier, extract_grpc, inject_grpc}
use zipkin_go.B3.Carriers.RoundTrip.{IsFresh}
use zipkin_go.B3.Carriers.Errors.{extract_grpc-inject_grpc}
use zipkin_go.Tracer.State.{Tracer, Span, span_context, is_noop, Context}
use zipkin_go.Tracer.SpanCalls.{SpanCall, tag_call, finish_call, run_calls, tag_error}
use zipkin_go.Tracer.SpanOptions.{kind_option, parent, remote_endpoint_option}
use zipkin_go.Tracer.TracerOptions.{extract_context}
use zipkin_go.Tracer.Start.{start_span, start_span_from_context, span_from_context, new_context}
use zipkin_go.Middleware.ErrHandlers.{tag_calls}
use zipkin_go.Middleware.HttpServer.{store_baggage}

pub record GrpcServer : Type 0 where
  pub default_tags : Dict Str
  pub baggage : Option Baggage

pub record GrpcClient : Type 0 where
  pub remote_service_name : Str

abbrev pub GrpcServerOption : Type 0
GrpcServerOption = GrpcServer → GrpcServer

abbrev pub GrpcClientOption : Type 0
GrpcClientOption = GrpcClient → GrpcClient

unfoldable pub server_tags_option : Dict Str → GrpcServerOption
server_tags_option tags h = record h { default_tags = tags }

unfoldable pub enable_baggage_option : Option Baggage → GrpcServerOption
enable_baggage_option b h = record h { baggage = b }

unfoldable pub with_remote_service_name : Str → GrpcClientOption
with_remote_service_name name c = record c { remote_service_name = name }

abbrev pub run_handler_options : {H : Type 0} → List (H → H) → H → H
run_handler_options [] h = h
run_handler_options (o ∷ os) h = run_handler_options os (o h)

unfoldable pub new_grpc_server_handler : List GrpcServerOption → GrpcServer
new_grpc_server_handler opts =
    run_handler_options opts (record { default_tags = []; baggage = none })

unfoldable pub new_grpc_client_handler : List GrpcClientOption → GrpcClient
new_grpc_client_handler opts = run_handler_options opts (record { remote_service_name = [] })

-- `TagConn` returns its Go context, and `HandleConn` does nothing.
unfoldable pub tag_conn : Context → Context
tag_conn ctx = ctx

-- `strings.TrimPrefix` of a slash, and `strings.Replace` of the others.
unfoldable pub replace_slashes : Str → Str
replace_slashes [] = []
replace_slashes (c ∷ s) = (if c == b'/' then b'.' else c) ∷ replace_slashes s

unfoldable pub rpc_span_name : Str → Str
unfolding replace_slashes
rpc_span_name [] = []
rpc_span_name (c ∷ s) = if c == b'/' then replace_slashes s else replace_slashes (c ∷ s)

-- What gRPC reports of a call: that it ended, with the status of its error (whether it is OK, and its
-- name) or an error that has none; or anything else.
pub data RpcStats : Type 0 where
  end_with_status : Bool → Str → RpcStats
  end_with_error : Str → RpcStats
  other_stats : RpcStats

unfoldable pub end_calls : RpcStats → Time → List SpanCall
end_calls (end_with_status true code) now = finish_call now ∷ []
end_calls (end_with_status false code) now =
    tag_call (codes "grpc.status_code") (to_upper code)
    ∷ tag_call tag_error (to_upper code)
    ∷ finish_call now
    ∷ []
end_calls (end_with_error text) now = tag_call tag_error text ∷ finish_call now ∷ []
end_calls other_stats now = []

abbrev pub is_end : RpcStats → Bool
is_end other_stats = false
is_end _ = true

-- `handleRPC`. A Go context without a span holds a nil, which is no noop span.
unfoldable pub handle_rpc : Context → RpcStats → Time → Outcome (Context × List SpanModel)
unfolding end_calls span_from_context
handle_rpc ctx rs now = elim (span_from_context ctx) [
  | none ↦ if is_end rs then panic nil_pointer else ok (ctx, [])
  | some sp ↦
      (if is_noop sp
        then ok (ctx, [])
        else (let (sp', sent) = run_calls (end_calls rs now) sp in ok (some sp', sent)))
]

-- `md.Set`: it lowers the key, and does nothing without values.
unfoldable pub set_metadata : Str → List Str → Metadata → Metadata
set_metadata key [] md = md
set_metadata key (v ∷ vs) md = insert (to_lower key) (v ∷ vs) md

abbrev pub baggage_metadata : Option Baggage → Metadata → Metadata
baggage_metadata none md = md
baggage_metadata (some b) md = iterate_fields set_metadata b md

abbrev pub injected_or : Outcome Metadata → Metadata → Metadata
injected_or (ok md') md = md'
injected_or (err e) md = md
injected_or (panic p) md = md

-- The address of the peer, if the Go context has one.
abbrev pub remote_address : Option Str → Str
remote_address none = []
remote_address (some addr) = addr

-- The error of `NewEndpoint` is dropped, and its endpoint is then nil.
abbrev pub endpoint_or_none : Outcome (Option Endpoint) → Outcome (Option Endpoint)
endpoint_or_none (ok e) = ok e
endpoint_or_none (err _) = ok none
endpoint_or_none (panic p) = panic p

-- `new_endpoint` is `NewEndpoint`, a function of the service name and the address.
unfoldable pub remote_endpoint_from_context :
    (Str → Str → Outcome (Option Endpoint)) → Option Str → Str → Outcome (Option Endpoint)
remote_endpoint_from_context new_endpoint peer name =
    endpoint_or_none (new_endpoint name (remote_address peer))

abbrev pub metadata_or_new : Option Metadata → Metadata
metadata_or_new none = []
metadata_or_new (some md) = md

-- The error of the injection is dropped, and the metadata left as they are.
unfoldable pub outgoing_metadata : SpanContext → Metadata → Metadata
unfolding set_metadata
outgoing_metadata sc md = baggage_metadata sc.baggage (injected_or (inject_grpc sc md) md)

module _ {W : Type 0} (error_text : Error → Str)
    (new_endpoint : Str → Str → Outcome (Option Endpoint)) (t : Tracer W) where
  -- `TagRPC` of the server, with the address of the peer and the metadata of the request.
  unfoldable pub tag_rpc_server :
      GrpcServer
      → Option Str
      → Option Metadata
      → Str
      → Time
      → W
      → Outcome (Context × List SpanModel × W)
  unfolding rpc_span_name remote_endpoint_from_context
  tag_rpc_server h peer incoming method now w = do
    sc ← extract_context t (extract_grpc (metadata_or_new incoming))
    sc' ← store_baggage h.baggage (metadata_or_new incoming) sc
    endpoint ← remote_endpoint_from_context new_endpoint peer []
    (sp, w') ←
        start_span t now (rpc_span_name method)
          (kind_option server ∷ parent error_text sc' ∷ remote_endpoint_option endpoint ∷ []) w
    let calls = if is_noop sp then [] else tag_calls h.default_tags
    let (sp', sent) = run_calls calls sp
    ok (new_context none sp', sent, w')

  -- `TagRPC` of the client: the Go context with the span, and the metadata of the request.
  unfoldable pub tag_rpc_client :
      GrpcClient
      → Option Str
      → Option Metadata
      → Str
      → Time
      → Context
      → W
      → Outcome (Context × Metadata × W)
  unfolding rpc_span_name outgoing_metadata remote_endpoint_from_context
  tag_rpc_client c peer outgoing method now ctx w = do
    endpoint ← remote_endpoint_from_context new_endpoint peer c.remote_service_name
    (sp, ctx', w') ←
        start_span_from_context error_text t now ctx (rpc_span_name method)
          (kind_option client ∷ remote_endpoint_option endpoint ∷ []) w
    ok (ctx', outgoing_metadata (span_context sp) (metadata_or_new outgoing), w')

-- ===== src/Lib.antt =====
-- zipkin-go, a Go library that records spans of work and hands them to Zipkin: the tracer, the spans and
-- their identifiers, the samplers, the headers that carry a span's context between services, the
-- reporters, and the middleware that records the requests of HTTP and gRPC.
--
-- The parts, and the file that models each:
--   model/traceid.go, span_id.go: Model/TraceIds, Model/SpanIds. Hexadecimal texts of identifiers, over
--     Strconv (what Go's `strconv` and `fmt` do with a 64-bit number).
--   model/span.go, endpoint.go, annotation.go, kind.go: Model/Spans, the data of a span; Model/Times, the
--     rounding of times; Model/LowerCase, `strings.ToLower` of names; Model/Json, what `MarshalJSON` and
--     `UnmarshalJSON` make of a span, with Json/Encode and Json/Decode.
--   endpoint.go: Endpoints, `NewEndpoint` with what it uses of `net` and `strconv`.
--   propagation/baggage/baggage.go: Model/Baggage, fields behind an allow list.
--   idgenerator/idgenerator.go: IdGenerator, over a source of random numbers.
--   propagation/b3/spancontext.go: B3/Headers (`ParseHeaders`) and B3/Single (`ParseSingleHeader` and
--     `BuildSingleHeader`).
--   propagation/b3/map.go, http.go, grpc.go: B3/Carriers, written once over an interface, with a Go map,
--     an HTTP header and gRPC metadata as its instances in B3/Carriers/Kinds.
--   tracer.go, tracer_options.go, span_options.go, context.go: Tracer/State, Tracer/TracerOptions,
--     Tracer/SpanOptions, Tracer/Start.
--   span_implementation.go, noop.go: Tracer/SpanCalls.
--   sample.go: Sampler.
--   reporter/reporter.go, reporter/serializer.go: Reporter/Interface; Interface/Refines compares a
--     reporter with the recorder.
--   reporter/http/http.go: Reporter/Http, the two goroutines as steps on one shared state;
--     reporter/recorder/recorder.go: Reporter/Recorder; reporter/kafka/kafka.go: Reporter/Kafka;
--     reporter/amqp/amqp.go: Reporter/Amqp; reporter/log/log.go: Reporter/Log.
--   proto/zipkin_proto3/encode_proto.go, decode_proto.go, zipkin.pb.go: Proto/Encode, Proto/Decode,
--     Proto/Messages.
--   middleware/http/server.go: Middleware/HttpServer, and Middleware/ResponseWriter for `rwInterceptor`;
--     transport.go and request_sampler.go: Middleware/Transport (`RoundTrip` in Transport/Trip) and
--     Middleware/ErrHandlers; client.go and spancloser.go: Middleware/Client; spantrace.go:
--     Middleware/SpanTrace.
--   middleware/grpc/server.go, client.go, shared.go: Middleware/Grpc.
--
-- How code becomes a model. A function that returns an error or panics returns an `Outcome`: a value, an
-- error or a panic; slices and indexes out of range are panics. A text is a list of its bytes, a Go map an
-- association list. A pointer that nobody writes through is an `Option`. Integers are natural numbers with
-- the wrap-around of their width written out where the code can reach it; times and durations are signed.
-- What closures keep between calls (random sources, samplers, counters) is a state that each call takes
-- and returns. Loops are recursion on the list or on the number of rounds, so no fuel is needed.
--
-- How the parts meet: the tracer takes its identifiers from an `IdGenerator` and its decisions from a
-- sampler, both as fields; it takes contexts from the extractors of propagation/b3, by way of
-- `Tracer.Extract` and the option `Parent`; a span hands its model to the reporter, which the calls of a
-- span return as a list. The HTTP server, the transport and the client of `middleware/http` and the
-- handlers of `middleware/grpc` put these together for a request; Transport/Propagation takes the request
-- that a transport sends to a server, and Grpc/Propagation does so for gRPC.
--
-- What is a parameter: the random source and the clock, the text of an error value that another package
-- made, the arithmetic of `float64` in the samplers' rates, the HTTP client of the reporter, the round
-- tripper that the transport wraps and `http.Client.Do`, the lookup of a host, the handler behind the
-- server, the Kafka producer, the client of the AMQP broker, the table by which `strings.ToLower` lowers
-- names that are not ASCII, and the protobuf runtime. Of the producer the results assume that a message
-- that it takes is added to those before it; the messages that the client of a broker accepts are those
-- that it publishes without an error, whatever the broker then does with them.
--
-- What is not modelled: letters beyond ASCII in the keys of baggage fields, which are lowered as ASCII
-- is; the text of JSON documents, which are lists of fields here; the loggers of the transport and of the
-- reporter for HTTP; the options that set a logger; and generated code beside the protobuf structs. Locks
-- and atomic flags are modelled by the order of the steps that they separate, where goroutines meet in
-- the reporters for HTTP and Kafka.
mod Base
pub mod Strconv
pub mod HttpHeader
pub mod Model
pub mod Endpoints
pub mod IdGenerator
pub mod B3
pub mod Tracer
pub mod Sampler
pub mod Reporter
pub mod Proto
pub mod Middleware

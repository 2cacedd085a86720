-- ===== src/Middleware.antt =====
-- Package `middleware`: tracing of HTTP and gRPC calls.
pub mod ErrHandlers
pub mod SpanTrace
pub mod Transport
pub mod Client
pub mod ResponseWriter
pub mod HttpServer
pub mod Requests
pub mod Sizes
pub mod Grpc
mod Tests
mod ClientTests

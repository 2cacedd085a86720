-- ===== src/Proto.antt =====
-- Package `proto/zipkin_proto3`: spans as protobuf messages.
pub mod Bytes
pub mod Messages
pub mod Encode
pub mod Decode
pub mod RoundTrip
pub mod Accepts
mod Tests

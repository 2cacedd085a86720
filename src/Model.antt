-- ===== src/Model.antt =====
-- Package `model`: identifiers, the span context and the span.
pub mod TraceIds
pub mod SpanIds
pub mod Baggage
pub mod Spans
pub mod Times
pub mod LowerCase
pub mod Json
mod Tests

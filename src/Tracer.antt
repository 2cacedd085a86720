-- ===== src/Tracer.antt =====
-- The root package: the tracer, its options, and the life of a span.
pub mod State
pub mod SpanCalls
pub mod SpanOptions
pub mod TracerOptions
pub mod Start
pub mod Lineage
pub mod Sampling
pub mod Reports
pub mod TagValues
mod Tests

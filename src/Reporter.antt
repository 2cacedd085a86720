-- ===== src/Reporter.antt =====
-- Package `reporter`: where finished spans go.
pub mod Interface
pub mod Http
pub mod Recorder
pub mod Kafka
pub mod Amqp
pub mod Log
mod Tests
mod SinkTests
mod AmqpTests

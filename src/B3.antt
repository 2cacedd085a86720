-- ===== src/B3.antt =====
-- Package `propagation/b3`: the B3 headers, the single `b3` header, and the carriers that hold them.
pub mod Headers
pub mod Wire
pub mod Single
pub mod Carriers
mod Tests

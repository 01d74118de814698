-- ===== src/Protocol.antt =====
-- protocol/cranker_protocol.go: the text messages that router and connector exchange.
pub mod Headers
pub mod Request
pub mod Response
pub mod Debug
mod Tests

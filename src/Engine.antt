-- ===== src/Engine.antt =====
-- The business layer's engine: orders, the order book, and the matching engine.
pub mod Order
pub mod Events
pub mod OrderBook
pub mod Matching
mod Tests

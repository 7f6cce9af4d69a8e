-- ===== src/Base.antt =====
-- The parts of include/base and src/base that read the settings of the server.
pub mod Config
mod Tests

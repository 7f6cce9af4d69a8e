-- ===== src/Manager.antt =====
-- The account, position, risk and instrument managers: include/app/model and src/app/manager.
pub mod Accounts
pub mod Positions
pub mod Risk
pub mod Instruments
mod Tests

-- ===== src/Capacity/Handlers.antt =====
-- The command handlers of src/contexts/capacity/application, each a run over the store.
pub mod Treasury
pub mod Repayment
pub mod Reserving
pub mod Redelivery
pub mod Twice
pub mod Same
pub mod Retry
pub mod Repeat

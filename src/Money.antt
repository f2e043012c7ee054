-- ===== src/Money.antt =====
-- src/shared/money: amounts, currencies, exchange rates and the arithmetic below them.
pub mod Types
pub mod Rounding
pub mod Decimal
pub mod Currency
pub mod Amount
pub mod Rate

-- ===== src/Capacity.antt =====
-- src/contexts/capacity: programs, reservations and what changes them.
pub mod Ids
pub mod Events
pub mod Reservation
pub mod Program
pub mod Store
pub mod Views
pub mod Handlers
pub mod Messaging
pub mod Outbox
pub mod TreasuryMessage
pub mod Feed
pub mod Listing
pub mod Mappers
pub mod Ledger
pub mod Rates

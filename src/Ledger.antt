-- ===== src/Ledger.antt =====
-- internal/ledger: the points ledger, its pricing, and the booking of trips.
pub mod Types
pub mod Allocation
pub mod Accounting
pub mod Store
pub mod Booking
pub mod Budget
pub mod Distribute
pub mod Months
pub mod Money
pub mod Cost
pub mod Import
mod Tests

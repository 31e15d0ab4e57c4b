-- ===== src/Web.antt =====
-- internal/web: the parts of the web layer that decide something.
pub mod Auth
pub mod LedgerForms
pub mod LedgerViews
pub mod TripViews
pub mod Panels
pub mod Api
pub mod Trips
pub mod Pages
pub mod Costs
pub mod Filters
pub mod Planner
pub mod TripFilters
pub mod Funding
mod Tests

-- ===== src/Bookkeeping.antt =====
-- The bookkeeping of the alumni association (`p4x`): its tables, the category filters and their
-- stored hits, partners, accounts, fees and fee balances.
pub mod Store
pub mod Criteria
pub mod Hits
pub mod Warnings
pub mod Amounts
pub mod Directs
pub mod Categories
pub mod Filters
pub mod Partners
mod Sample
mod Tests
mod RequestTests
mod PartnerTests

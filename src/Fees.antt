-- ===== src/Fees.antt =====
-- Membership fees of app/services/p4x_fee_balance_service.py: the fee of a month, the payments of a
-- member, the balance of one member and the list of all balances.
pub mod Schedule
pub mod Payments
pub mod Balance
pub mod BalanceList
mod Tests

-- ===== src/Tests.antt =====
-- Examples of the theorems on concrete data, by part of the program.
pub mod Data
pub mod Accounts
pub mod Access
pub mod Deposits
pub mod Payments
pub mod Invoices
pub mod Withdrawals
pub mod Systems
pub mod Lists
pub mod Stores
pub mod Chains
pub mod Workers
pub mod Connections

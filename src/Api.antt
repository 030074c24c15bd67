-- ===== src/Api.antt =====
-- api/src: the HTTP layer.
pub mod RateLimit
pub mod Access
pub mod OpenApi
pub mod Errors
pub mod Range
pub mod Payments
pub mod Invoices
pub mod Withdrawals
pub mod Deposits
pub mod Users
pub mod Answers

-- ===== src/Tests.antt =====
-- Concrete runs of the program's parts.
pub mod Fixture
pub mod Mutations
pub mod Middleware
pub mod Secrets
pub mod Races
pub mod Sending
pub mod Codec
pub mod Accounts
pub mod Startup
pub mod Opening
pub mod Permitted
pub mod Ledger
pub mod Histories
pub mod Answering
pub mod Tooling
pub mod Inputs

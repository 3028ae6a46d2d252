-- ===== src/Graph.antt =====
-- graph/: the GraphQL resolvers.
pub mod Resolver
pub mod Send
pub mod Account
pub mod Queries
pub mod Effects
pub mod DryRun
pub mod Calls
pub mod OneSend
pub mod Unauthed
pub mod Claims
pub mod Secrets
pub mod Minted
pub mod Nonces
pub mod Created
pub mod Rows
pub mod Steps
pub mod Live
pub mod LiveAccount
pub mod Inputs

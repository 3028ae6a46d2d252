-- ===== src/System.antt =====
-- The server as a whole: requests of all kinds, one after the other, over one history.
pub mod Provenance
pub mod Requests
pub mod Arguments
pub mod Invariant
pub mod Owners
pub mod Replay
pub mod Serving
pub mod Calls
pub mod Sends
pub mod Lookups

-- ===== src/Bridge.antt =====
-- The function runtime of bridge/ and its journal in bridge/sqlstore.
pub mod Platform
pub mod Protocol
pub mod Journal
pub mod SqlStore
pub mod Runtime
pub mod Resource
pub mod Custody
pub mod Client
pub mod Transport
pub mod Discovery
mod Tests

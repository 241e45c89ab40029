-- ===== src/Ledger.antt =====
-- oetp-ledger: the central ledger's stores, its workers and its HTTP handlers.
pub mod MemStore
pub mod SqliteStore
pub mod MerkleWorker
pub mod AnchorWorker
pub mod Requests
pub mod Config
pub mod Commands
pub mod Opened
pub mod Api
pub mod Queries
pub mod Served
pub mod Stable
pub mod Delivered
pub mod Interleaved
pub mod Collided
pub mod Guarded
pub mod Checked
pub mod Generator
pub mod Load
pub mod Service
pub mod Lost
mod Tests
mod LostTests
mod HandlerTests

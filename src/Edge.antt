-- ===== src/Edge.antt =====
-- oetp-edge: the exam centre's daemon.
pub mod Config
pub mod Queue
pub mod Nonces
pub mod State
pub mod Api
pub mod Service
pub mod Kernel
pub mod Startup
pub mod Submit

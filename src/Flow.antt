-- ===== src/Flow.antt =====
-- Runs over more than one of the services: the beacon and the daemon (oetp-beacon/src/api.rs and
-- oetp-edge/src/api.rs), the daemon and the ledger (oetp-ledger/src/api.rs), and the generator of the
-- packets (oetp-ledger/src/generator.rs) and the daemon.
pub mod Token
pub mod Submission
pub mod Resent
mod Tests
mod ResentTests

-- ===== src/Lib.antt =====
-- OETP, the Open Examination Trust Protocol: students' exam packets are encrypted and committed to
-- by a Merkle root, released to a centre's devices by signed, time-bound tokens, and each
-- submission is logged in a ledger whose Merkle proofs anyone can check.
--
-- The parts and the files that model them, with paths from the repository's root:
--
-- oetp-core. Merkle (oetp-core/src/merkle.rs) has the tree, `prove` and `verify` as the code
-- writes them; Merkle/Shape has the specification, RFC 6962's recursion, as a binary tree over the
-- leaves, and the other modules below Merkle relate the two. Clock, Validation, Signing, Release,
-- Hashing, Device (device.rs and device_x25519.rs), Tenant, Envelope, Packet, Receipt, Manifest,
-- Platform and Verify each model the file of that name in oetp-core/src; Result models error.rs.
--
-- QuestionBank is question_bank.rs, with f64 and the random generator as parameters, and
-- LockedBuffer is zeroize.rs.
--
-- oetp-beacon. Beacon models the handlers of oetp-beacon/src/api.rs, Beacon/Service its router,
-- and Beacon/Startup main.rs.
--
-- oetp-ledger. Ledger/MemStore and Ledger/SqliteStore are the two stores (storage.rs,
-- sqlite_store.rs), each an instance of the record `Store` of Platform, which stands for the
-- trait. Ledger/MerkleWorker is merkle_worker.rs, and Ledger/AnchorWorker anchor_worker.rs.
-- Ledger/Config is config.rs with what main.rs and lib.rs make of it, Ledger/Opened the store that
-- Serve opens behind the trait, Ledger/Service is the router of lib.rs, Ledger/Generator is
-- generator.rs, Ledger/Load the command Load of main.rs, and Ledger/Commands the command line with
-- Generate and Keygen. Ledger/Requests, Ledger/Api and Ledger/Queries are api.rs: the state and
-- the requests, the handlers that change the state, and the two public queries. Ledger/Served,
-- Stable and Delivered follow a submission from its ingest over the ledger's later steps to its
-- proof, where the store returned the leaf's place in its namespace's log, as the one in memory
-- always does and SQLite only while no other namespace has a leaf; Guarded and Checked are about
-- the handlers' tests; Lost is about SQLite's indices, and Collided about two submissions under
-- one receipt id. Ledger/Interleaved takes handle_ingest apart at its await and lets the actions
-- of other handlers and of the workers come between; Ledger/Generator/Committed is about a whole
-- run of the generator.
--
-- oetp-edge. Edge/Queue is oetp-edge/src/queue.rs, the encrypted queue of submissions, over a
-- file's bytes and a ledger that is a parameter; Edge/Queue/File and Edge/Queue/Flush are about
-- it. Edge/Config is config.rs, Edge/Nonces and Edge/State are state.rs, Edge/Kernel is
-- platform_impl.rs, Edge/Startup main.rs up to the shared state, and Edge/Service the router of
-- lib.rs. Edge/Api has the handlers fetch, release and unlock of oetp-edge/src/api.rs, with
-- beacon.rs; Edge/Api/Entries, Handled, Opened and Unlocked are about what the cache holds, and
-- Replay about consumed tokens. Edge/Submit has the handlers submit, flush and clock; Accepted,
-- Delivered and Frame are about them.
--
-- Flow joins the services: a token from the beacon to the daemon, a submission from the daemon to
-- the ledger, and one that is posted twice since an answer was lost (Flow/Resent);
-- Ledger/Generator/Student takes a packet from the generator to the daemon, and Ledger/Load/Loaded
-- from the generator's files to the ledger.
--
-- Http is what the three services take from axum and tower: routes, a request's way through the
-- layers to a handler, the limit on the rate (Http/RateLimit) and the allowed origins (Http/Cors).
--
-- Shared: Prelude (tests, lists, byte strings, maps), Env (what the services read from the
-- environment), Api and Handler (what the HTTP handlers share), and Crates, the record of what the
-- program takes from its dependencies, with the documented laws that a theorem may name.
-- Crates/Toy is an instance that meets these laws, and runs the tests.
--
-- A byte is a native number and a byte string is a list of bytes; the models of fixed-size arrays
-- do not bound their length, and a theorem states a length where it needs one. A text is its UTF-8
-- bytes; a fixed message is a string. Integers are native numbers; the beacon's `now + 300` wraps
-- at 2^64, lengths in the envelope's associated data wrap at 2^16, and numbers are written in 8
-- bytes. Random secrets and nonces are arguments. The loop of `MerkleTree::new` runs on fuel, the
-- number of leaves, which is enough since a round makes a level of two or more nodes shorter;
-- `decimal` runs on 19, since a u64 has at most 20 digits. An HTTP handler is a function from the
-- state to the reply and the state after it. In the ledger's Ledger/Interleaved an action is what
-- a task does to the shared state between two of its awaits; elsewhere handlers do not interleave,
-- but for an enqueue during a flush (Edge/Queue/Flush): the daemon's release and unlock hold the
-- lock of the cache from their first read of it to their end, and fetch and submit touch it once.
-- The route of a request is what axum selects and a body is what serde makes of it, both
-- parameters.
--
-- Not modelled: how axum matches paths, how tower_governor counts requests, JSON and the parsing
-- of the command line, which are other crates' code; the listeners, signals and timers of the
-- processes; the wiping of keys that are dropped; logging; and errors of the database engine and
-- of files that are written.
pub mod Prelude
pub mod Result
pub mod Crates
pub mod Merkle
pub mod Clock
pub mod Validation
pub mod Signing
pub mod Release
pub mod Api
pub mod Handler
pub mod Http
pub mod Beacon
pub mod Hashing
pub mod Device
pub mod Tenant
pub mod Env
pub mod Envelope
pub mod Packet
pub mod Receipt
pub mod Manifest
pub mod Platform
pub mod Verify
pub mod Ledger
pub mod QuestionBank
pub mod LockedBuffer
pub mod Edge
pub mod Flow

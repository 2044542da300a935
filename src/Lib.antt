-- ===== src/Lib.antt =====
-- The Attesta backend: an indexer that mirrors the events of the shielded-pool and registry
-- contracts into Postgres, and an API that serves commitment-tree paths, encrypted notes and a
-- credential mailbox from these tables.
--
-- Parts and files
--   Prelude     shared names, lists over the native numbers, integers, hash maps, options, computations
--               that may panic (Run) or fail and keep what they did (Exec)
--   Merkle      crates/attesta-core/src/merkle.rs: MerkleTree with append, root, path and verify_path, and
--               naive_root; Layers has the level by level rebuild that the proofs compare with
--   Limits      crates/attesta-api/src/limits.rs: Buckets is IpBuckets, Slots is SseSlots and SseSlot with
--               the interleavings of their atomic steps
--   Database    migrations/*.sql and crates/attesta-core/src/models.rs: the tables
--   Events      crates/attesta-indexer/src/events.rs: decode and its helpers (Types, Values); Layout is
--               the documented form of an event
--   Ingest      crates/attesta-indexer/src/ingest.rs and the paging of rpc.rs: run, sync_contract, with
--               store_event (Store) and the SQL statements (Tables)
--   Api         crates/attesta-api/src/error.rs: the error answers of the handlers
--   Tree        crates/attesta-api/src/routes/tree.rs and PoolTree of
--               crates/attesta-api/src/state.rs: sync_pool_tree, get_path, get_root (Roots); History, Rows,
--               Newest and Recorded are about the root history
--   Connect     crates/attesta-core/src/db.rs: connect
--   Issuer      crates/attesta-api/src/routes/issuer.rs: deliver_credential, claim_delivery,
--               list_deliveries, list_issuers
--   Notes       crates/attesta-api/src/routes/notes.rs: list_notes, stream_notes, drain_new_notes,
--               poll_new_notes (Wake)
--   Disclosure  crates/attesta-disclosure/src/main.rs: generate and verify
--   Retention   crates/attesta-api/src/retention.rs: sweep, run_cycle
--   Stats       crates/attesta-api/src/routes/stats.rs: get_stats with its cache, compute_stats
--   Artifacts   crates/attesta-api/src/routes/artifacts.rs: artifact_path, get_manifest, get_file
--   Serving     crates/attesta-core/src/config.rs (Config), limit_reads and limit_writes of
--               crates/attesta-api/src/limits.rs (Middleware), health_ready of routes/mod.rs (Health),
--               crates/attesta-api/src/request_id.rs (RequestId), cors_layer of crates/attesta-api/src/main.rs
--
-- How they interact: Ingest decodes raw events with Events and writes the tables of Database; Tree
-- reads the commitments from these tables into the trees of Merkle; Issuer reads the issuers and
-- keeps the deliveries, which Retention deletes when their time is over; Notes reads the encrypted
-- notes; Disclosure is a client of Tree and Notes. The names of definitions are those of the Rust
-- functions; the loops and branches of a long function are helpers named for what they do.
--
-- State and errors: a table is the list of its rows. A handler is a function from the state to a
-- result and the state, and an error keeps the writes made before it. Every query takes the next
-- item of `answers`, which says whether the database carries it out, so that a theorem about all
-- states is a theorem about all failures; behind the end of that list every query succeeds.
-- Concurrent requests are sequences of their steps.
--
-- Bounds and fuel: the loop of drain_new_notes and the one over the pages of generate take a number
-- of rounds as fuel, and sweep a list of clock readings; theorems say how many are enough. The
-- other loops need none. The loops of the tree run for its 32 levels, the pages of a sync are a
-- list of replies of the node (a node without a further reply has failed), and connect makes ten
-- attempts. i64 and u64 conversions wrap as in Rust; NUMERIC(39, 0) has its bound. The tokens of a
-- bucket, which are f64 in the source, are exact numbers of billionths, without rounding. A node,
-- [u8; 32] in the source, is a list of bytes whose length the types do not bound. The theorems on
-- whole calls of SseSlots are about calls that nothing interrupts; its interleavings are the steps
-- of Limits.Slots.
--
-- Parameters: SHA-256, XDR (with the to_string of its texts, which escapes what is not printable
-- ASCII), JSON, hexadecimal and base64 codecs, the database's clock, its order of texts and its
-- texts of numbers, UUIDs, files, the environment, and the replies of the node. None carries a
-- hypothesis beyond those that a theorem names.
--
-- Not modelled: the columns that no query reads (created_at and updated_at of the mirrored tables,
-- so that the upserts of an issuer and of the totals set no time here); metrics, logs, HTTP, JSON
-- and process glue; when the note fan-out, the sweeper and the indexer wake up; the parsing of the
-- pools and of the event id of a stream; migrations; telemetry.rs.
pub mod Prelude
pub mod Merkle
pub mod Limits
pub mod Database
pub mod Events
pub mod Ingest
pub mod Api
pub mod Tree
pub mod Connect
pub mod Issuer
pub mod Notes
pub mod Disclosure
pub mod Retention
pub mod Stats
pub mod Artifacts
pub mod Serving

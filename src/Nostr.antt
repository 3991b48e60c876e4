-- ===== src/Nostr.antt =====
-- The Nostr transport (crates/gp-nostr): the message protocol and the guarded ingest pipeline.
pub mod Protocol
pub mod Ingest
pub mod Relays

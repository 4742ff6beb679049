-- ===== src/Updater.antt =====
-- internal/updater without its batcher: the configuration, the decoder and the HTTP handler.
pub mod Env
pub mod Config
pub mod Settled
pub mod Waiting
pub mod Loaded
pub mod Decoder
pub mod Decoded
pub mod Ingest
pub mod Tally
pub mod Accepted
pub mod Acknowledged

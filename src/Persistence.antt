-- ===== src/Persistence.antt =====
-- src/persistence.rs: saved files and the codecs of tokens.
pub mod Bytes
pub mod Utf8
pub mod Format
pub mod Codec

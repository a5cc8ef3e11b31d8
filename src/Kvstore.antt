-- ===== src/Kvstore.antt =====
-- kvstore/: the Bitcask storage engine.
pub mod Types
pub mod Words
pub mod Codec
pub mod Keydir
pub mod Scan
pub mod Names
pub mod Hint
pub mod Store
pub mod Open
pub mod Merge

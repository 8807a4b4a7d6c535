-- ===== src/Storage.antt =====
-- src/storage.
pub mod DhtStorage
pub mod Ipfs

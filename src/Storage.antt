-- ===== src/Storage.antt =====
-- The block store, its in-memory implementation and the validator (pkg/storage).
pub mod Bloom
pub mod Chain
pub mod Codec
pub mod Store
pub mod MemStore
pub mod Tree
pub mod TxSet
pub mod TreeLaws
pub mod Validator

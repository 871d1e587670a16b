-- ===== src/Examples.antt =====
-- Examples: runs of the code on concrete inputs, and the theorems applied to them.
pub mod Engine
pub mod Rounds
pub mod Objects
pub mod Judged
pub mod Linked
pub mod Documents
pub mod Ipfs
pub mod Pool
pub mod Tree
pub mod Comm
pub mod Identities
pub mod Tips
pub mod Hosts

-- ===== src/Host.antt =====
-- internal/node: what a node does around its handlers.
pub mod Advertise
pub mod Beacon
pub mod Boot

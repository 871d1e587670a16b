-- ===== src/Did.antt =====
-- internal/did/handler.go: how a node finds the tip of the chain before its consensus engine starts, and
-- what it answers to the nodes that ask it.
pub mod Tips
pub mod Start
pub mod Exchange

-- ===== src/Tests.antt =====
-- Tests: the interfaces of Platform with concrete functions, and the theorems at concrete inputs.
mod Codec
mod World
mod Ledger
mod Queues
mod Blocks
mod Nodes
mod Peers
mod Discovery
mod Rpc
mod Mediator
mod Startup

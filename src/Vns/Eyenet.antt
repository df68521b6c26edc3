-- ===== src/Vns/Eyenet.antt =====
-- vns/vns_eyenet.cc: the Eyenet congestion control.
pub mod State
pub mod Control
pub mod Packets
pub mod Handlers
pub mod Invariant
pub mod Steady
pub mod Ledger
pub mod Losses
pub mod Progress
pub mod Runs

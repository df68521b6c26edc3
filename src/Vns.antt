-- ===== src/Vns.antt =====
-- vns/: the user-space transport with the Eyenet congestion control.
pub mod Win
pub mod RttWin
pub mod Ewma
pub mod DataRank
pub mod Eyenet
pub mod Socket
pub mod Receiver
pub mod Args
pub mod Default
pub mod PacketSender
pub mod Main
pub mod Transport
pub mod Network
pub mod Ending
pub mod Completion
mod Tests
pub mod LossReduce

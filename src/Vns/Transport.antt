-- ===== src/Vns/Transport.antt =====
-- vns/vns_transport.hh: the sender's side of the transport, over any congestion control.
pub mod Interface
pub mod Handshake
pub mod State
pub mod Sender
pub mod Starved
pub mod Frozen
pub mod Faults
pub mod Burst
pub mod Flows
pub mod Silent
pub mod SilentRun
pub mod Numbers
pub mod Growing

-- ===== src/Ttest.antt =====
-- `ttest`: the UDP traffic tester of ttest/.
mod Tests
pub mod Params
pub mod Sockets
pub mod Pacing
pub mod Worker
pub mod Receiver
pub mod Reports
pub mod Server
pub mod Client
pub mod Clock
pub mod Session
pub mod Startup

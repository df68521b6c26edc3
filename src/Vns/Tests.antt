-- ===== src/Vns/Tests.antt =====
-- The theorems about vns/ at concrete inputs, and runs of the definitions, over whole millionths.
mod Windows
mod Control
mod Sending
mod Programs
mod Networks
mod Flowing

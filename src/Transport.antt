-- ===== src/Transport.antt =====
-- aicl/transport: the transports below the codec.
pub mod Memory
pub mod Ring
pub mod Address
pub mod Session
mod Runs
mod WaitRuns

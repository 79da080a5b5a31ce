-- ===== src/Bin.antt =====
-- aicl/bin: the binary codec.
pub mod Constants
pub mod Ops
pub mod Varint
pub mod Symbol
pub mod Operands
pub mod Header
pub mod Types
pub mod Packet
pub mod View
pub mod Access
pub mod Codec
pub mod Flags
pub mod Streaming
mod Runs
mod StreamRuns

-- ===== src/Sdk.antt =====
-- aicl/sdk: the development kit above the codec.
pub mod Cancellation
pub mod Capabilities
pub mod Runtime
mod Runs

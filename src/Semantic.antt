-- ===== src/Semantic.antt =====
-- aicl/semantic: the types that a model sees, and their codecs.
pub mod Intents
pub mod Wire
pub mod FastCodec
pub mod FastAction
pub mod Action
pub mod Messages
pub mod Adapter
mod Runs
mod CodecRuns
mod AdapterRuns

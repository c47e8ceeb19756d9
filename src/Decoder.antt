-- ===== src/Decoder.antt =====
-- src/Decoder.cpp, src/Decoder.hpp and src/DecoderImpl.hpp: one FFmpeg decoder with its counters.
pub mod State
pub mod Demux
pub mod Decode
pub mod Pipeline
pub mod Callbacks
pub mod Session
pub mod Impl
pub mod Lifecycle
pub mod Buffers
pub mod Device
pub mod Samples
mod Tests

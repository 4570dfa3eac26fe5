-- ===== src/WaveRt.antt =====
-- The WaveRT miniport of viosnd/sys/ViosndWaveRT.cpp, a module for each part of it.
pub mod Geometry
pub mod Packet
pub mod Samples
pub mod Downsample
pub mod Clock
pub mod Stream
pub mod Render
pub mod Capture
pub mod Worker
pub mod Buffer
pub mod Thread
pub mod State
pub mod Kept
pub mod Ownership
pub mod Miniport
pub mod Calls
mod Tests

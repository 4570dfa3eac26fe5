-- ===== src/Virtio.antt =====
-- The virtio transport of viosnd/sys/ViosndVirtio.cpp, a module for each part of it. What the
-- driver calls but does not implement (the kernel, the virtqueues, the device) is `Virtio.Host`.
pub mod Host
pub mod Device
pub mod Bus
pub mod Bars
pub mod Setup
pub mod Dma
pub mod Control
pub mod Pcm
pub mod Io
pub mod Events
pub mod Sync
pub mod Tests

-- ===== src/Acx.antt =====
-- The ACX variant of the driver: the streams of viosnd/sys/ViosndAcxCircuit.cpp and what they use of
-- viosnd/sys/ViosndAcxVirtio.cpp. viosnd/sys/viosnd.vcxproj does not compile these files.
pub mod Host
pub mod Stream
pub mod Ready
pub mod Periods
pub mod Control
pub mod Drain
pub mod Packets
pub mod Calls
pub mod Levels
pub mod Tracked
pub mod Device
mod Tests

-- ===== src/WaveRt/Packet.antt =====
-- Packet numbers of viosnd/sys/ViosndWaveRT.cpp, ULONGs that wrap.
pub mod Order
use viosnd.Base.{ℕ, Bool, true, false, ◌&&◌, ◌||◌, not, leb, ◌==◌, sub32, max_ulong}

-- ViosndPacketNumberLessOrEqual: the LONG (Left - Right) is at most 0.
unfoldable pub packet_number_less_or_equal : ℕ → ℕ → Bool
packet_number_less_or_equal left right = sub32 left right == 0 || leb 2147483648 (sub32 left right)

-- ViosndHasWritableRenderPacket
unfoldable pub has_writable_render_packet : ℕ → ℕ → Bool
unfolding packet_number_less_or_equal
has_writable_render_packet next_submit_packet last_os_write_packet =
    not (last_os_write_packet == max_ulong)
    && packet_number_less_or_equal next_submit_packet last_os_write_packet

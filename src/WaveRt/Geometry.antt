-- ===== src/WaveRt/Geometry.antt =====
-- Buffer geometry of viosnd/sys/ViosndWaveRT.cpp: packets, notification counts and the number of
-- packets kept outstanding.
pub mod Bounds
use viosnd.Base.{ℕ, ◌-◌, ◌*◌, ◌/◌, ◌%◌, min, max, ltb, ◌==◌, if◌then◌else◌, u32}
use viosnd.Pcm.{
  default_period_bytes, default_sample_rate, default_buffer_bytes, fallback_sample_rate,
}

abbrev pub render_target_outstanding_packets : ℕ
render_target_outstanding_packets = 8

abbrev pub render_cyclic_outstanding_packets : ℕ
render_cyclic_outstanding_packets = 2

abbrev pub render_fallback_outstanding_packets : ℕ
render_fallback_outstanding_packets = 2

-- ViosndTargetOutstandingPackets
unfoldable pub target_outstanding_packets : ℕ → ℕ
target_outstanding_packets n =
    if n == 0 then 0 else if n == 1 then 1 else min (n - 1) render_target_outstanding_packets

-- ViosndCyclicTargetOutstandingPackets
unfoldable pub cyclic_target_outstanding_packets : ℕ → ℕ
cyclic_target_outstanding_packets n =
    if n == 0 then 0 else if n == 1 then 1 else min (n - 1) render_cyclic_outstanding_packets

-- ViosndFallbackTargetOutstandingPackets
unfoldable pub fallback_target_outstanding_packets : ℕ → ℕ
fallback_target_outstanding_packets n =
    if n == 0 then 0 else if n == 1 then 1 else min (n - 1) render_fallback_outstanding_packets

-- ViosndFallbackInitialPhase
abbrev pub fallback_initial_phase : ℕ
fallback_initial_phase = default_sample_rate - fallback_sample_rate

-- ViosndPacketSizeFromNotificationCount, which does not read its second argument
unfoldable pub packet_size_from_notification_count : ℕ → ℕ → ℕ
packet_size_from_notification_count buffer_size notification_count =
    if ltb buffer_size default_period_bytes then buffer_size else default_period_bytes

-- ViosndNotificationCountFromBufferSize
unfoldable pub notification_count_from_buffer_size : ℕ → ℕ
notification_count_from_buffer_size buffer_size =
    if buffer_size == 0 then 0 else max (buffer_size / default_period_bytes) 1

-- ViosndUsableBufferSizeFromAllocatedSize
unfoldable pub usable_buffer_size_from_allocated_size : ℕ → ℕ
unfolding notification_count_from_buffer_size
usable_buffer_size_from_allocated_size allocated_size =
    if ltb allocated_size default_period_bytes
    then allocated_size
    else u32 (notification_count_from_buffer_size allocated_size * default_period_bytes)

-- The offset of a packet in the buffer, as the submit and the reclaim functions compute it.
unfoldable pub packet_offset : ℕ → ℕ → ℕ → ℕ
packet_offset packet_number notification_count packet_size =
    u32 (packet_number % max notification_count 1 * packet_size)

-- ===== src/WaveRt/Geometry/Bounds.antt =====
-- The geometry that AllocateAudioBuffer of viosnd/sys/ViosndWaveRT.cpp derives, and its packets.
use viosnd.Base.{ℕ, ◌+◌, ◌*◌, ◌≤◌, ◌<◌, ◌≡◌, ◌↔◌, ◌⊎◌, max_ulong, arith}
use viosnd.Pcm.{default_period_bytes}
use viosnd.WaveRt.Geometry.{
  target_outstanding_packets, cyclic_target_outstanding_packets,
  fallback_target_outstanding_packets, packet_size_from_notification_count,
  notification_count_from_buffer_size, usable_buffer_size_from_allocated_size, packet_offset,
}

-- The three numbers that AllocateAudioBuffer stores, from the size that was allocated.
abbrev pub buffer_size_of : ℕ → ℕ
buffer_size_of a = usable_buffer_size_from_allocated_size a

abbrev pub count_of : ℕ → ℕ
count_of a = notification_count_from_buffer_size (buffer_size_of a)

abbrev pub packet_size_of : ℕ → ℕ
packet_size_of a = packet_size_from_notification_count (buffer_size_of a) (count_of a)

-- For an allocation of at least one byte and at most MAXULONG, the packets tile the usable buffer,
-- which is no larger than the allocation and wastes less than one period of it.
pub packets_tile_buffer :
    (a : ℕ)
    → 0 < a
    → a ≤ max_ulong
    → (count_of a * packet_size_of a ≡ buffer_size_of a)
      × (buffer_size_of a ≤ a)
      × (a < buffer_size_of a + default_period_bytes)
      × (0 < count_of a)
      × (0 < packet_size_of a)
      × (packet_size_of a ≤ default_period_bytes)
unfolding usable_buffer_size_from_allocated_size notification_count_from_buffer_size
    packet_size_from_notification_count
packets_tile_buffer a h k = ground arith

-- Every packet number's bytes lie inside the allocation, and the offset does not wrap.
pub packet_offset_in_bounds :
    (a packet_number : ℕ)
    → 0 < a
    → a ≤ max_ulong
    → packet_offset packet_number (count_of a) (packet_size_of a) + packet_size_of a
      ≤ buffer_size_of a
unfolding packet_offset
packet_offset_in_bounds a packet_number h k = grind (arith, packets_tile_buffer a h k)

-- For each of the three targets: it is 0 exactly when there are no packets, it is at most 8, and
-- with two or more packets it leaves at least one packet of the buffer that is not outstanding.
pub targets_leave_room :
    (n : ℕ)
    → ((target_outstanding_packets n ≡ 0) ↔ (n ≡ 0))
      × ((cyclic_target_outstanding_packets n ≡ 0) ↔ (n ≡ 0))
      × ((fallback_target_outstanding_packets n ≡ 0) ↔ (n ≡ 0))
      × (cyclic_target_outstanding_packets n ≤ target_outstanding_packets n)
      × (fallback_target_outstanding_packets n ≤ target_outstanding_packets n)
      × (target_outstanding_packets n ≤ 8)
      × ((n ≤ 1) ⊎ (target_outstanding_packets n < n))
unfolding target_outstanding_packets cyclic_target_outstanding_packets
    fallback_target_outstanding_packets
targets_leave_room n = ground arith

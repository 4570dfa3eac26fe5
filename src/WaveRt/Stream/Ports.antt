-- ===== src/WaveRt/Stream/Ports.antt =====
-- The calls of the audio stack: packets handed over in either direction, and positions.
use viosnd.Base.{
  ℕ, ◌+◌, ◌≤◌, ◌<◌, ◌≡◌, ◌≢◌, ◌⊎◌, Bool, true, false, not, max_ulong, sub32, u32, arith, ◌==◌,
}
use viosnd.Status.{status_success}
use viosnd.WaveRt.Packet.{packet_number_less_or_equal, has_writable_render_packet}
use viosnd.WaveRt.Stream.{Stream, set_write_packet, get_read_packet, get_position}

-- Both offsets that GetPosition reports lie inside a buffer that is not empty, and on a capture stream
-- they agree.
pub get_position_in_bounds :
    (qpc : ℕ) (s : Stream)
    → 0 < s.buffer_size
    → ((get_position qpc s).0 < s.buffer_size)
      × ((get_position qpc s).1 < s.buffer_size)
      × ((s.capture ≡ false) ⊎ ((get_position qpc s).0 ≡ (get_position qpc s).1))
unfolding get_position
get_position_in_bounds qpc s h = ground arith

writable_self : (n : ℕ) → n < max_ulong → has_writable_render_packet n n ≡ true
unfolding has_writable_render_packet
writable_self n h = ground arith

less_or_equal_self : (n : ℕ) → packet_number_less_or_equal n n ≡ true
unfolding packet_number_less_or_equal
less_or_equal_self n = ground arith

-- After a successful SetWritePacket of a packet other than MAXULONG the packet is the last one
-- written; the first one after a reset is also the next to be submitted, and can be; an
-- end-of-stream flag marks it, and without the flag no earlier mark is left at it or behind it.
pub set_write_packet_lem :
    (number : ℕ) (eos : Bool) (eos_length : ℕ) (s : Stream)
    → number < max_ulong
    → (set_write_packet number eos eos_length s).0 ≡ status_success
    → let t = (set_write_packet number eos eos_length s).1 in
      (t.last_os_write_packet ≡ number)
      × ((s.last_os_write_packet ≢ max_ulong)
          ⊎ (t.next_submit_packet ≡ number)
            × (has_writable_render_packet t.next_submit_packet t.last_os_write_packet ≡ true))
      × ((eos ≡ false) ⊎ (t.eos_packet_number ≡ number) × (t.eos_packet_length ≤ t.packet_size))
      × ((eos ≡ true)
          ⊎ ((t.eos_packet_number ≡ max_ulong)
              ⊎ (packet_number_less_or_equal t.eos_packet_number number ≡ false)))
      × (t.kicked ≡ true)
unfolding set_write_packet
set_write_packet_lem number eos eos_length s h ok =
    ground (arith, writable_self number h, less_or_equal_self number)

-- What the capture side keeps: the packets ready are those from the next to be read up to the last
-- completed, and they fit the buffer.
pub record IsReady (s : Stream) : Type 0 where
  pub counted : s.outstanding_writes ≡ sub32 s.packet_number s.next_read_packet
  pub fits : s.outstanding_writes ≤ s.notification_count
  pub next_is_ulong : s.next_read_packet ≤ max_ulong
  pub last_is_ulong : s.packet_number ≤ max_ulong

-- GetReadPacket keeps the ready packets counted; where it succeeds it returns the next packet, moves
-- on to its successor, uses up one ready packet, and says whether any is left; else nothing changes.
pub get_read_packet_lem :
    (qpc : ℕ) (s : Stream)
    → IsReady s
    → let (status, packet, t) = get_read_packet qpc s in
      IsReady t
      × ((status ≡ status_success)
            × (packet.number ≡ s.next_read_packet)
            × (t.next_read_packet ≡ u32 (s.next_read_packet + 1))
            × (t.outstanding_writes + 1 ≡ s.outstanding_writes)
            × (packet.more ≡ not (t.outstanding_writes == 0))
          ⊎ (status ≢ status_success) × (t ≡ s))
unfolding get_read_packet
get_read_packet_lem qpc s v = ground arith

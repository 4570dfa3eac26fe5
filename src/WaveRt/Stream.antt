-- ===== src/WaveRt/Stream.antt =====
-- The state of CViosndMiniportWaveRTStream in viosnd/sys/ViosndWaveRT.cpp, and the calls of the audio
-- stack that run on it alone. Counters that only the log reads are left out.
pub mod Ports
use viosnd.Base.{
  ℕ, zero, suc, ◌+◌, ◌-◌, ◌*◌, ◌/◌, ◌%◌, Bool, true, false, ◌&&◌, ◌||◌, not, List, [], ◌∷◌, leb,
  ltb, ◌==◌, if◌then◌else◌, u32, u64, min, max, max_ulong,
}
use viosnd.Base.Int.{ℤ, sub_ℕ}
use viosnd.Status.{NtStatus, status_success, status_invalid_device_request, status_device_not_ready}
use viosnd.Virtio.Host.{PcmIo}
use viosnd.WaveRt.Geometry.{
  target_outstanding_packets, cyclic_target_outstanding_packets,
  fallback_target_outstanding_packets,
}
use viosnd.WaveRt.Packet.{packet_number_less_or_equal}
use viosnd.WaveRt.Clock.{render_bytes_from_qpc}

-- KSSTATE
pub data KsState : Type 0 where
  ks_stop ks_acquire ks_pause ks_run : KsState

abbrev pub is_run : KsState → Bool
is_run ks_run = true
is_run _ = false

abbrev pub is_stop : KsState → Bool
is_stop ks_stop = true
is_stop _ = false

-- The fields of the class. `buffer i` holds the bytes of the i-th packet of m_Buffer. A pool of
-- transfers is the list of its free entries, the one that is taken next first. A pointer is 0 for
-- NULL. The last two fields are locals of the worker's loops, lastCompletedPackets and
-- CaptureWorkerLoop's targetOutstanding.
pub record Stream : Type 0 where
  pub stream_id : ℕ
  pub capture : Bool
  pub state : KsState
  pub mdl : ℕ
  pub has_buffer : Bool
  pub buffer : ℕ → List ℕ
  pub buffer_size : ℕ
  pub notification_count : ℕ
  pub packet_size : ℕ
  pub packet_number : ℕ
  pub last_os_write_packet : ℕ
  pub next_submit_packet : ℕ
  pub next_read_packet : ℕ
  pub eos_packet_number : ℕ
  pub eos_packet_length : ℕ
  pub outstanding_writes : ℕ
  pub render_preroll_packets : ℕ
  pub capture_in_flight : ℕ
  pub capture_overflows : ℕ
  pub render_fallback_phase : ℕ
  pub render_io_pool : List PcmIo
  pub fallback_buffer : ℕ
  pub fallback_buffer_size : ℕ
  pub capture_io_pool : List PcmIo
  pub position : ℕ
  pub run_start_position : ℕ
  pub run_start_qpc : ℕ
  pub qpc_frequency : ℕ
  pub fallback_monitor_start_position : ℕ
  pub fallback_monitor_start_qpc : ℕ
  pub notification_event : ℕ
  pub notifications : ℕ
  pub kicked : Bool
  pub fallback_active : Bool
  pub fallback_attempted : Bool
  pub render_stall_loops : ℕ
  pub thread_object : ℕ
  pub worker_started : Bool
  pub last_completed : ℕ
  pub capture_target : ℕ

-- KeSetEvent on m_NotificationEvent, if there is one.
abbrev pub notify : Stream → Stream
notify s = if s.notification_event == 0 then s else record s { notifications = s.notifications + 1 }

-- SetWritePacket: `eos` is whether KSSTREAM_HEADER_OPTIONSF_ENDOFSTREAM is set in Flags.
unfoldable pub set_write_packet : ℕ → Bool → ℕ → Stream → NtStatus × Stream
set_write_packet number eos eos_length s =
    if s.capture || (not s.has_buffer || s.packet_size == 0)
    then (status_invalid_device_request, s)
    else let first =
        if s.last_os_write_packet == max_ulong
        then record s { next_submit_packet = number; last_os_write_packet = number }
        else record s { last_os_write_packet = number } in
      let ended =
        if eos
        then record first {
          eos_packet_number = number;
          eos_packet_length = min eos_length s.packet_size;
        }
        else if not (s.eos_packet_number == max_ulong)
            && packet_number_less_or_equal s.eos_packet_number number
        then record first { eos_packet_number = max_ulong; eos_packet_length = 0 }
        else first in
      (status_success, record ended { kicked = true })

-- What GetReadPacket writes for its caller: the packet number, the counter value and MoreData.
pub record ReadPacket : Type 0 where
  pub number : ℕ
  pub counter : ℕ
  pub more : Bool

abbrev pub nothing_read : ReadPacket
nothing_read = record { number = 0; counter = 0; more = false }

-- GetReadPacket, at the performance counter `qpc`; what it reads is meaningless unless it succeeds.
unfoldable pub get_read_packet : ℕ → Stream → NtStatus × ReadPacket × Stream
get_read_packet qpc s =
    if not s.capture || (not s.has_buffer || s.packet_size == 0)
    then (status_invalid_device_request, nothing_read, s)
    else if not (is_run s.state) || s.outstanding_writes == 0
    then (status_device_not_ready, nothing_read, s)
    else (
      status_success,
      record {
        number = s.next_read_packet;
        counter = qpc;
        more = not (s.outstanding_writes - 1 == 0);
      },
      notify (record s {
        next_read_packet = u32 (s.next_read_packet + 1);
        outstanding_writes = s.outstanding_writes - 1;
      }),
    )

-- GetRenderClockPosition
unfoldable pub render_clock_position : ℕ → Stream → ℕ
render_clock_position qpc s =
    if s.capture || (s.run_start_qpc == 0 || s.qpc_frequency == 0)
    then s.position
    else u64
        (s.run_start_position + render_bytes_from_qpc (sub_ℕ qpc s.run_start_qpc) s.qpc_frequency)

-- The target that GetPosition and RenderWorkerLoop compute.
unfoldable pub target_outstanding : Stream → ℕ
target_outstanding s =
    if s.fallback_active
    then fallback_target_outstanding_packets s.notification_count
    else if s.last_os_write_packet == max_ulong
    then cyclic_target_outstanding_packets s.notification_count
    else target_outstanding_packets s.notification_count

-- `writeLead` of GetPosition.
unfoldable pub write_lead : Stream → ℕ
unfolding target_outstanding
write_lead s =
    let lead = u64 (s.packet_size * max (target_outstanding s) 1) in
    if s.fallback_active then u64 (lead * 3) else lead

-- GetPosition: PlayOffset and WriteOffset
unfoldable pub get_position : ℕ → Stream → ℕ × ℕ
unfolding render_clock_position write_lead
get_position qpc s =
    if s.buffer_size == 0
    then (0, 0)
    else if s.capture
    then (s.position % s.buffer_size, s.position % s.buffer_size)
    else let play = render_clock_position qpc s % s.buffer_size in
      (play, u64 (play + write_lead s) % s.buffer_size)

-- GetOutputStreamPresentationPosition: u64PositionInBlocks
unfoldable pub presentation_blocks : ℕ → Stream → ℕ
unfolding render_clock_position
presentation_blocks qpc s = (if s.capture then s.position else render_clock_position qpc s) / 4

-- GetPacketCount
unfoldable pub get_packet_count : Stream → ℕ
get_packet_count s = s.packet_number

-- RegisterNotificationEvent
unfoldable pub register_notification_event : ℕ → Stream → Stream
register_notification_event event s = record s { notification_event = event }

-- UnregisterNotificationEvent
unfoldable pub unregister_notification_event : ℕ → Stream → Stream
unregister_notification_event event s =
    if s.notification_event == event then record s { notification_event = 0 } else s

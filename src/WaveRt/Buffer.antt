-- ===== src/WaveRt/Buffer.antt =====
-- The audio buffer of CViosndMiniportWaveRTStream in viosnd/sys/ViosndWaveRT.cpp: its allocation, with
-- the geometry of its packets, and its release.
pub mod Tiling
use viosnd.Base.{
  ℕ, ◌*◌, ◌/◌, ◌==◌, Bool, true, false, List, [], Option, none, some, if◌then◌else◌, ltb, max,
  max_ulong, replicate,
}
use viosnd.Status.{
  NtStatus, nt_success, status_success, status_insufficient_resources, status_invalid_buffer_size,
}
use viosnd.Pcm.{default_buffer_bytes, default_period_bytes}
use viosnd.Virtio.Host.{Host}
use viosnd.Virtio.Device.{Device}
use viosnd.WaveRt.Geometry.{
  usable_buffer_size_from_allocated_size, notification_count_from_buffer_size,
  packet_size_from_notification_count,
}
use viosnd.WaveRt.Stream.{Stream}
use viosnd.WaveRt.Render.{R}
use viosnd.WaveRt.Render.Pool.{free_render_io_pool}
use viosnd.WaveRt.Capture.{free_capture_io_pool}

-- The fields that FreeAudioBuffer sets, once the pools are released.
unfoldable pub reset_buffer : Stream → Stream
reset_buffer s = record s {
  mdl = 0;
  has_buffer = false;
  buffer_size = 0;
  notification_count = 0;
  packet_size = 0;
  packet_number = 0;
  last_os_write_packet = max_ulong;
  next_submit_packet = 0;
  next_read_packet = 0;
  eos_packet_number = max_ulong;
  eos_packet_length = 0;
  outstanding_writes = 0;
  render_preroll_packets = 0;
  render_stall_loops = 0;
  render_fallback_phase = 0;
  fallback_active = false;
  fallback_attempted = false;
  fallback_monitor_start_position = 0;
  fallback_monitor_start_qpc = 0;
  capture_overflows = if s.capture_in_flight == 0 then 0 else s.capture_overflows;
  position = 0;
}

-- A mapping of `allocated` bytes, cleared, and the geometry that it gives.
unfoldable pub adopt_buffer : ℕ → Stream → Stream
unfolding packet_size_from_notification_count
adopt_buffer allocated s =
    let size = usable_buffer_size_from_allocated_size allocated in
    let count = notification_count_from_buffer_size size in
    let packet = packet_size_from_notification_count size count in
    record s {
      has_buffer = true;
      buffer = λ i. replicate packet 0;
      buffer_size = size;
      notification_count = count;
      packet_size = packet;
    }

module _ (h : Host) where
  open h use {World, mdl_alloc, mdl_map, mdl_free}

  -- FreeAudioBuffer; 0 is NULL.
  unfoldable pub free_audio_buffer : ℕ → R World (Unit {0})
  unfolding reset_buffer
  free_audio_buffer mdl s d w =
      let w0 = if mdl == 0 then w else mdl_free mdl w in
      let (_, s1, d1, w1) = free_render_io_pool h s d w0 in
      let (_, s2, d2, w2) = free_capture_io_pool h s1 d1 w1 in
      if mdl == s.mdl then (tt, reset_buffer s2, d2, w2) else (tt, s, d, w0)

  -- AllocateAudioBuffer from the MDL on
  unfoldable pub map_audio_buffer : ℕ → R World NtStatus
  unfolding free_audio_buffer adopt_buffer
  map_audio_buffer mdl s d w =
      let (mapped, w1) = mdl_map mdl w in
      let (_, s2, d2, w2) = free_audio_buffer mdl s d w1 in
      elim mapped [
        | none ↦ (status_insufficient_resources, s2, d2, w2)
        | some allocated ↦ (status_success, adopt_buffer allocated s, d, w1)
      ]

  -- AllocateAudioBuffer; a failed allocation leaves NULL in m_Mdl.
  unfoldable pub allocate_audio_buffer : ℕ → R World NtStatus
  unfolding map_audio_buffer
  allocate_audio_buffer requested s d w =
      let (mdl, w1) = mdl_alloc (max requested default_buffer_bytes) w in
      elim mdl [
        | none ↦ (status_insufficient_resources, record s { mdl = 0 }, d, w1)
        | some address ↦ map_audio_buffer address (record s { mdl = address }) d w1
      ]

  -- AllocateBufferWithNotification; it does not read RequestedSize.
  unfoldable pub allocate_buffer_with_notification : ℕ → R World NtStatus
  unfolding allocate_audio_buffer
  allocate_buffer_with_notification count s d w =
      let requested =
        max (if count == 0 then default_buffer_bytes / default_period_bytes else count) 1
        * default_period_bytes in
      let (status, s1, d1, w1) = allocate_audio_buffer requested s d w in
      if ltb max_ulong requested
      then (status_invalid_buffer_size, s, d, w)
      else if nt_success status
      then (let notifications = notification_count_from_buffer_size s1.buffer_size in
          (
            status,
            record s1 {
              notification_count = notifications;
              packet_size = packet_size_from_notification_count s1.buffer_size notifications;
            },
            d1,
            w1,
          ))
      else (status, s1, d1, w1)

  -- FreeBufferWithNotification
  unfoldable pub free_buffer_with_notification : ℕ → R World (Unit {0})
  unfolding free_audio_buffer
  free_buffer_with_notification mdl s d w =
      let (_, s1, d1, w1) = free_audio_buffer mdl s d w in
      (tt, record s1 { notification_count = 0; packet_size = 0 }, d1, w1)

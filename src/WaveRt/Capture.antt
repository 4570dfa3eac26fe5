-- ===== src/WaveRt/Capture.antt =====
-- The capture side of CViosndMiniportWaveRTStream in viosnd/sys/ViosndWaveRT.cpp: packets from the
-- receive queue into the ring that the audio stack reads.
pub mod Window
pub mod Drain
pub mod Queue
mod Tests
use viosnd.Base.{
  ◌%◌, ℕ, zero, suc, ◌+◌, ◌-◌, Bool, true, false, ◌||◌, not, List, [], ◌∷◌, ◌++◌, Option, none,
  some, leb, ltb, ◌==◌, if◌then◌else◌, u32, u64, sub32, min, length, take, replicate,
}
use viosnd.Status.{
  NtStatus, nt_success, status_success, status_not_found, status_invalid_device_request,
  status_device_not_ready, status_device_busy,
}
use viosnd.Virtio.Host.{Host, PcmIo}
use viosnd.Virtio.Device.{Device}
use viosnd.Virtio.Io.{Reclaimed}
use viosnd.Virtio.Io.Read.{
  submit_prepared_read_pcm, reclaim_prepared_read_pcm, allocate_read_pcm_io, free_read_pcm_io,
}
use viosnd.WaveRt.Samples.{pcm_copy_gain16, capture_software_gain}
use viosnd.WaveRt.Stream.{Stream, notify}
use viosnd.WaveRt.Render.{R}

abbrev pub capture_io_pool_size : ℕ
capture_io_pool_size = 8

-- What a packet of the ring holds after a transfer of `bytes` bytes: the copy, then silence.
unfoldable pub captured_packet : ℕ → ℕ → List ℕ → List ℕ
captured_packet packet_size bytes audio =
    (pcm_copy_gain16 (take (min bytes packet_size) audio) capture_software_gain).0
    ++ replicate (packet_size - bytes) 0

-- The ready packets after `packet` was captured; the ring forgets the oldest when it is full.
unfoldable pub advance_window : ℕ → Stream → Stream
advance_window packet s =
    let next = u32 (packet + 1) in
    let ready = sub32 next s.next_read_packet in
    let s' = record s {
      packet_number = next;
      position = u64 (s.position + s.packet_size);
      outstanding_writes = ready;
    } in
    if ltb s.notification_count ready
    then record s' {
      next_read_packet = u32 (s.next_read_packet + (ready - s.notification_count));
      outstanding_writes = s.notification_count;
      capture_overflows = u32 (s.capture_overflows + (ready - s.notification_count));
    }
    else s'

-- The place of a packet in the ring. Where m_NotificationCount is zero the source divides by zero.
abbrev pub capture_slot : Stream → ℕ → ℕ
capture_slot s number = number % s.notification_count

-- What ReclaimCapturePackets does for a transfer that came back with success.
unfoldable pub account_capture : Reclaimed → PcmIo → Stream → Stream
unfolding captured_packet advance_window
account_capture r io s =
    let stored = record s {
      buffer = λ i.
          if i == capture_slot s io.packet_number
          then captured_packet s.packet_size r.bytes r.audio
          else s.buffer i;
    } in
    notify (advance_window io.packet_number stored)

abbrev pub one_less_in_flight : Stream → Stream
one_less_in_flight s =
    if s.capture_in_flight == 0 then s else record s { capture_in_flight = s.capture_in_flight - 1 }

module _ (h : Host) where
  open h use {World, rx_queued}

  -- SubmitCapturePacket, with the pool's free transfers as an argument
  unfoldable pub submit_from_capture_pool : List PcmIo → R World NtStatus
  submit_from_capture_pool [] s d w = (status_device_busy, s, d, w)
  submit_from_capture_pool (io ∷ rest) s d w =
      if leb s.notification_count s.capture_in_flight
      then (status_device_busy, s, d, w)
      else let (result, d', w') =
          submit_prepared_read_pcm h s.stream_id s.packet_size s.next_submit_packet io d w in
        if nt_success result.0
        then (
          result.0,
          record s {
            capture_io_pool = rest;
            next_submit_packet = u32 (s.next_submit_packet + 1);
            capture_in_flight = s.capture_in_flight + 1;
          },
          d',
          w',
        )
        else (result.0, record s { capture_io_pool = result.1 ∷ rest }, d', w')

  -- SubmitCapturePacket
  unfoldable pub submit_capture_packet : R World NtStatus
  unfolding submit_from_capture_pool
  submit_capture_packet s d w =
      if not s.capture || (not s.has_buffer || (s.packet_size == 0 || s.notification_count == 0))
      then (status_invalid_device_request, s, d, w)
      else submit_from_capture_pool s.capture_io_pool s d w

  -- The end of a round of ReclaimCapturePackets: the transfer goes back to the pool, or is freed.
  unfoldable pub return_capture_io : Option PcmIo → R World (Unit {0})
  return_capture_io none s d w = (tt, s, d, w)
  return_capture_io (some io) s d w =
      if ltb (length s.capture_io_pool) capture_io_pool_size
      then (tt, record s { capture_io_pool = io ∷ s.capture_io_pool }, d, w)
      else let (_, d', w') = free_read_pcm_io h io d w in (tt, s, d', w')

  -- The fields after a round that did not find the queue empty.
  unfoldable pub account_reclaimed : Reclaimed → Stream → Stream
  unfolding account_capture
  account_reclaimed r s = elim r.io [
    | none ↦ one_less_in_flight s
    | some io ↦
        if nt_success r.status
        then account_capture r io (one_less_in_flight s)
        else one_less_in_flight s
  ]

  -- The loop of ReclaimCapturePackets: whether it returned before its fuel ran out.
  unfoldable pub reclaim_capture_loop : ℕ → R World Bool
  unfolding account_reclaimed return_capture_io
  reclaim_capture_loop zero s d w = (false, s, d, w)
  reclaim_capture_loop (suc fuel) s d w =
      let (r, d1, w1) = reclaim_prepared_read_pcm h d w in
      let (_, s2, d2, w2) = return_capture_io r.io (account_reclaimed r s) d1 w1 in
      let later = reclaim_capture_loop fuel s2 d2 w2 in
      if r.status == status_not_found then (true, s, d1, w1) else later

  -- ReclaimCapturePackets, with fuel for every transfer on the queue
  unfoldable pub reclaim_capture_packets : R World Bool
  unfolding reclaim_capture_loop
  reclaim_capture_packets s d w = reclaim_capture_loop (rx_queued w + 1) s d w

  unfoldable pub free_capture_ios : List PcmIo → Device → World → Device × World
  free_capture_ios [] d w = (d, w)
  free_capture_ios (io ∷ rest) d w =
      let (_, d', w') = free_read_pcm_io h io d w in free_capture_ios rest d' w'

  -- FreeCaptureIoPool
  unfoldable pub free_capture_io_pool : R World (Unit {0})
  unfolding free_capture_ios
  free_capture_io_pool s d w =
      if not s.capture || not (s.capture_in_flight == 0)
      then (tt, s, d, w)
      else let (d', w') = free_capture_ios s.capture_io_pool d w in
        (tt, record s { capture_io_pool = [] }, d', w')

  -- The loop of AllocateCaptureIoPool, with `n` transfers left to allocate.
  unfoldable pub fill_capture_pool : ℕ → R World NtStatus
  unfolding free_capture_io_pool
  fill_capture_pool zero s d w = (status_success, s, d, w)
  fill_capture_pool (suc n) s d w =
      let (result, d1, w1) = allocate_read_pcm_io h s.packet_size d w in
      elim result.1 [
        | none ↦ let (_, s2, d2, w2) = free_capture_io_pool s d1 w1 in (result.0, s2, d2, w2)
        | some io ↦
            fill_capture_pool n (record s { capture_io_pool = io ∷ s.capture_io_pool }) d1 w1
      ]

  -- AllocateCaptureIoPool
  unfoldable pub allocate_capture_io_pool : R World NtStatus
  unfolding fill_capture_pool
  allocate_capture_io_pool s d w =
      if not s.capture || not (length s.capture_io_pool == 0)
      then (status_success, s, d, w)
      else if s.packet_size == 0
      then (status_device_not_ready, s, d, w)
      else fill_capture_pool capture_io_pool_size s d w

-- ===== src/WaveRt/Render.antt =====
-- The render side of CViosndMiniportWaveRTStream in viosnd/sys/ViosndWaveRT.cpp: packets to the
-- transmit queue and back.
pub mod Conservation
pub mod Pool
pub mod Filled
pub mod Cancel
use viosnd.Base.{
  ℕ, zero, suc, ◌+◌, ◌-◌, ◌*◌, ◌%◌, ◌≡◌, Bool, true, false, ◌&&◌, ◌||◌, not, List, [], ◌∷◌, ◌++◌,
  Option, none, some, leb, ltb, ◌==◌, if◌then◌else◌, u32, u64, min, max, max_ulong, length, take,
  replicate,
}
use viosnd.Status.{
  NtStatus, nt_success, status_success, status_not_found, status_invalid_device_request,
  status_device_not_ready, status_device_busy, status_invalid_buffer_size,
  status_insufficient_resources,
}
use viosnd.Pcm.{fallback_period_bytes, fallback_sample_rate, default_period_bytes}
use viosnd.Virtio.Host.{Host, PcmIo}
use viosnd.Virtio.Device.{Device}
use viosnd.Virtio.Io.{
  Reclaimed, submit_prepared_write_pcm, reclaim_prepared_write_pcm, detach_unused_write_pcm,
  allocate_write_pcm_io, free_write_pcm_io,
}
use viosnd.WaveRt.Packet.{packet_number_less_or_equal}
use viosnd.WaveRt.Downsample.{downsample_stereo16}
use viosnd.WaveRt.Stream.{Stream, notify}

abbrev pub render_io_pool_size : ℕ
render_io_pool_size = 12

-- Code of the class, on a stream, the device and the world.
abbrev pub R : Type 0 → Type 0 → Type 0
R W A = Stream → Device → W → A × Stream × Device × W

-- The packet of the buffer that holds packet `number`.
abbrev pub slot : Stream → ℕ → ℕ
slot s number = number % max s.notification_count 1

-- RtlZeroMemory behind the first `kept` bytes of a packet.
abbrev pub cut_packet : ℕ → Stream → ℕ → Stream
cut_packet number s kept = record s {
  buffer = λ i.
      if i == slot s number
      then take kept (s.buffer i) ++ replicate (s.packet_size - kept) 0
      else s.buffer i;
}

-- What is submitted: the bytes, `sourceLength`, `sourcePackets`, and the downsampling phase.
pub record Batch : Type 0 where
  pub bytes : List ℕ
  pub source_length : ℕ
  pub source_packets : ℕ
  pub phase : ℕ

-- The rate loop of SubmitRenderPacket, with `rounds` of its three left.
unfoldable pub gather : ℕ → ℕ → Stream → Batch → Batch
gather zero source_packet s b = b
gather (suc rounds) source_packet s b =
    if leb fallback_period_bytes (length b.bytes)
    then b
    else if not (s.last_os_write_packet == max_ulong)
        && not (packet_number_less_or_equal source_packet s.last_os_write_packet)
    then b
    else let size =
        if s.eos_packet_number == source_packet then s.eos_packet_length else s.packet_size in
      let (written, count, phase) =
        downsample_stereo16 (fallback_period_bytes - length b.bytes)
          (take size (s.buffer (slot s source_packet))) fallback_sample_rate b.phase in
      let b' : Batch = record {
        bytes = b.bytes ++ written;
        source_length = u32 (b.source_length + size);
        source_packets = b.source_packets + 1;
        phase = phase;
      } in
      let later = gather rounds (u32 (source_packet + 1)) s b' in
      if s.eos_packet_number == source_packet then b' else later

-- The bytes that SubmitRenderPacket submits, or the status with which it gives up.
pub data Prepared : Type 0 where
  ready : Batch → Prepared
  refused : NtStatus → Prepared

unfoldable pub prepare_batch : ℕ → Stream → Prepared
unfolding gather
prepare_batch number s =
    if not s.fallback_active
    then ready (record {
      bytes = s.buffer (slot s number);
      source_length = s.packet_size;
      source_packets = 1;
      phase = s.render_fallback_phase;
    })
    else if s.fallback_buffer == 0 || ltb s.fallback_buffer_size fallback_period_bytes
    then refused status_device_not_ready
    else let batch = gather 3 number s (record {
      bytes = [];
      source_length = 0;
      source_packets = 0;
      phase = s.render_fallback_phase;
    }) in
      if length batch.bytes == 0 then refused status_invalid_buffer_size else ready batch

-- What ReclaimRenderPackets does to the fields for one completed transfer.
unfoldable pub account_completion : Reclaimed → PcmIo → Stream → Stream
account_completion r io s =
    let s' =
      if s.outstanding_writes == 0
      then s
      else record s { outstanding_writes = s.outstanding_writes - 1 } in
    if not (nt_success r.status) || io.packet_number == max_ulong
    then s'
    else let chosen = if s.fallback_active then io.source_length else r.bytes in
      let source_bytes = if chosen == 0 then r.bytes else chosen in
      notify (record s' {
        position = u64 (s.position + source_bytes);
        packet_number = u32 (s.packet_number + 1);
      })

module _ (h : Host) where
  open h use {World, tx_queued, pool_alloc, pool_free}

  -- The exchange of SubmitRenderPacket and of SubmitRenderSilencePacket with the pool: a transfer is
  -- taken, and put back if it is not submitted. On success `advance` is applied.
  unfoldable pub submit_from_pool :
      List PcmIo → List ℕ → ℕ → ℕ → (Stream → Stream) → R World NtStatus
  submit_from_pool [] bytes source_length number advance s d w = (status_device_busy, s, d, w)
  submit_from_pool (io ∷ rest) bytes source_length number advance s d w =
      let (result, d', w') =
        submit_prepared_write_pcm h s.stream_id bytes source_length number io d w in
      if nt_success result.0
      then (
        result.0,
        advance (record s { render_io_pool = rest; outstanding_writes = s.outstanding_writes + 1 }),
        d',
        w',
      )
      else (result.0, record s { render_io_pool = result.1 ∷ rest }, d', w')

  -- SubmitRenderPacket from the prepared batch on
  unfoldable pub submit_batch : ℕ → Prepared → R World NtStatus
  unfolding submit_from_pool
  submit_batch number (refused status) s d w = (status, s, d, w)
  submit_batch number (ready b) s d w =
      submit_from_pool s.render_io_pool b.bytes b.source_length number
        (λ t. record t { next_submit_packet = u32 (number + b.source_packets) })
        (record s { render_fallback_phase = b.phase }) d w

  -- SubmitRenderPacket
  unfoldable pub submit_render_packet : ℕ → ℕ → R World NtStatus
  unfolding submit_batch prepare_batch
  submit_render_packet number size s d w =
      if s.capture || (not s.has_buffer || s.packet_size == 0)
      then (status_invalid_device_request, s, d, w)
      else if length s.render_io_pool == 0
      then (status_device_busy, s, d, w)
      else let s' = if ltb size s.packet_size then cut_packet number s size else s in
        submit_batch number (prepare_batch number s') s' d w

  -- SubmitRenderSilencePacket; MAXULONG is no packet number.
  unfoldable pub submit_render_silence_packet : ℕ → R World NtStatus
  unfolding submit_from_pool
  submit_render_silence_packet number s d w =
      let size = if s.fallback_active then fallback_period_bytes else s.packet_size in
      if s.capture || (not s.has_buffer || s.packet_size == 0)
      then (status_invalid_device_request, s, d, w)
      else if length s.render_io_pool == 0
      then (status_device_busy, s, d, w)
      else if ltb default_period_bytes size
      then (status_invalid_buffer_size, s, d, w)
      else submit_from_pool s.render_io_pool (replicate size 0) size number
          (λ t.
            if number == max_ulong then t else record t { next_submit_packet = u32 (number + 1) })
          s d w

  -- The transfer goes back to the pool, or is freed if the pool is full.
  unfoldable pub return_render_io : PcmIo → R World (Unit {0})
  return_render_io io s d w =
      if ltb (length s.render_io_pool) render_io_pool_size
      then (tt, record s { render_io_pool = io ∷ s.render_io_pool }, d, w)
      else let (_, d', w') = free_write_pcm_io h io d w in (tt, s, d', w')

  -- The loop of ReclaimRenderPackets: whether it returned before its fuel ran out.
  unfoldable pub reclaim_render_loop : ℕ → R World Bool
  unfolding account_completion return_render_io
  reclaim_render_loop zero s d w = (false, s, d, w)
  reclaim_render_loop (suc fuel) s d w =
      let (r, d1, w1) = reclaim_prepared_write_pcm h d w in
      elim r.io [
        | none ↦ (true, s, d1, w1)
        | some io ↦
            let (_, s2, d2, w2) = return_render_io io (account_completion r io s) d1 w1 in
            reclaim_render_loop fuel s2 d2 w2
      ]

  -- ReclaimRenderPackets, with fuel for every transfer on the queue
  unfoldable pub reclaim_render_packets : R World Bool
  unfolding reclaim_render_loop
  reclaim_render_packets s d w = reclaim_render_loop (tx_queued w + 1) s d w

  -- The loop of CancelRenderWrites; each round that goes on takes one off m_OutstandingWrites, which
  -- is the first argument.
  unfoldable pub detach_writes : ℕ → R World (Unit {0})
  unfolding return_render_io
  detach_writes zero s d w = (tt, s, d, w)
  detach_writes (suc n) s d w =
      let (result, d1, w1) = detach_unused_write_pcm h d w in
      elim result.1 [
        | none ↦ (tt, s, d1, w1)
        | some io ↦
            let (_, s2, d2, w2) = return_render_io io (record s { outstanding_writes = n }) d1 w1 in
            detach_writes n s2 d2 w2
      ]

  -- CancelRenderWrites
  unfoldable pub cancel_render_writes : R World (Unit {0})
  unfolding reclaim_render_packets detach_writes
  cancel_render_writes s d w =
      if s.capture
      then (tt, s, d, w)
      else let (_, s1, d1, w1) = reclaim_render_packets s d w in
        detach_writes s1.outstanding_writes s1 d1 w1

-- ===== src/Virtio/Io/Read.antt =====
-- The capture transfers of viosnd/sys/ViosndVirtio.cpp: their buffers, and their submission to and
-- reclaim from the receive queue.
use viosnd.Base.{
  ℕ, zero, suc, ◌+◌, ◌-◌, ◌||◌, ◌==◌, not, ltb, Option, none, some, if◌then◌else◌, u32, min,
}
use viosnd.Status.{
  NtStatus, status_success, status_not_found, status_device_not_ready,
  status_insufficient_resources, status_invalid_parameter, status_device_busy,
  status_io_device_error,
}
use viosnd.Protocol.{s_ok}
use viosnd.Virtio.Host.{Host, PcmIo, Used}
use viosnd.Virtio.Device.{M}
use viosnd.Virtio.Dma.{allocate_dma_buffer, free_dma_buffer}
use viosnd.Virtio.Control.{va_of, pa_of}
use viosnd.Virtio.Io.{Reclaimed, reclaim_failed, zero_io, xfer_size, pcm_status_size, pcm_io_size}

-- ViosndReclaimPreparedReadPcm on a completed buffer. The status follows the audio, at the end of
-- what the device wrote.
unfoldable pub complete_read : Option Used → Reclaimed
complete_read none = reclaim_failed status_not_found
complete_read (some u) =
    if ltb u.used_length pcm_status_size
    then record {
      status = status_io_device_error;
      io = some u.io;
      bytes = 0;
      latency_bytes = 0;
      audio = u.audio;
    }
    else if u.status == s_ok
    then record {
      status = status_success;
      io = some u.io;
      bytes = min u.io.audio_length (u.used_length - pcm_status_size);
      latency_bytes = u.latency_bytes;
      audio = u.audio;
    }
    else record {
      status = status_io_device_error;
      io = some u.io;
      bytes = 0;
      latency_bytes = u.latency_bytes;
      audio = u.audio;
    }

module _ (h : Host) where
  open h use {World, pool_alloc, pool_free, rx_add, rx_kick, rx_get, rx_detach, rx_queued}

  -- ViosndAllocateReadPcmIo, for the structure at `address`
  unfoldable pub fill_read_io : ℕ → ℕ → M World (NtStatus × Option PcmIo)
  fill_read_io max_audio_length address d w =
      let (req, d1, w1) = allocate_dma_buffer h xfer_size d w in
      let (audio, d2, w2) =
        allocate_dma_buffer h (u32 (max_audio_length + pcm_status_size)) d1 w1 in
      if va_of req == 0 || va_of audio == 0
      then (let (_, d3, w3) = free_dma_buffer h (va_of req) d2 w2 in
          let (_, d4, w4) = free_dma_buffer h (va_of audio) d3 w3 in
          ((status_insufficient_resources, none), d4, pool_free address w4))
      else (
        (
          status_success,
          some (record zero_io {
            address = address;
            request_va = va_of req;
            request_pa = pa_of req;
            request_length = xfer_size;
            audio_va = va_of audio;
            audio_pa = pa_of audio;
            max_audio_length = max_audio_length;
          }),
        ),
        d2,
        w2,
      )

  -- ViosndAllocateReadPcmIo
  unfoldable pub allocate_read_pcm_io : ℕ → M World (NtStatus × Option PcmIo)
  unfolding fill_read_io
  allocate_read_pcm_io max_audio_length d w =
      let (block, w') = pool_alloc pcm_io_size w in
      elim block [
        | none ↦ ((status_insufficient_resources, none), d, w')
        | some address ↦ fill_read_io max_audio_length address d w'
      ]

  -- ViosndFreeReadPcmIo, at a transfer that is not NULL
  unfoldable pub free_read_pcm_io : PcmIo → M World (Unit {0})
  free_read_pcm_io io d w =
      let (_, d1, w1) = free_dma_buffer h io.request_va d w in
      let (_, d2, w2) = free_dma_buffer h io.audio_va d1 w1 in (tt, d2, pool_free io.address w2)

  -- What ViosndSubmitPreparedReadPcm writes to the transfer.
  unfoldable pub prepare_read : ℕ → ℕ → ℕ → PcmIo → PcmIo
  prepare_read stream size packet io = record io {
    header_stream_id = stream;
    stream_id = stream;
    audio_length = size;
    packet_number = packet;
  }

  -- ViosndSubmitPreparedReadPcm, at a transfer that is not NULL. The wait for the mutex has no
  -- timeout, and the mutex is free again at return.
  unfoldable pub submit_prepared_read_pcm : ℕ → ℕ → ℕ → PcmIo → M World (NtStatus × PcmIo)
  unfolding prepare_read
  submit_prepared_read_pcm stream size packet io d w =
      if not d.rx_queue
      then ((status_device_not_ready, io), d, w)
      else if io.request_va == 0 || io.audio_va == 0 || ltb io.max_audio_length size
      then ((status_invalid_parameter, io), d, w)
      else let ready = prepare_read stream size packet io in
        elim (rx_add ready
          (record { out_length = xfer_size; in_length = u32 (size + pcm_status_size) }) w) [
            | none ↦ ((status_device_busy, ready), d, w)
            | some w' ↦ ((status_success, ready), d, rx_kick w')
          ]

  -- ViosndReclaimPreparedReadPcm
  unfoldable pub reclaim_prepared_read_pcm : M World Reclaimed
  unfolding complete_read
  reclaim_prepared_read_pcm d w =
      if not d.rx_queue
      then (reclaim_failed status_device_not_ready, d, w)
      else let (used, w') = rx_get w in (complete_read used, d, w')

  -- The loop of ViosndDetachUnusedReadPcm: how many transfers it detached and freed.
  unfoldable pub detach_reads : ℕ → ℕ → M World ℕ
  unfolding free_read_pcm_io
  detach_reads zero count d w = (count, d, w)
  detach_reads (suc fuel) count d w =
      let (io, w1) = rx_detach w in
      elim io [
        | none ↦ (count, d, w1)
        | some transfer ↦
            let (_, d2, w2) = free_read_pcm_io transfer d w1 in
            detach_reads fuel (u32 (count + 1)) d2 w2
      ]

  -- ViosndDetachUnusedReadPcm, with fuel for every transfer on the queue. The mutex is free again at
  -- return.
  unfoldable pub detach_unused_read_pcm : M World ℕ
  unfolding detach_reads
  detach_unused_read_pcm d w =
      if not d.rx_queue then (0, d, w) else detach_reads (rx_queued w + 1) 0 d w

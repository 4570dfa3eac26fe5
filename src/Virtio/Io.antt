-- ===== src/Virtio/Io.antt =====
-- PCM transfers of viosnd/sys/ViosndVirtio.cpp: the transfer buffers, and their submission to and
-- reclaim from the transmit and the receive queue.
pub mod Read
use viosnd.Base.{
  ℕ, ◌+◌, ◌-◌, Bool, true, false, ◌||◌, not, List, [], Option, none, some, ltb, ◌==◌, if◌then◌else◌,
  u32, min, length,
}
use viosnd.Status.{
  NtStatus, nt_success, status_success, status_timeout, status_io_timeout, status_not_found,
  status_device_not_ready, status_insufficient_resources, status_invalid_parameter,
  status_device_busy, status_io_device_error,
}
use viosnd.Protocol.{s_ok}
use viosnd.Virtio.Host.{Host, PcmIo, Used, Lengths}
use viosnd.Virtio.Device.{Device, M}
use viosnd.Virtio.Dma.{allocate_dma_buffer, free_dma_buffer}
use viosnd.Virtio.Control.{va_of, pa_of}

-- sizeof(VIRTIO_SND_PCM_XFER) and sizeof(VIRTIO_SND_PCM_STATUS)
abbrev pub xfer_size : ℕ
xfer_size = 4

abbrev pub pcm_status_size : ℕ
pcm_status_size = 8

-- sizeof(VIOSND_PCM_IO), as the x64 compiler lays it out
abbrev pub pcm_io_size : ℕ
pcm_io_size = 88

abbrev pub zero_io : PcmIo
zero_io = record {
  address = 0;
  request_va = 0;
  request_pa = 0;
  request_length = 0;
  audio_va = 0;
  audio_pa = 0;
  max_audio_length = 0;
  status_va = 0;
  status_pa = 0;
  audio_length = 0;
  source_length = 0;
  packet_number = 0;
  stream_id = 0;
  header_stream_id = 0;
  payload = [];
}

-- What a reclaim gives back: its status, and `*Io`, the byte count and `*LatencyBytes`.
pub record Reclaimed : Type 0 where
  pub status : NtStatus
  pub io : Option PcmIo
  pub bytes : ℕ
  pub latency_bytes : ℕ
  pub audio : List ℕ

abbrev pub reclaim_failed : NtStatus → Reclaimed
reclaim_failed s = record { status = s; io = none; bytes = 0; latency_bytes = 0; audio = [] }

-- ViosndReclaimPreparedWritePcm on a completed buffer: the PCM status is not consulted.
unfoldable pub complete_write : Option Used → Reclaimed
complete_write none = reclaim_failed status_not_found
complete_write (some u) = record {
  status = status_success;
  io = some u.io;
  bytes = u.io.audio_length;
  latency_bytes = u.latency_bytes;
  audio = [];
}

abbrev pub io_found : Option PcmIo → Bool
io_found none = false
io_found (some io) = true

module _ (h : Host) where
  open h use {
    World, pool_alloc, pool_free, wait_tx, tx_add, tx_kick, tx_get, tx_detach, rx_add, rx_kick,
    rx_get, rx_detach,
  }

  -- ViosndAllocateWritePcmIo, for the structure at `address`
  unfoldable pub fill_write_io : ℕ → ℕ → M World (NtStatus × Option PcmIo)
  fill_write_io max_audio_length address d w =
      let request_length = u32 (xfer_size + max_audio_length) in
      let (req, d1, w1) = allocate_dma_buffer h request_length d w in
      let (st, d2, w2) = allocate_dma_buffer h pcm_status_size d1 w1 in
      if va_of req == 0 || va_of st == 0
      then (let (_, d3, w3) = free_dma_buffer h (va_of req) d2 w2 in
          let (_, d4, w4) = free_dma_buffer h (va_of st) d3 w3 in
          ((status_insufficient_resources, none), d4, pool_free address w4))
      else (
        (
          status_success,
          some (record zero_io {
            address = address;
            request_va = va_of req;
            request_pa = pa_of req;
            request_length = request_length;
            status_va = va_of st;
            status_pa = pa_of st;
          }),
        ),
        d2,
        w2,
      )

  -- ViosndAllocateWritePcmIo
  unfoldable pub allocate_write_pcm_io : ℕ → M World (NtStatus × Option PcmIo)
  unfolding fill_write_io
  allocate_write_pcm_io max_audio_length d w =
      let (block, w') = pool_alloc pcm_io_size w in
      elim block [
        | none ↦ ((status_insufficient_resources, none), d, w')
        | some address ↦ fill_write_io max_audio_length address d w'
      ]

  -- ViosndFreeWritePcmIo, at a transfer that is not NULL
  unfoldable pub free_write_pcm_io : PcmIo → M World (Unit {0})
  free_write_pcm_io io d w =
      let (_, d1, w1) = free_dma_buffer h io.request_va d w in
      let (_, d2, w2) = free_dma_buffer h io.status_va d1 w1 in (tt, d2, pool_free io.address w2)

  -- ViosndAcquireTxQueue: STATUS_TIMEOUT is a success code, and becomes an error. On success the
  -- mutex is held.
  unfoldable pub acquire_tx_queue : M World NtStatus
  acquire_tx_queue d w =
      let (status, w') = wait_tx w in
      if status == status_timeout
      then (status_io_timeout, d, w')
      else (status, (if nt_success status then record d { tx_mutex = d.tx_mutex + 1 } else d), w')

  abbrev pub release_tx : Device → Device
  release_tx d = record d { tx_mutex = d.tx_mutex - 1 }

  -- What ViosndSubmitPreparedWritePcm writes to the transfer, for a buffer of Length bytes.
  unfoldable pub prepare_write : ℕ → List ℕ → ℕ → ℕ → PcmIo → PcmIo
  prepare_write stream buffer source_length packet io = record io {
    header_stream_id = stream;
    payload = buffer;
    audio_length = length buffer;
    source_length = if source_length == 0 then length buffer else source_length;
    packet_number = packet;
    stream_id = stream;
  }

  abbrev pub write_lengths : List ℕ → Lengths
  write_lengths buffer = record {
    out_length = u32 (xfer_size + length buffer);
    in_length = pcm_status_size;
  }

  -- The exchange with the queue, under the mutex.
  unfoldable pub enqueue_write : PcmIo → List ℕ → M World NtStatus
  unfolding acquire_tx_queue
  enqueue_write io buffer d w =
      let (status, d1, w1) = acquire_tx_queue d w in
      if not (nt_success status)
      then (status, d1, w1)
      else elim (tx_add io (write_lengths buffer) w1) [
        | none ↦ (status_device_busy, release_tx d1, w1)
        | some w2 ↦ (status_success, release_tx d1, tx_kick w2)
      ]

  -- ViosndSubmitPreparedWritePcm, at a transfer that is not NULL: the status, and the transfer after
  -- the call, which is also what went on the queue
  unfoldable pub submit_prepared_write_pcm : ℕ → List ℕ → ℕ → ℕ → PcmIo → M World (NtStatus × PcmIo)
  unfolding prepare_write enqueue_write
  submit_prepared_write_pcm stream buffer source_length packet io d w =
      if not d.tx_queue
      then ((status_device_not_ready, io), d, w)
      else if io.request_va == 0
          || io.status_va == 0
          || ltb io.request_length (xfer_size + length buffer)
      then ((status_invalid_parameter, io), d, w)
      else let ready = prepare_write stream buffer source_length packet io in
        let (status, d', w') = enqueue_write ready buffer d w in ((status, ready), d', w')

  -- ViosndReclaimPreparedWritePcm
  unfoldable pub reclaim_prepared_write_pcm : M World Reclaimed
  unfolding complete_write acquire_tx_queue
  reclaim_prepared_write_pcm d w =
      if not d.tx_queue
      then (reclaim_failed status_device_not_ready, d, w)
      else let (status, d1, w1) = acquire_tx_queue d w in
        if not (nt_success status)
        then (reclaim_failed status, d1, w1)
        else let (used, w2) = tx_get w1 in (complete_write used, release_tx d1, w2)

  -- ViosndDetachUnusedWritePcm
  unfoldable pub detach_unused_write_pcm : M World (NtStatus × Option PcmIo)
  unfolding acquire_tx_queue
  detach_unused_write_pcm d w =
      if not d.tx_queue
      then ((status_device_not_ready, none), d, w)
      else let (status, d1, w1) = acquire_tx_queue d w in
        if not (nt_success status)
        then ((status, none), d1, w1)
        else let (io, w2) = tx_detach w1 in
          ((if io_found io then status_success else status_not_found, io), release_tx d1, w2)

  -- ViosndKickTxQueue, at a device that is not NULL
  unfoldable pub kick_tx_queue : M World (Unit {0})
  unfolding acquire_tx_queue
  kick_tx_queue d w =
      if not d.tx_queue
      then (tt, d, w)
      else let (status, d1, w1) = acquire_tx_queue d w in
        if not (nt_success status) then (tt, d1, w1) else (tt, release_tx d1, tx_kick w1)

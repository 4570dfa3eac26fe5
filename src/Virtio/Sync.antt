-- ===== src/Virtio/Sync.antt =====
-- The transfers of viosnd/sys/ViosndVirtio.cpp that wait for the device, and those that allocate their
-- own buffers; the streams use neither.
pub mod Waiting
mod Tests
use viosnd.Base.{
  ℕ, zero, suc, ◌+◌, ◌-◌, ◌*◌, ◌/◌, ◌||◌, not, List, [], Option, none, some, ltb, ◌==◌,
  if◌then◌else◌, true, false, u32, min, length, take,
}
use viosnd.Status.{
  NtStatus, nt_success, status_success, status_io_timeout, status_not_found,
  status_device_not_ready, status_insufficient_resources, status_device_busy,
  status_io_device_error,
}
use viosnd.Protocol.{s_ok}
use viosnd.Virtio.Host.{Host, PcmIo, Used}
use viosnd.Virtio.Device.{Device, M}
use viosnd.Virtio.Dma.{allocate_dma_buffer, free_dma_buffer}
use viosnd.Virtio.Control.{va_of, pa_of, control_timeout_us, control_poll_delay_us}
use viosnd.Virtio.Io.{
  xfer_size, pcm_status_size, zero_io, write_lengths, allocate_write_pcm_io, free_write_pcm_io,
  submit_prepared_write_pcm, reclaim_prepared_write_pcm,
}

-- How a wait ends: with the buffer, at its timeout, or with the model's fuel used up.
pub data Waited : Type 0 where
  got : Used → Waited
  late : Waited
  starved : Waited

-- One round for each poll delay of the timeout
abbrev pub wait_rounds : ℕ
wait_rounds = control_timeout_us / control_poll_delay_us

-- What ViosndWritePcm and ViosndReadPcm return: the status, the byte count, and what was read.
pub record Transferred : Type 0 where
  pub status : NtStatus
  pub bytes : ℕ
  pub audio : List ℕ

abbrev pub transfer_failed : NtStatus → Transferred
transfer_failed s = record { status = s; bytes = 0; audio = [] }

-- The end of ViosndWritePcm for a buffer of `size` bytes
unfoldable pub finish_write : ℕ → Waited → Transferred
finish_write size late = transfer_failed status_io_timeout
finish_write size starved = transfer_failed status_io_timeout
finish_write size (got u) =
    if u.status == s_ok
    then record { status = status_success; bytes = size; audio = [] }
    else transfer_failed status_io_device_error

-- The end of ViosndReadPcm for a buffer of `size` bytes
unfoldable pub finish_read : ℕ → Waited → Transferred
finish_read size late = transfer_failed status_io_timeout
finish_read size starved = transfer_failed status_io_timeout
finish_read size (got u) =
    let bytes = min (u.used_length - pcm_status_size) size in
    if ltb u.used_length pcm_status_size || ltb (u32 (size + pcm_status_size)) u.used_length
    then transfer_failed status_io_device_error
    else if u.status == s_ok
    then record { status = status_success; bytes = bytes; audio = take bytes u.audio }
    else transfer_failed status_io_device_error

-- ViosndGetPcmIoAudioBuffer, ViosndGetPcmIoPacketNumber and ViosndGetPcmIoSourceLength
unfoldable pub get_pcm_io_audio_buffer : Option PcmIo → ℕ
get_pcm_io_audio_buffer none = 0
get_pcm_io_audio_buffer (some io) =
    if not (io.audio_va == 0) then io.audio_va else io.request_va + xfer_size

unfoldable pub get_pcm_io_packet_number : Option PcmIo → ℕ
get_pcm_io_packet_number none = 0
get_pcm_io_packet_number (some io) = io.packet_number

unfoldable pub get_pcm_io_source_length : Option PcmIo → ℕ
get_pcm_io_source_length none = 0
get_pcm_io_source_length (some io) = io.source_length

module _ (h : Host) where
  open h use {World, delay_us, tx_add, tx_kick, tx_get, rx_add, rx_kick, rx_get}

  -- ViosndWaitForUsedBuffer on the queue that `get` takes buffers from, for the one that was added
  -- with the pointer `opaque`; another one that it takes is dropped.
  unfoldable pub wait_for_used : (World → Option Used × World) → ℕ → ℕ → ℕ → World → Waited × World
  wait_for_used get opaque zero elapsed w = (starved, w)
  wait_for_used get opaque (suc fuel) elapsed w =
      let (used, w1) = get w in
      let elapsed' = u32 (elapsed + control_poll_delay_us) in
      let later =
        if ltb elapsed' control_timeout_us
        then wait_for_used get opaque fuel elapsed' (delay_us control_poll_delay_us w1)
        else (late, delay_us control_poll_delay_us w1) in
      elim used [ none ↦ later | some u ↦ if u.io.address == opaque then (got u, w1) else later ]

  -- The exchange of ViosndWritePcm with the queue
  unfoldable pub send_write : PcmIo → List ℕ → World → Transferred × World
  send_write io buffer w = elim (tx_add io (write_lengths h buffer) w) [
    | none ↦ (transfer_failed status_device_busy, w)
    | some w1 ↦
        let (waited, w2) = wait_for_used tx_get io.address wait_rounds 0 (tx_kick w1) in
        (finish_write (length buffer) waited, w2)
  ]

  -- The exchange of ViosndReadPcm with the queue
  unfoldable pub send_read : PcmIo → ℕ → World → Transferred × World
  send_read io size w =
      elim (rx_add io (record { out_length = xfer_size; in_length = u32 (size + pcm_status_size) })
        w) [
          | none ↦ (transfer_failed status_device_busy, w)
          | some w1 ↦
              let (waited, w2) = wait_for_used rx_get io.address wait_rounds 0 (rx_kick w1) in
              (finish_read size waited, w2)
        ]

  -- The two buffers of a transfer, of which either may be missing, and their release
  unfoldable pub free_both : ℕ → ℕ → M World (Unit {0})
  free_both first second d w =
      let (_, d1, w1) = free_dma_buffer h first d w in free_dma_buffer h second d1 w1

  -- What ViosndWritePcm and ViosndReadPcm do alike: two buffers are allocated, used if both are
  -- there, and freed.
  unfoldable pub with_buffers :
      ℕ → ℕ → (Option (ℕ × ℕ) → Option (ℕ × ℕ) → World → Transferred × World) → M World Transferred
  with_buffers first_size second_size send d w =
      let (first, d1, w1) = allocate_dma_buffer h first_size d w in
      let (second, d2, w2) = allocate_dma_buffer h second_size d1 w1 in
      let (sent, w3) =
        if va_of first == 0 || va_of second == 0
        then (transfer_failed status_insufficient_resources, w2)
        else send first second w2 in
      let (_, d4, w4) = free_both (va_of first) (va_of second) d2 w3 in (sent, d4, w4)

  -- ViosndWritePcm. The buffer is added with the pointer to its request.
  unfoldable pub write_pcm : ℕ → List ℕ → M World Transferred
  write_pcm stream buffer d w =
      let request_length = u32 (xfer_size + length buffer) in
      if not d.tx_queue
      then (transfer_failed status_device_not_ready, d, w)
      else with_buffers request_length pcm_status_size
          (λ request status.
            send_write
              (record zero_io {
                address = va_of request;
                request_va = va_of request;
                request_pa = pa_of request;
                request_length = request_length;
                status_va = va_of status;
                status_pa = pa_of status;
                header_stream_id = stream;
                payload = buffer;
              })
              buffer)
          d w

  -- ViosndReadPcm, for a buffer of `size` bytes
  unfoldable pub read_pcm : ℕ → ℕ → M World Transferred
  read_pcm stream size d w =
      if not d.rx_queue
      then (transfer_failed status_device_not_ready, d, w)
      else with_buffers xfer_size (u32 (size + pcm_status_size))
          (λ request response.
            send_read
              (record zero_io {
                address = va_of request;
                request_va = va_of request;
                request_pa = pa_of request;
                request_length = xfer_size;
                audio_va = va_of response;
                audio_pa = pa_of response;
                header_stream_id = stream;
              })
              size)
          d w

  -- ViosndSubmitWritePcm
  unfoldable pub submit_write_pcm : ℕ → List ℕ → M World NtStatus
  submit_write_pcm stream buffer d w =
      let ((allocated, made), d1, w1) = allocate_write_pcm_io h (length buffer) d w in
      elim made [
        | none ↦ (allocated, d1, w1)
        | some io ↦
            let ((status, io'), d2, w2) =
              submit_prepared_write_pcm h stream buffer (length buffer) 0 io d1 w1 in
            let (_, d3, w3) = free_write_pcm_io h io' d2 w2 in
            if nt_success status then (status, d2, w2) else (status, d3, w3)
      ]

  -- ViosndReclaimWritePcm: the status and the byte count
  unfoldable pub reclaim_write_pcm : M World (NtStatus × ℕ)
  reclaim_write_pcm d w =
      let (r, d1, w1) = reclaim_prepared_write_pcm h d w in
      elim r.io [
        | none ↦ ((r.status, r.bytes), d1, w1)
        | some io ↦
            let (_, d2, w2) = free_write_pcm_io h io d1 w1 in
            if r.status == status_not_found
            then ((r.status, r.bytes), d1, w1)
            else ((r.status, r.bytes), d2, w2)
      ]

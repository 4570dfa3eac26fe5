-- ===== src/Acx/Control.antt =====
-- The control queue of viosnd/sys/ViosndAcxVirtio.cpp. ControlLock lets in one command at a time, and
-- the model runs one at a time.
pub mod Ends
pub mod Quiet
pub mod Counted
use viosnd.Base.{
  ℕ, zero, suc, ◌+◌, ◌*◌, Bool, false, ◌||◌, not, List, [], Option, none, some, leb, ltb, ◌==◌,
  if◌then◌else◌, u32,
}
use viosnd.Status.{
  NtStatus, nt_success, status_success, status_device_not_ready, status_insufficient_resources,
  status_device_busy, status_io_timeout, status_not_supported, status_invalid_parameter,
  status_io_device_error, status_not_found,
}
use viosnd.Protocol.{PcmInfo, r_pcm_info, s_ok, s_bad_msg, s_not_supp}
use viosnd.Pcm.{StreamPair, find_stream_pair}
use viosnd.Virtio.Host.{Request, pcm_header, query_info, Response}
use viosnd.Virtio.Control.{request_size, control_message_size}
use viosnd.Virtio.Pcm.{entries, infos_of, code_of}
use viosnd.Acx.Host.{AcxHost, Message}
use viosnd.Acx.Stream.{AcxQueues}
use viosnd.Acx.Periods.{acx_alloc_dma, acx_free_dma}

-- The switch of ViosndAcxControlStatusCommand
unfoldable pub status_of_code : ℕ → NtStatus
status_of_code code =
    if code == s_ok
    then status_success
    else if code == s_not_supp
    then status_not_supported
    else if code == s_bad_msg
    then status_invalid_parameter
    else status_io_device_error

-- The address of what virtqueue_get_buf returns
abbrev pub is_message : Message → Option ℕ → Bool
is_message m none = false
is_message m (some address) = address == m.address

module _ (h : AcxHost) where
  open h use {
    World, pool_alloc, pool_free, delay_ms, control_add, control_kick, control_get, response_at,
  }

  -- ViosndFreeControlMessage, at a message that is not NULL
  unfoldable pub acx_free_control_message : Message → World → World
  acx_free_control_message m w =
      pool_free m.address (acx_free_dma h m.response_va (acx_free_dma h m.request_va w))

  -- The polling loop of ViosndControlCommand, from the elapsed microseconds on: the status, and the
  -- response if it was copied; none if the fuel is used up.
  unfoldable pub acx_poll_control :
      ℕ → ℕ → Message → World → Option (NtStatus × Option Response) × World
  acx_poll_control zero elapsed m w = (none, w)
  acx_poll_control (suc fuel) elapsed m w =
      let (used, w1) = control_get w in
      let rest = acx_poll_control fuel (u32 (elapsed + 1000)) m (delay_ms w1) in
      if is_message m used
      then (some (status_success, some (response_at m.response_va w1)), w1)
      else if leb 1000000 elapsed
      then (some (status_io_timeout, none), w1)
      else rest

  -- One round for each millisecond of the timeout, and the last.
  abbrev pub acx_poll_rounds : ℕ
  acx_poll_rounds = 1001

  -- ViosndControlCommand from the buffers on
  unfoldable pub acx_exchange : Message → World → (NtStatus × Option Response) × World
  unfolding acx_free_control_message acx_poll_control
  acx_exchange m w = elim (control_add m w) [
    | none ↦ ((status_device_busy, none), acx_free_control_message m w)
    | some w1 ↦
        let (polled, w2) = acx_poll_control acx_poll_rounds 0 m (control_kick w1) in
        elim polled [
          | none ↦ ((status_io_timeout, none), acx_free_control_message m w2)
          | some result ↦ (result, acx_free_control_message m w2)
        ]
  ]

  -- ViosndControlCommand: the status, and the response if it was copied out
  unfoldable pub acx_control_command :
      AcxQueues → Request → ℕ → World → (NtStatus × Option Response) × World
  unfolding acx_free_control_message acx_exchange
  acx_control_command d request response_length w =
      if not d.control_queue
      then ((status_device_not_ready, none), w)
      else let (block, w1) = pool_alloc control_message_size w in
        elim block [
          | none ↦ ((status_insufficient_resources, none), w1)
          | some address ↦
              let (req, w2) = acx_alloc_dma h (request_size request) w1 in
              let (resp, w3) = acx_alloc_dma h response_length w2 in
              let m : Message = record {
                address = address;
                request = request;
                request_va = req;
                response_va = resp;
                response_length = response_length;
              } in
              if req == 0 || resp == 0
              then ((status_insufficient_resources, none), acx_free_control_message m w3)
              else acx_exchange m w3
        ]

  -- ViosndAcxControlStatusCommand
  unfoldable pub acx_control_status_command : AcxQueues → Request → World → NtStatus × World
  unfolding acx_control_command status_of_code
  acx_control_status_command d request w =
      let ((status, response), w') = acx_control_command d request 4 w in
      if not (nt_success status) then (status, w') else (status_of_code (code_of response), w')

  -- ViosndAcxPcmCommand
  unfoldable pub acx_pcm_command : AcxQueues → ℕ → ℕ → World → NtStatus × World
  unfolding acx_control_status_command
  acx_pcm_command d stream_id code = acx_control_status_command d (pcm_header code stream_id)

  -- ViosndQueryPcmInfo: the status, and the entries if it wrote them. `infos` of the response is what
  -- the member Info holds; 32 is sizeof(VIRTIO_SND_PCM_INFO).
  unfoldable pub query_pcm_info : AcxQueues → ℕ → World → (NtStatus × List PcmInfo) × World
  unfolding acx_control_command
  query_pcm_info d count w =
      if count == 0 || ltb 64 count
      then ((status_invalid_parameter, []), w)
      else let (block, w1) = pool_alloc (4 + count * 32) w in
        elim block [
          | none ↦ ((status_insufficient_resources, []), w1)
          | some va ↦
              let ((status, response), w2) =
                acx_control_command d (query_info r_pcm_info 0 count 32) (4 + count * 32) w1 in
              let w' = pool_free va w2 in
              if not (nt_success status)
              then ((status, []), w')
              else if not (code_of response == s_ok)
              then ((status_io_device_error, []), w')
              else ((status_success, entries count (infos_of response)), w')
        ]

  -- ViosndAcxQueryPcmStreams with Config.streams: the status, and Device->Streams if it was written
  unfoldable pub acx_query_pcm_streams :
      AcxQueues → ℕ → World → (NtStatus × Option StreamPair) × World
  unfolding query_pcm_info
  acx_query_pcm_streams d count w =
      if count == 0 || ltb 64 count
      then ((status_not_found, none), w)
      else let (block, w1) = pool_alloc (count * 32) w in
        elim block [
          | none ↦ ((status_insufficient_resources, none), w1)
          | some va ↦
              let ((status, infos), w2) = query_pcm_info d count w1 in
              let (pair, found) = find_stream_pair infos in
              let w' = pool_free va w2 in
              if nt_success status then ((found, some pair), w') else ((status, none), w')
        ]

-- ===== src/Virtio/Pcm.antt =====
-- PCM commands of viosnd/sys/ViosndVirtio.cpp: status commands with their retries, the stream query
-- and the configuration of a stream.
pub mod Retry
use viosnd.Base.{
  ℕ, zero, suc, ◌+◌, ◌*◌, Bool, true, false, ◌&&◌, ◌||◌, not, List, [], ◌∷◌, Option, none, some,
  ltb, ◌==◌, if◌then◌else◌, min, length,
}
use viosnd.Status.{
  NtStatus, nt_success, status_success, status_not_supported, status_not_found,
  status_insufficient_resources,
}
use viosnd.Protocol.{
  PcmInfo, r_pcm_info, r_pcm_set_params, r_pcm_prepare, r_pcm_release, r_pcm_start, r_pcm_stop,
  s_ok, s_bad_msg,
}
use viosnd.Pcm.{
  PcmFormat, StreamPair, build_set_params, default_pcm_format, fallback_pcm_format,
  find_stream_pair,
}
use viosnd.Virtio.Host.{Host, Request, set_params, pcm_header, query_info, Response}
use viosnd.Virtio.Device.{Device, M}
use viosnd.Virtio.Control.{control_command}

abbrev pub control_status_retry_count : ℕ
control_status_retry_count = 4

abbrev pub pcm_bad_msg_retry_count : ℕ
pcm_bad_msg_retry_count = 4

abbrev pub pcm_info_retry_count : ℕ
pcm_info_retry_count = 8

abbrev pub max_pcm_streams : ℕ
max_pcm_streams = 64

-- ViosndIsPcmStatusCommand
unfoldable pub is_pcm_status_command : ℕ → Bool
is_pcm_status_command command =
    command == r_pcm_set_params
    || command == r_pcm_prepare
    || command == r_pcm_start
    || command == r_pcm_stop
    || command == r_pcm_release

abbrev pub request_code : Request → ℕ
request_code (set_params p) = p.code
request_code (pcm_header code stream_id) = code
request_code (query_info code start_id count size) = code

-- `response.code` after the call: 0, as it was cleared, where nothing was copied.
abbrev pub code_of : Option Response → ℕ
code_of none = 0
code_of (some r) = r.code

-- The milliseconds to wait before another attempt, at attempt number `attempt`; none to stop.
unfoldable pub retry_delay : ℕ → ℕ → ℕ → Option ℕ
unfolding is_pcm_status_command
retry_delay command attempt code =
    if not (is_pcm_status_command command) || code == s_ok
    then none
    else if code == 0 && ltb (attempt + 1) control_status_retry_count
    then some 5
    else if code == s_bad_msg && ltb (attempt + 1) pcm_bad_msg_retry_count
    then some 10
    else none

-- The status after the loop, from the last response's code.
unfoldable pub final_status : ℕ → ℕ → NtStatus
unfolding is_pcm_status_command
final_status command code =
    if code == s_ok
    then status_success
    else if code == 0 && is_pcm_status_command command
    then status_success
    else status_not_supported

-- ViosndPcmInfoLooksEmpty
unfoldable pub pcm_info_looks_empty : List PcmInfo → Bool
pcm_info_looks_empty [] = true
pcm_info_looks_empty (i ∷ rest) =
    (i.direction == 0
      && i.channels_min == 0
      && i.channels_max == 0
      && i.formats == 0
      && i.rates == 0
      && i.features == 0)
    && pcm_info_looks_empty rest

abbrev pub zero_info : PcmInfo
zero_info = record {
  features = 0;
  formats = 0;
  rates = 0;
  direction = 0;
  channels_min = 0;
  channels_max = 0;
}

-- The first `n` entries of a response, behind which its memory was cleared.
unfoldable pub entries : ℕ → List PcmInfo → List PcmInfo
entries zero infos = []
entries (suc n) [] = zero_info ∷ entries n []
entries (suc n) (i ∷ rest) = i ∷ entries n rest

abbrev pub infos_of : Option Response → List PcmInfo
infos_of none = []
infos_of (some r) = r.infos

-- The test of ViosndQueryPcmStreams for an invalid or empty response.
unfoldable pub is_empty_response : ℕ → List PcmInfo → Bool
unfolding pcm_info_looks_empty
is_empty_response code infos = code == 0 || (code == s_ok && pcm_info_looks_empty infos)

-- `*Pair` and the status from a response that is taken: the pair is written only if the code is OK.
unfoldable pub take_response : ℕ → List PcmInfo → NtStatus × Option StreamPair
take_response code infos =
    if code == s_ok
    then (let (pair, status) = find_stream_pair infos in (status, some pair))
    else (status_not_supported, none)

module _ (h : Host) where
  open h use {World, delay_us, pool_alloc, pool_free}

  -- The loop of ViosndControlStatusCommandEx with `rounds` attempts left: the status that it returns,
  -- and *ResponseCode, which is `previous` until an attempt succeeds.
  unfoldable pub attempt_status : ℕ → Request → ℕ → ℕ → M World (NtStatus × ℕ)
  unfolding retry_delay final_status
  attempt_status zero request attempt previous d w =
      ((final_status (request_code request) previous, previous), d, w)
  attempt_status (suc rounds) request attempt previous d w =
      let ((status, response), d', w') = control_command h request 4 d w in
      if not (nt_success status)
      then ((status, previous), d', w')
      else elim (retry_delay (request_code request) attempt (code_of response)) [
        | none ↦
            ((final_status (request_code request) (code_of response), code_of response), d', w')
        | some ms ↦
            attempt_status rounds request (attempt + 1) (code_of response) d'
              (delay_us (ms * 1000) w')
      ]

  -- ViosndControlStatusCommandEx
  unfoldable pub control_status_command_ex : Request → M World (NtStatus × ℕ)
  unfolding attempt_status
  control_status_command_ex request = attempt_status control_status_retry_count request 0 0

  -- ViosndControlStatusCommand
  unfoldable pub control_status_command : Request → M World NtStatus
  unfolding control_status_command_ex
  control_status_command request d w =
      let (result, d', w') = control_status_command_ex request d w in (result.0, d', w')

  -- ViosndPcmCommand
  unfoldable pub pcm_command : ℕ → ℕ → M World NtStatus
  unfolding control_status_command
  pcm_command stream_id command = control_status_command (pcm_header command stream_id)

  -- ViosndConfigurePcmFormat
  unfoldable pub configure_pcm_format : ℕ → PcmFormat → M World NtStatus
  unfolding control_status_command control_status_command_ex build_set_params
  configure_pcm_format stream_id format d w =
      let (status, d', w') =
        control_status_command (set_params (build_set_params stream_id format)) d w in
      if not (nt_success status)
      then (status, d', w')
      else let (result, d'', w'') =
          control_status_command_ex (pcm_header r_pcm_prepare stream_id) d' w' in
        (result.0, d'', w'')

  -- ViosndConfigureDefaultPcm
  unfoldable pub configure_default_pcm : ℕ → M World NtStatus
  unfolding configure_pcm_format
  configure_default_pcm stream_id = configure_pcm_format stream_id default_pcm_format

  -- ViosndConfigureFallbackPcm
  unfoldable pub configure_fallback_pcm : ℕ → M World NtStatus
  unfolding configure_pcm_format
  configure_fallback_pcm stream_id = configure_pcm_format stream_id fallback_pcm_format

  -- ViosndStartPcm
  unfoldable pub start_pcm : ℕ → M World NtStatus
  unfolding pcm_command
  start_pcm stream_id = pcm_command stream_id r_pcm_start

  -- ViosndStopPcm
  unfoldable pub stop_pcm : ℕ → M World NtStatus
  unfolding pcm_command
  stop_pcm stream_id = pcm_command stream_id r_pcm_stop

  -- ViosndReleasePcm
  unfoldable pub release_pcm : ℕ → M World NtStatus
  unfolding pcm_command
  release_pcm stream_id = pcm_command stream_id r_pcm_release

  -- The loop of ViosndQueryPcmStreams with `rounds` attempts left.
  unfoldable pub query_attempts : ℕ → ℕ → ℕ → NtStatus → M World (NtStatus × Option StreamPair)
  unfolding entries is_empty_response take_response
  query_attempts zero count attempt previous d w = ((previous, none), d, w)
  query_attempts (suc rounds) count attempt previous d w =
      let ((status, response), d', w') =
        control_command h (query_info r_pcm_info 0 count 32) (4 + count * 32) d w in
      let infos = entries count (infos_of response) in
      if not (nt_success status)
      then ((status, none), d', w')
      else elim (is_empty_response (code_of response) infos
          && ltb (attempt + 1) pcm_info_retry_count) [
            | true ↦ query_attempts rounds count (attempt + 1) status d' (delay_us 100000 w')
            | false ↦ (take_response (code_of response) infos, d', w')
          ]

  -- ViosndQueryPcmStreams
  unfoldable pub query_pcm_streams : M World (NtStatus × Option StreamPair)
  unfolding query_attempts
  query_pcm_streams d w =
      let count = min d.config_streams max_pcm_streams in
      if count == 0
      then ((status_not_found, none), d, w)
      else let (block, w1) = pool_alloc (4 + count * 32) w in
        elim block [
          | none ↦ ((status_insufficient_resources, none), d, w1)
          | some response ↦
              let (result, d', w2) =
                query_attempts pcm_info_retry_count count 0 status_success d w1 in
              (result, d', pool_free response w2)
        ]

-- ===== src/Acx/Calls.antt =====
-- The callbacks of an ACX stream in viosnd/sys/ViosndAcxCircuit.cpp.
use viosnd.Base.{
  ℕ, zero, suc, ◌+◌, ◌-◌, ◌/◌, Bool, true, false, ◌&&◌, ◌||◌, not, [], Option, none, some, ◌==◌,
  if◌then◌else◌, u32, u64,
}
use viosnd.Status.{
  NtStatus, status_success, status_device_not_ready, status_device_busy, nt_success,
  status_invalid_device_request,
}
use viosnd.Protocol.{r_pcm_prepare, r_pcm_start}
use viosnd.Pcm.{default_pcm_format, build_set_params, StreamPair, default_period_bytes}
use viosnd.Virtio.Host.{set_params}
use viosnd.Acx.Host.{AcxHost}
use viosnd.Acx.Stream.{AcxStream, AcxQueues}
use viosnd.Acx.Ready.{queue_render_packet}
use viosnd.Acx.Periods.{
  zero_period, prepare_stream_periods, free_stream_periods, pump_render_queue,
  submit_capture_period,
}
use viosnd.Acx.Control.{acx_control_status_command, acx_pcm_command}
use viosnd.Acx.Drain.{AcxStreams, stop_stream, drain_queues}

-- ViosndEvtStreamGetHwLatency: *FifoSize and *Delay
unfoldable pub get_hw_latency : ℕ × ℕ
get_hw_latency = (default_period_bytes, 0)

-- ViosndEvtStreamGetCurrentPacket, less the count of the queries, which only paces the log
unfoldable pub get_current_packet : AcxStream → ℕ
get_current_packet s = u32 s.packets_completed

-- ViosndEvtStreamGetCapturePacket: the status, and *LastCapturePacket if it is written. The
-- performance counter is the caller's, and *MoreData is always false.
unfoldable pub get_capture_packet : AcxStream → NtStatus × Option ℕ
get_capture_packet s =
    if not s.capture
    then (status_invalid_device_request, none)
    else if s.packets_completed == 0
    then (status_device_not_ready, some 0)
    else (status_success, some (u32 (s.packets_completed - 1)))

-- ViosndEvtStreamGetPresentationPosition: *PositionInBlocks, of blocks of 4 bytes
unfoldable pub acx_presentation_position : AcxStream → ℕ
acx_presentation_position s = s.position_bytes / 4

-- The stream that a cleaned-up one leaves behind, RenderStream or CaptureStream of the device;
-- `is_current` is whether the device's pointer of its direction is the stream.
unfoldable pub forget_stream : Bool → AcxStream → AcxStreams → AcxStreams
forget_stream is_current s ss =
    if s.capture && is_current
    then record ss { capture_stream = none }
    else if not s.capture && is_current
    then record ss { render_stream = none }
    else ss

-- A stream as RtlZeroMemory and ViosndEvtCircuitCreateStream leave it
abbrev pub new_acx_stream : ℕ → Bool → AcxStream
new_acx_stream stream_id capture = record {
  stream_id = stream_id;
  capture = capture;
  prepared = false;
  running = false;
  packet_count = 0;
  packet_size = 0;
  packets_va = 0;
  packet_buffers_va = 0;
  packet_mdls_va = 0;
  packet_buffers = λ i. 0;
  packet_mdls = λ i. 0;
  packet_offsets = λ i. 0;
  contents = λ i. [];
  packet_alloc_bytes = 0;
  first_packet_offset = 0;
  periods_va = 0;
  periods = λ i. zero_period;
  period_count = 0;
  period_bytes = 0;
  buffer_bytes = 0;
  ready_queue_va = 0;
  ready_queue = λ i. 0;
  ready_capacity = 0;
  ready_head = 0;
  ready_tail = 0;
  ready_count = 0;
  render_pump_active = false;
  packets_completed = 0;
  next_capture_packet = 0;
  position_bytes = 0;
  last_latency_bytes = 0;
  xrun_count = 0;
}

-- What ACX answers to the three calls of ViosndEvtCircuitCreateStream that can fail
pub record StreamInit : Type 0 where
  pub callbacks : NtStatus
  pub rt_callbacks : NtStatus
  pub created : NtStatus

-- The stream replaces the device's one of its direction.
abbrev pub put_stream : AcxStream → AcxStreams → AcxStreams
put_stream s ss =
    if s.capture
    then record ss { capture_stream = some s }
    else record ss { render_stream = some s }

-- ViosndEvtCircuitCreateStream, on a pin that has the host's role or not, and the circuit of a
-- direction or another one
unfoldable pub acx_create_stream :
    Bool → Option Bool → StreamInit → StreamPair → AcxStreams → NtStatus × AcxStreams
acx_create_stream host_pin circuit init pair ss =
    if not host_pin then (status_invalid_device_request, ss) else elim circuit [
      | none ↦ (status_invalid_device_request, ss)
      | some capture ↦
          let id = if capture then pair.capture_stream_id else pair.render_stream_id in
          if not (nt_success init.callbacks)
          then (init.callbacks, ss)
          else if not (nt_success init.rt_callbacks)
          then (init.rt_callbacks, ss)
          else if not (nt_success init.created)
          then (init.created, ss)
          else (status_success, put_stream (new_acx_stream id capture) ss)
    ]

module _ (h : AcxHost) where
  open h use {World}

  -- ViosndConfigurePcmStream
  unfoldable pub configure_pcm_stream : AcxQueues → AcxStream → World → NtStatus × AcxStream × World
  unfolding build_set_params default_pcm_format
  configure_pcm_stream d s w =
      let (prepared, s1, w1) = prepare_stream_periods h s w in
      let format = record default_pcm_format {
        period_bytes = s1.period_bytes;
        buffer_bytes = s1.buffer_bytes;
      } in
      let params = set_params (build_set_params s.stream_id format) in
      let (accepted, w2) = acx_control_status_command h d params w1 in
      let (status, w3) = acx_pcm_command h d s.stream_id r_pcm_prepare w2 in
      let ready = record s1 {
        prepared = true;
        packets_completed = 0;
        next_capture_packet = 0;
        position_bytes = 0;
      } in
      if s.prepared
      then (status_success, s, w)
      else if not (nt_success prepared)
      then (prepared, s1, w1)
      else if not (nt_success accepted)
      then (accepted, s1, w2)
      else (status, (if nt_success status then ready else s1), w3)

  -- ViosndEvtStreamPrepareHardware
  unfoldable pub acx_prepare_hardware : AcxQueues → AcxStream → World → NtStatus × AcxStream × World
  unfolding configure_pcm_stream free_stream_periods
  acx_prepare_hardware d s w =
      let (status, s1, w1) = configure_pcm_stream d s w in
      let (s2, w2) = free_stream_periods h s1 w1 in
      if not (nt_success status) then (status, s2, w2) else (status, s1, w1)

  -- The loop of ViosndEvtStreamRun over `n` periods of a capture stream, from index `i` on: the
  -- status of a submission that ends it, or success.
  unfoldable pub submit_all : ℕ → ℕ → AcxQueues → AcxStream → World → NtStatus × AcxStream × World
  submit_all zero i d s w = (status_success, s, w)
  submit_all (suc n) i d s w =
      let (status, s1, w1) = submit_capture_period h d i s.next_capture_packet s w in
      let counted = record s1 { next_capture_packet = u64 (s1.next_capture_packet + 1) } in
      let skipped = submit_all n (i + 1) d s1 w1 in
      let rest = submit_all n (i + 1) d counted w1 in
      if status == status_device_busy
      then skipped
      else if not (nt_success status)
      then (status, s1, w1)
      else rest

  -- The submissions of ViosndEvtStreamRun: the status of one that ends the call, or success
  unfoldable pub feed_stream : AcxQueues → AcxStream → World → NtStatus × AcxStream × World
  unfolding submit_all
  feed_stream d s w =
      if s.capture
      then submit_all s.period_count 0 d s w
      else let (t, w') = pump_render_queue h d s w in (status_success, t, w')

  -- ViosndEvtStreamRun from the submissions on
  unfoldable pub start_stream : AcxQueues → AcxStream → World → NtStatus × AcxStream × World
  unfolding feed_stream
  start_stream d s w =
      let (submitted, s1, w1) = feed_stream d s w in
      let (status, w2) = acx_pcm_command h d s.stream_id r_pcm_start w1 in
      let s2 = record s1 { running = true } in
      let (s3, w3) = if s2.capture then (s2, w2) else pump_render_queue h d s2 w2 in
      if not (nt_success submitted)
      then (submitted, s1, w1)
      else if not (nt_success status)
      then (status, record s1 { running = false }, w2)
      else (status_success, s3, w3)

  -- ViosndEvtStreamRun
  unfoldable pub acx_run : AcxQueues → AcxStream → World → NtStatus × AcxStream × World
  unfolding configure_pcm_stream start_stream
  acx_run d s w =
      let (status, s1, w1) = configure_pcm_stream d s w in
      let configured = start_stream d s1 w1 in
      if s.running
      then (status_success, s, w)
      else if s.prepared
      then start_stream d s w
      else if not (nt_success status)
      then (status, s1, w1)
      else configured

  -- ViosndEvtStreamSetRenderPacket
  unfoldable pub set_render_packet :
      AcxQueues → ℕ → AcxStream → World → NtStatus × AcxStream × World
  unfolding queue_render_packet pump_render_queue
  set_render_packet d packet s w =
      let (status, s1) = queue_render_packet packet s in
      let (s2, w2) = pump_render_queue h d s1 w in
      if s.capture
      then (status_invalid_device_request, s, w)
      else if s.ready_queue_va == 0 || s.ready_capacity == 0
      then (status_device_not_ready, s, w)
      else if not (nt_success status)
      then (status, s1, w)
      else if not s1.running
      then (status_success, s1, w)
      else (status_success, s2, w2)

  -- The stream of a direction
  abbrev pub stream_of : Bool → AcxStreams → Option AcxStream
  stream_of capture ss = if capture then ss.capture_stream else ss.render_stream

  -- ViosndEvtStreamPause, of the device's stream of a direction
  unfoldable pub acx_pause : AcxQueues → AcxStream → AcxStreams → World → AcxStreams × World
  unfolding stop_stream drain_queues
  acx_pause d s ss w =
      let (s1, w1) = stop_stream h false d s w in drain_queues h d (put_stream s1 ss) w1

  -- ViosndEvtStreamReleaseHardware
  unfoldable pub release_hardware : AcxQueues → AcxStream → AcxStreams → World → AcxStreams × World
  unfolding stop_stream drain_queues free_stream_periods
  release_hardware d s ss w =
      let (s1, w1) = stop_stream h true d s w in
      let (ss2, w2) = drain_queues h d (put_stream s1 ss) w1 in
      elim (stream_of s.capture ss2) [
        | none ↦ (ss2, w2)
        | some s2 ↦ let (s3, w3) = free_stream_periods h s2 w2 in (put_stream s3 ss2, w3)
      ]

  -- ViosndEvtStreamCleanup
  unfoldable pub cleanup_stream : Bool → AcxStream → AcxStreams → World → AcxStreams × World
  unfolding forget_stream free_stream_periods
  cleanup_stream is_current s ss w = (forget_stream is_current s ss, (free_stream_periods h s w).1)

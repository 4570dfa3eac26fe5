-- ===== src/WaveRt/State.antt =====
-- CViosndMiniportWaveRTStream::SetState in viosnd/sys/ViosndWaveRT.cpp.
use viosnd.Base.{ℕ, Bool, true, false, ◌&&◌, ◌||◌, not, ◌==◌, if◌then◌else◌, max_ulong}
use viosnd.Status.{
  NtStatus, nt_success, status_success, status_device_not_ready, status_device_busy,
}
use viosnd.Virtio.Host.{Host}
use viosnd.Virtio.Device.{Device}
use viosnd.Virtio.Io.Read.{detach_unused_read_pcm}
use viosnd.Virtio.Pcm.{configure_default_pcm, start_pcm, stop_pcm, release_pcm}
use viosnd.WaveRt.Stream.{Stream, KsState, ks_run, is_run, is_stop, render_clock_position}
use viosnd.WaveRt.Render.{R, cancel_render_writes}
use viosnd.WaveRt.Render.Pool.{allocate_render_io_pool, free_render_io_pool}
use viosnd.WaveRt.Capture.{reclaim_capture_packets, free_capture_io_pool}
use viosnd.WaveRt.Worker.{preroll, render_start_preroll_packets}
use viosnd.WaveRt.Thread.{Launch, Wait, start_render_worker, stop_render_worker}

-- What a call of SetState reads from the kernel: the thread calls, the counter and its frequency,
-- and how the waits for the worker go, of which the second is only made after the first timed out.
pub record Kernel : Type 0 where
  pub launch : Launch
  pub qpc : ℕ
  pub frequency : ℕ
  pub first : Wait
  pub second : Wait

abbrev pub clear_run_start : Stream → Stream
clear_run_start s = record s { run_start_position = 0; run_start_qpc = 0; qpc_frequency = 0 }

-- The fields that SetState clears when a render stream is about to run.
unfoldable pub begin_render : Stream → Stream
begin_render s = record (clear_run_start s) {
  render_preroll_packets = if is_stop s.state then render_start_preroll_packets else 0;
  render_stall_loops = 0;
  render_fallback_phase = 0;
  fallback_active = false;
  fallback_attempted = false;
  fallback_monitor_start_position = 0;
  fallback_monitor_start_qpc = 0;
}

-- The fields that SetState clears when a capture stream is about to run.
unfoldable pub begin_capture : Stream → Stream
begin_capture s = record s {
  packet_number = 0;
  next_submit_packet = 0;
  next_read_packet = 0;
  outstanding_writes = 0;
  capture_in_flight = 0;
  capture_overflows = 0;
  position = 0;
}

-- The fields that SetState clears when a stream that ran is stopped.
unfoldable pub reset_stopped : Stream → Stream
reset_stopped s = record (clear_run_start s) {
  packet_number = 0;
  last_os_write_packet = max_ulong;
  next_submit_packet = 0;
  next_read_packet = 0;
  eos_packet_number = max_ulong;
  eos_packet_length = 0;
  outstanding_writes = 0;
  render_preroll_packets = 0;
  render_stall_loops = 0;
  render_fallback_phase = 0;
  fallback_active = false;
  fallback_attempted = false;
  fallback_monitor_start_position = 0;
  fallback_monitor_start_qpc = 0;
  capture_in_flight =
      if s.capture && not (s.capture_in_flight == 0) then s.capture_in_flight else 0;
  position = 0;
}

-- The end of SetState of a stream that ran in the state `old`.
unfoldable pub left_state : KsState → KsState → NtStatus → Stream → Stream
unfolding reset_stopped
left_state state old status s =
    if not (nt_success status)
    then record s { state = old }
    else if is_stop state
    then reset_stopped s
    else s

abbrev pub fault_if : Bool → Device → Device
fault_if faulted d = if faulted then record d { capture_faulted = true } else d

abbrev pub kick_if : Bool → Stream → Stream
kick_if running s = if running then record s { kicked = true } else s

module _ (h : Host) where
  open h use {World}

  -- The start of a render stream up to ViosndStartPcm
  unfoldable pub prepare_render : R World NtStatus
  prepare_render s d w =
      let (configured, d1, w1) = configure_default_pcm h s.stream_id d w in
      let (allocated, s2, d2, w2) = allocate_render_io_pool h (begin_render s) d1 w1 in
      let (filled, s3, d3, w3) = preroll h render_start_preroll_packets allocated s2 d2 w2 in
      let (started, d4, w4) = start_pcm h s.stream_id d3 w3 in
      if not (nt_success configured)
      then (configured, begin_render s, d1, w1)
      else if not (nt_success allocated)
      then (allocated, s2, d2, w2)
      else if not (nt_success filled)
      then (filled, s3, d3, w3)
      else (started, record s3 { render_preroll_packets = 0 }, d4, w4)

  -- The worker of a render stream that the device has started; `old` is oldState.
  unfoldable pub launch_render : Kernel → KsState → R World NtStatus
  launch_render k old s d w =
      let (status, s1, d1, w1) =
        start_render_worker h k.launch
          (record s {
            run_start_position = s.position;
            run_start_qpc = k.qpc;
            qpc_frequency = k.frequency;
            state = ks_run;
          })
          d w in
      let (_, d2, w2) = stop_pcm h s.stream_id d1 w1 in
      let (_, d3, w3) = release_pcm h s.stream_id d2 w2 in
      if nt_success status
      then (status, s1, d1, w1)
      else (status, record s1 { state = old }, d3, w3)

  -- The end of the start of a render stream, which undoes one that failed; `old` is oldState.
  unfoldable pub conclude_render : KsState → NtStatus → R World NtStatus
  conclude_render old status s d w =
      let (_, s1, d1, w1) = cancel_render_writes h s d w in
      let (_, s2, d2, w2) = free_render_io_pool h s1 d1 w1 in
      if nt_success status
      then (status, s, d, w)
      else (status, record (clear_run_start s2) { state = old }, d2, w2)

  -- SetState to RUN, of a render stream that does not run
  unfoldable pub start_render : Kernel → R World NtStatus
  start_render k s d w =
      let (prepared, s1, d1, w1) = prepare_render s d w in
      let (launched, s2, d2, w2) = launch_render k s.state s1 d1 w1 in
      if nt_success prepared
      then conclude_render s.state launched s2 d2 w2
      else conclude_render s.state prepared s1 d1 w1

  -- The worker of a capture stream that the device has started; `old` is oldState.
  unfoldable pub launch_capture : Kernel → KsState → R World NtStatus
  launch_capture k old s d w =
      let (status, s1, d1, w1) = start_render_worker h k.launch (record s { state = ks_run }) d w in
      let (_, d2, w2) = stop_pcm h s.stream_id d1 w1 in
      if nt_success status
      then (status, s1, d1, w1)
      else (status, record s1 { state = old }, d2, w2)

  -- SetState to RUN, of a capture stream that does not run
  unfoldable pub start_capture : Kernel → R World NtStatus
  start_capture k s d w =
      let s0 = begin_capture s in
      let (configured, d1, w1) = configure_default_pcm h s.stream_id d w in
      let (started, d2, w2) = start_pcm h s.stream_id d1 w1 in
      if d.capture_faulted
      then (status_device_not_ready, s, d, w)
      else if not (nt_success configured)
      then (configured, s0, d1, w1)
      else if not (nt_success started)
      then (started, s0, d2, w2)
      else launch_capture k s.state s0 d2 w2

  -- StopRenderWorker under the test of m_WorkerStarted
  unfoldable pub stop_if_started : Wait → R World Bool
  unfolding stop_render_worker
  stop_if_started wait s d w =
      if s.worker_started then stop_render_worker h wait s d w else (true, s, d, w)

  -- The second StopRenderWorker of SetState, where the first did not stop the worker
  unfoldable pub stop_again : Wait → R World Bool
  unfolding stop_render_worker
  stop_again wait s d w =
      if s.worker_started then stop_render_worker h wait s d w else (false, s, d, w)

  -- Release of a stream that keeps another reference; `own` where its worker thread calls it
  unfoldable pub release_reference : Bool → Wait → R World Bool
  unfolding stop_render_worker
  release_reference own wait s d w =
      if not (s.thread_object == 0) && not own
      then stop_render_worker h wait s d w
      else (true, s, d, w)

  -- SetState of a capture stream that ran, once m_State is the new state
  unfoldable pub leave_capture : Kernel → R World NtStatus
  leave_capture k s d w =
      let (stopped, s1, d1, w1) = stop_if_started k.first s d w in
      let (released, d2, w2) = release_pcm h s.stream_id d1 w1 in
      let (_, s3, d3, w3) = reclaim_capture_packets h s1 d2 w2 in
      let (_, d4, w4) = detach_unused_read_pcm h d3 w3 in
      let (_, s5, d5, w5) =
        free_capture_io_pool h (record s3 { capture_in_flight = 0; outstanding_writes = 0 }) d4
          w4 in
      let (configured, d6, w6) = configure_default_pcm h s.stream_id d5 w5 in
      if nt_success released
      then (status_success, s5, fault_if (not stopped || not (nt_success configured)) d6, w6)
      else (status_success, s1, record d2 { capture_faulted = true }, w2)

  -- The calls that end a render stream's worker and stop its device: whether the worker has ended
  unfoldable pub stop_render : Kernel → R World Bool
  stop_render k s d w =
      let (stopped, s1, d1, w1) = stop_if_started k.first s d w in
      let (_, d2, w2) = stop_pcm h s.stream_id d1 w1 in
      let (_, d3, w3) = release_pcm h s.stream_id d2 w2 in
      if stopped then (true, s1, d3, w3) else stop_again k.second s1 d3 w3

  -- SetState of a render stream that ran, once m_State is the new state; the counter is read at the
  -- end.
  unfoldable pub leave_render : Kernel → R World NtStatus
  leave_render k s d w =
      let (ended, s1, d1, w1) = stop_render k s d w in
      let (_, s2, d2, w2) = cancel_render_writes h s1 d1 w1 in
      let (_, s3, d3, w3) = free_render_io_pool h s2 d2 w2 in
      if ended
      then (
        status_success,
        clear_run_start (record s3 { position = render_clock_position k.qpc s3 }),
        d3,
        w3,
      )
      else (status_device_busy, s3, d3, w3)

  -- SetState of a stream that ran, once m_State is the new state
  unfoldable pub leave_stream : Kernel → R World NtStatus
  leave_stream k s d w = if s.capture then leave_capture k s d w else leave_render k s d w

  -- SetState of a stream that ran, to a state other than RUN
  unfoldable pub leave_run : Kernel → KsState → R World NtStatus
  leave_run k state s d w =
      let (status, s1, d1, w1) = leave_stream k (record s { state = state }) d w in
      (status, left_state state s.state status s1, d1, w1)

  -- SetState up to its notification
  unfoldable pub change_state : Kernel → KsState → R World NtStatus
  change_state k state s d w =
      if is_run state && not (is_run s.state)
      then (if s.capture then start_capture k s d w else start_render k s d w)
      else if not (is_run state) && is_run s.state
      then leave_run k state s d w
      else (status_success, record s { state = state }, d, w)

  -- SetState
  unfoldable pub set_state : Kernel → KsState → R World NtStatus
  set_state k state s d w =
      let (status, s1, d1, w1) = change_state k state s d w in
      (status, kick_if (nt_success status && (is_run state && not s1.capture)) s1, d1, w1)

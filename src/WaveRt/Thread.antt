-- ===== src/WaveRt/Thread.antt =====
-- The worker thread of CViosndMiniportWaveRTStream in viosnd/sys/ViosndWaveRT.cpp: its rounds, and how
-- it is started and stopped.
use viosnd.Base.{
  ℕ, zero, suc, ◌+◌, ◌%◌, Bool, true, false, ◌&&◌, ◌||◌, not, List, [], ◌∷◌, leb, ◌==◌,
  if◌then◌else◌, u32, min, max,
}
use viosnd.Status.{NtStatus, nt_success, status_success, status_timeout}
use viosnd.Virtio.Host.{Host}
use viosnd.Virtio.Io.{kick_tx_queue}
use viosnd.Virtio.Events.{poll_events}
use viosnd.WaveRt.Stream.{Stream, is_run}
use viosnd.WaveRt.Render.{R, reclaim_render_packets}
use viosnd.WaveRt.Render.Pool.{allocate_render_io_pool, free_render_io_pool}
use viosnd.WaveRt.Capture.{
  capture_io_pool_size, submit_capture_packet, reclaim_capture_packets, allocate_capture_io_pool,
  free_capture_io_pool,
}
use viosnd.WaveRt.Worker.{maybe_switch_render_fallback, fill_queue}

abbrev pub capture_target_outstanding_packets : ℕ
capture_target_outstanding_packets = 4

abbrev pub render_rekick_stall_loops : ℕ
render_rekick_stall_loops = 5

abbrev pub capture_stop_reclaim_polls : ℕ
capture_stop_reclaim_polls = 2

-- The performance counters that a round reads.
pub record Moment : Type 0 where
  pub qpc : ℕ
  pub later : ℕ
  pub frequency : ℕ

-- How the calls that create a thread end: PsCreateSystemThread, ObReferenceObjectByHandle, and the
-- object that the latter gives.
pub record Launch : Type 0 where
  pub created : NtStatus
  pub referenced : NtStatus
  pub thread : ℕ

-- A wait for the worker to end: the rounds that it still makes meanwhile, and how the wait ends.
pub record Wait : Type 0 where
  pub rounds : List Moment
  pub outcome : NtStatus

-- A new worker's locals; the target is CaptureWorkerLoop's.
unfoldable pub enter_worker : Stream → Stream
enter_worker s = record s {
  last_completed = 0;
  capture_target =
      max (min capture_target_outstanding_packets (min s.notification_count capture_io_pool_size))
        1;
}

abbrev pub forget_thread : Stream → Stream
forget_thread s = record s { thread_object = 0; worker_started = false }

module _ (h : Host) where
  open h use {World}

  -- The stall counter of RenderWorkerLoop, with the kick at every fifth round without a completion.
  unfoldable pub note_progress : R World (Unit {0})
  unfolding kick_tx_queue
  note_progress s d w =
      if not (s.packet_number == s.last_completed)
      then (tt, record s { last_completed = s.packet_number; render_stall_loops = 0 }, d, w)
      else if is_run s.state && not (s.outstanding_writes == 0)
      then (let stalled = u32 (s.render_stall_loops + 1) in
          let (_, d', w') = kick_tx_queue h d w in
          if stalled % render_rekick_stall_loops == 0
          then (tt, record s { render_stall_loops = stalled }, d', w')
          else (tt, record s { render_stall_loops = stalled }, d, w))
      else (tt, s, d, w)

  -- One round of RenderWorkerLoop, after a wait that the stop event did not end.
  unfoldable pub render_round : Moment → R World (Unit {0})
  unfolding note_progress
  render_round m s d w =
      let (_, d1, w1) = poll_events h d w in
      let (_, s2, d2, w2) = reclaim_render_packets h s d1 w1 in
      let (_, s3, d3, w3) = maybe_switch_render_fallback h m.qpc m.later m.frequency s2 d2 w2 in
      let (_, s4, d4, w4) = note_progress s3 d3 w3 in fill_queue h s4 d4 w4

  -- The inner loop of CaptureWorkerLoop. A round that goes on adds one to m_CaptureInFlight.
  unfoldable pub capture_fill : ℕ → R World (Unit {0})
  capture_fill zero s d w = (tt, s, d, w)
  capture_fill (suc fuel) s d w =
      let (status, s', d', w') = submit_capture_packet h s d w in
      let rest = capture_fill fuel s' d' w' in
      if not (is_run s.state) || leb s.capture_target s.capture_in_flight
      then (tt, s, d, w)
      else if nt_success status
      then rest
      else (tt, s', d', w')

  -- One round of CaptureWorkerLoop, after a wait that the stop event did not end; the loop is left
  -- when the stream does not run.
  unfoldable pub capture_round : R World (Unit {0})
  unfolding capture_fill
  capture_round s d w =
      if not (is_run s.state)
      then (tt, s, d, w)
      else let (_, s1, d1, w1) = reclaim_capture_packets h s d w in
        let s2 = record s1 { last_completed = s1.packet_number } in
        if not (is_run s2.state)
          || (not s2.has_buffer || (s2.packet_size == 0 || s2.notification_count == 0))
        then (tt, s2, d1, w1)
        else capture_fill s2.capture_target s2 d1 w1

  -- One round of the worker, of whichever direction the stream has.
  unfoldable pub worker_round : Moment → R World (Unit {0})
  unfolding render_round capture_round
  worker_round m s d w = if s.capture then capture_round s d w else render_round m s d w

  -- The rounds of RenderWorkerLoop.
  unfoldable pub worker_rounds : List Moment → R World (Unit {0})
  unfolding worker_round
  worker_rounds [] s d w = (tt, s, d, w)
  worker_rounds (m ∷ rest) s d w =
      let (_, s', d', w') = worker_round m s d w in worker_rounds rest s' d' w'

  -- The polls at the end of CaptureWorkerLoop.
  unfoldable pub final_polls : ℕ → R World (Unit {0})
  final_polls zero s d w = (tt, s, d, w)
  final_polls (suc n) s d w =
      let (_, s', d', w') = reclaim_capture_packets h s d w in
      let rest = final_polls n s' d' w' in if s.capture_in_flight == 0 then (tt, s, d, w) else rest

  -- What the worker does during a wait for its end; one that ends makes its last polls.
  unfoldable pub finish_worker : Wait → R World (Unit {0})
  unfolding worker_rounds final_polls
  finish_worker wait s d w =
      let (_, s1, d1, w1) = worker_rounds wait.rounds s d w in
      if s1.capture && not (wait.outcome == status_timeout)
      then final_polls capture_stop_reclaim_polls s1 d1 w1
      else (tt, s1, d1, w1)

  -- StopRenderWorker from the end of the wait on: whether the worker has ended.
  unfoldable pub after_wait : NtStatus → R World Bool
  after_wait outcome s d w =
      let s' = forget_thread s in
      let (_, s2, d2, w2) =
        if s.capture then free_capture_io_pool h s' d w else free_render_io_pool h s' d w in
      if not (outcome == status_timeout)
      then (true, s2, d2, w2)
      else if s.capture
      then (false, s', record d { capture_faulted = true }, w)
      else (false, s, d, w)

  -- StopRenderWorker
  unfoldable pub stop_render_worker : Wait → R World Bool
  unfolding after_wait finish_worker
  stop_render_worker wait s d w =
      let (_, s1, d1, w1) = finish_worker wait s d w in
      if s.thread_object == 0
      then (true, record s { worker_started = false }, d, w)
      else after_wait wait.outcome s1 d1 w1

  -- StartRenderWorker. A thread that cannot be referenced is told to stop, and not waited for.
  unfoldable pub start_render_worker : Launch → R World NtStatus
  unfolding enter_worker
  start_render_worker l s d w =
      if s.worker_started
      then (status_success, s, d, w)
      else let (status, s1, d1, w1) =
          if s.capture then allocate_capture_io_pool h s d w else allocate_render_io_pool h s d w in
        if not (nt_success status)
        then (status, s1, d1, w1)
        else if not (nt_success l.created)
        then (l.created, s1, d1, w1)
        else if not (nt_success l.referenced)
        then (l.referenced, enter_worker s1, d1, w1)
        else (
          status_success,
          record (enter_worker s1) { thread_object = l.thread; worker_started = true },
          d1,
          w1,
        )

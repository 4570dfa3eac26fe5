-- ===== src/Acx/Drain.antt =====
-- The queues of viosnd/sys/ViosndAcxCircuit.cpp as the interrupt and the stop of a stream drain them.
use viosnd.Base.{
  ℕ, zero, suc, ◌+◌, ◌*◌, ◌%◌, Bool, true, false, ◌||◌, not, ◌++◌, Option, none, some, leb, ltb,
  ◌==◌, if◌then◌else◌, u64, take, drop,
}
use viosnd.Status.{
  NtStatus, status_success, status_device_not_ready, status_device_busy, nt_success,
}
use viosnd.Protocol.{s_ok, evt_pcm_xrun, r_pcm_stop, r_pcm_release}
use viosnd.Acx.Host.{AcxHost, Completed}
use viosnd.Acx.Stream.{AcxStream, AcxQueues, set_at, count_xrun}
use viosnd.Acx.Ready.{clear_render_queue}
use viosnd.Acx.Periods.{get_packet_va, pump_render_queue, submit_capture_period, has_in_flight}
use viosnd.Acx.Control.{acx_pcm_command}

-- The streams that the device knows, RenderStream and CaptureStream.
pub record AcxStreams : Type 0 where
  pub render_stream : Option AcxStream
  pub capture_stream : Option AcxStream

-- period->InFlight = FALSE
unfoldable pub retire_period : ℕ → AcxStream → AcxStream
retire_period i s = record s {
  periods = set_at i (record (s.periods i) { in_flight = false }) s.periods;
}

-- What the drains account for a completed period, the same for both directions.
unfoldable pub account_period : Completed → AcxStream → AcxStream
account_period c s =
    let next = u64 ((s.periods c.index).packet_number + 1) in
    let s1 = if not (c.status == s_ok) then count_xrun s else s in
    let completed = if ltb s.packets_completed next then next else s.packets_completed in
    record s1 {
      last_latency_bytes = c.latency_bytes;
      packets_completed = completed;
      position_bytes = u64 (completed * s.period_bytes);
    }

-- The copy of a captured period to its packet
unfoldable pub store_audio : Completed → AcxStream → AcxStream
unfolding get_packet_va
store_audio c s = elim (get_packet_va s ((s.periods c.index).packet_number % 4294967296)) [
  | none ↦ s
  | some i ↦
      let audio = take s.period_bytes c.audio ++ drop s.period_bytes (s.contents i) in
      record s { contents = set_at i audio s.contents }
]

abbrev pub xrun_all : Option AcxStream → Option AcxStream
xrun_all none = none
xrun_all (some s) = some (count_xrun s)

module _ (h : AcxHost) where
  open h use {
    World, queue_get, used_count, packet_complete, delay_ms, event_add, event_kick, event_get,
    event_used_count,
  }

  -- ViosndAcxPostEventBufferLocked, of the buffer of an index; `posted` is whether its EventVa is not
  -- NULL.
  unfoldable pub acx_post_event : AcxQueues → ℕ → Bool → World → NtStatus × World
  acx_post_event d i posted w =
      if not d.event_queue || not posted
      then (status_device_not_ready, w)
      else elim (event_add i w) [ none ↦ (status_device_busy, w) | some w' ↦ (status_success, w') ]

  -- The loop of ViosndDrainEventQueue; a buffer that was posted has its EventVa.
  unfoldable pub event_loop : ℕ → AcxQueues → AcxStreams → World → AcxStreams × World
  unfolding acx_post_event
  event_loop zero d ss w = (ss, w)
  event_loop (suc fuel) d ss w =
      let (used, w1) = event_get w in
      elim used [
        | none ↦ (ss, w1)
        | some (i, code) ↦
            let ss' =
              if code == evt_pcm_xrun
              then record {
                render_stream = xrun_all ss.render_stream;
                capture_stream = xrun_all ss.capture_stream;
              }
              else ss in
            event_loop fuel d ss' (event_kick (acx_post_event d i true w1).1)
      ]

  -- ViosndDrainEventQueue
  unfoldable pub drain_event_queue : AcxQueues → AcxStreams → World → AcxStreams × World
  unfolding event_loop
  drain_event_queue d ss w =
      if not d.event_queue then (ss, w) else event_loop (event_used_count w) d ss w

  -- The loop of ViosndDrainRenderQueue
  unfoldable pub render_loop : ℕ → AcxStream → World → AcxStream × World
  unfolding retire_period account_period
  render_loop zero s w = (s, w)
  render_loop (suc fuel) s w =
      let (used, w1) = queue_get false w in
      elim used [
        | none ↦ (s, w1)
        | some c ↦
            let packet = (s.periods c.index).packet_number in
            render_loop fuel (account_period c (retire_period c.index s))
              (packet_complete false packet w1)
      ]

  -- ViosndDrainRenderQueue
  unfoldable pub drain_render_queue : AcxQueues → AcxStream → World → AcxStream × World
  unfolding render_loop
  drain_render_queue d s w =
      if not d.tx_queue
      then (s, w)
      else let (s', w') = render_loop (used_count false w) s w in pump_render_queue h d s' w'

  -- The submission of a captured period again
  unfoldable pub resubmit_period : AcxQueues → ℕ → AcxStream → World → AcxStream × World
  resubmit_period d i s w =
      let (status, s', w') = submit_capture_period h d i s.next_capture_packet s w in
      if not s.running
      then (s, w)
      else if nt_success status
      then (record s' { next_capture_packet = u64 (s'.next_capture_packet + 1) }, w')
      else if not (status == status_device_busy)
      then (count_xrun s', w')
      else (s', w')

  -- The loop of ViosndDrainCaptureQueue
  unfoldable pub capture_loop : ℕ → AcxQueues → AcxStream → World → AcxStream × World
  unfolding retire_period account_period store_audio resubmit_period
  capture_loop zero d s w = (s, w)
  capture_loop (suc fuel) d s w =
      let (used, w1) = queue_get true w in
      elim used [
        | none ↦ (s, w1)
        | some c ↦
            let packet = (s.periods c.index).packet_number in
            let s1 = account_period c (store_audio c (retire_period c.index s)) in
            let (s2, w2) = resubmit_period d c.index s1 (packet_complete true packet w1) in
            capture_loop fuel d s2 w2
      ]

  -- ViosndDrainCaptureQueue
  unfoldable pub drain_capture_queue : AcxQueues → AcxStream → World → AcxStream × World
  unfolding capture_loop
  drain_capture_queue d s w =
      if not d.rx_queue then (s, w) else capture_loop (used_count true w) d s w

  -- ViosndDrainStreamQueue, of a stream that is not NULL
  unfoldable pub drain_stream_queue : AcxQueues → AcxStream → World → AcxStream × World
  unfolding drain_render_queue drain_capture_queue
  drain_stream_queue d s w =
      if s.capture then drain_capture_queue d s w else drain_render_queue d s w

  -- The loop of ViosndWaitForStreamIdle, from the elapsed milliseconds on
  unfoldable pub idle_loop : ℕ → ℕ → ℕ → AcxQueues → AcxStream → World → AcxStream × World
  unfolding drain_stream_queue has_in_flight
  idle_loop zero elapsed timeout d s w = (s, w)
  idle_loop (suc fuel) elapsed timeout d s w =
      let (s1, w1) = drain_stream_queue d s w in
      let rest = idle_loop fuel (elapsed + 1) timeout d s1 (delay_ms w1) in
      if not (has_in_flight s1)
      then (s1, w1)
      else if leb timeout elapsed
      then (count_xrun s1, w1)
      else rest

  -- ViosndWaitForStreamIdle; one round for each millisecond, and the last.
  unfoldable pub wait_for_stream_idle : ℕ → AcxQueues → AcxStream → World → AcxStream × World
  unfolding idle_loop
  wait_for_stream_idle timeout = idle_loop (suc timeout) 0 timeout

  -- ViosndStopStream, of a stream that is not NULL
  unfoldable pub stop_stream : Bool → AcxQueues → AcxStream → World → AcxStream × World
  unfolding wait_for_stream_idle clear_render_queue
  stop_stream release d s w =
      let s1 = record s { running = false } in
      let w1 = (acx_pcm_command h d s.stream_id r_pcm_stop w).1 in
      let s2 = clear_render_queue s1 in
      let w2 = (acx_pcm_command h d s.stream_id r_pcm_release w1).1 in
      let (s3, w3) = wait_for_stream_idle 1000 d s2 w2 in
      if not s.prepared
      then (s1, w)
      else if release
      then (record s3 { prepared = false }, w3)
      else wait_for_stream_idle 20 d s2 w1

  -- A call on one of the device's streams, which may be NULL
  abbrev pub on_stream :
      (AcxStream → World → AcxStream × World) → Option AcxStream → World → Option AcxStream × World
  on_stream f none w = (none, w)
  on_stream f (some s) w = let (s', w') = f s w in (some s', w')

  -- ViosndAcxDrainQueues
  unfoldable pub drain_queues : AcxQueues → AcxStreams → World → AcxStreams × World
  unfolding drain_event_queue drain_stream_queue
  drain_queues d ss w =
      let (ss1, w1) = drain_event_queue d ss w in
      let (render, w2) = on_stream (drain_stream_queue d) ss1.render_stream w1 in
      let (capture, w3) = on_stream (drain_stream_queue d) ss1.capture_stream w2 in
      (record { render_stream = render; capture_stream = capture }, w3)

  -- ViosndAcxStopStreams
  unfoldable pub stop_streams : Bool → AcxQueues → AcxStreams → World → AcxStreams × World
  unfolding stop_stream drain_queues
  stop_streams release d ss w =
      let (render, w1) = on_stream (stop_stream release d) ss.render_stream w in
      let (capture, w2) = on_stream (stop_stream release d) ss.capture_stream w1 in
      drain_queues d (record { render_stream = render; capture_stream = capture }) w2

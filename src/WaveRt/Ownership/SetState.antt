-- ===== src/WaveRt/Ownership/SetState.antt =====
-- SetState of viosnd/sys/ViosndWaveRT.cpp: the state that it leaves, and who owns the worker.
use viosnd.Base.{
  ◌≡◌, ◌≢◌, true, false, arith, if◌then◌else◌, inl, inr, Bool-cases, subst, sym, ◌∙◌, refl,
}
use viosnd.Status.{NtStatus, nt_success, status_device_not_ready}
use viosnd.Virtio.Host.{Host}
use viosnd.Virtio.Device.{Device}
use viosnd.Virtio.Io.Read.{detach_unused_read_pcm}
use viosnd.Virtio.Pcm.{configure_default_pcm, start_pcm, release_pcm}
use viosnd.WaveRt.Stream.{Stream, render_clock_position, KsState, is_run, ks_run}
use viosnd.WaveRt.Render.{cancel_render_writes}
use viosnd.WaveRt.Render.Pool.{allocate_render_io_pool, free_render_io_pool}
use viosnd.WaveRt.Capture.{reclaim_capture_packets}
use viosnd.WaveRt.Worker.{preroll, render_start_preroll_packets}
use viosnd.WaveRt.State.{
  Kernel, clear_run_start, begin_render, begin_capture, prepare_render, launch_render,
  conclude_render, start_render, start_capture, launch_capture, stop_if_started, stop_render,
  leave_capture, left_state, leave_stream, change_state, leave_render, leave_run, set_state,
}
use viosnd.WaveRt.Kept.{Keeps, Keeps-refl, Keeps-trans}
use viosnd.WaveRt.Kept.Render.{
  cancel_render_writes-Keeps, free_render_io_pool-Keeps, allocate_render_io_pool-Keeps,
}
use viosnd.WaveRt.Kept.Capture.{reclaim_capture_packets-Keeps, free_capture_io_pool-Keeps}
use viosnd.WaveRt.Kept.Worker.{preroll-Keeps}
use viosnd.WaveRt.Ownership.{IsOwned, Stops, Keeps-IsOwned, Stops-Keeps, Stops-disowned}
use viosnd.WaveRt.Ownership.Start.{start_render_worker-Starts}
use viosnd.WaveRt.Ownership.Stop.{stop_if_started-Stops, stop_render-Stops}

-- What is wanted of a call of SetState(target) in the state `old` that ends in `t`.
pub record Settles (target : KsState) (status : NtStatus) (old : KsState) (t : Stream)
    : Type 0 where
  pub owned : IsOwned t
  pub state : t.state ≡ (if nt_success status then target else old)

begin_render-Keeps : (s : Stream) → Keeps s (begin_render s)
unfolding begin_render
begin_render-Keeps s = ground arith

begin_capture-Keeps : (s : Stream) → Keeps s (begin_capture s)
unfolding begin_capture
begin_capture-Keeps s = ground arith

-- A start that failed before the worker
unsettled :
    {status : NtStatus} (s : Stream) {t : Stream}
    → Keeps s t
    → IsOwned s
    → nt_success status ≡ false
    → Settles ks_run status s.state t
unsettled s k o failed = record { owned = Keeps-IsOwned k o; state = rw failed k.state }

-- A stream that does not run has no worker.
IsOwned-off : {s : Stream} → IsOwned s → is_run s.state ≡ false → s.worker_started ≡ false
IsOwned-off {s} o stopped = elim (Bool-cases s.worker_started) [
  | inl started ↦ cc (o.runs started)
  | inr off ↦ off
]

left_state-Settles :
    (state : KsState) (status : NtStatus) (s t : Stream)
    → IsOwned s
    → is_run s.state ≡ true
    → Stops (nt_success status) (record s { state = state }) t
    → Settles state status s.state (left_state state s.state status t)
unfolding left_state
left_state-Settles state status s t o ran stops = elim (Bool-cases (nt_success status)) [
  | inl fine ↦ ground (arith, o, stops)
  | inr failed ↦ ground (arith, o, stops)
]

module _ (h : Host) where
  open h use {World}

  prepare_render-Keeps : (s : Stream) (d : Device) (w : World) → Keeps s (prepare_render h s d w).1
  unfolding prepare_render
  prepare_render-Keeps s d w =
      let (configured, d1, w1) = configure_default_pcm h s.stream_id d w in
      let s1 = begin_render s in
      let kept1 = begin_render-Keeps s in
      let (allocated, s2, d2, w2) = allocate_render_io_pool h s1 d1 w1 in
      let kept2 = Keeps-trans s s1 s2 kept1 (allocate_render_io_pool-Keeps h s1 d1 w1) in
      let (_, s3, d3, w3) = preroll h render_start_preroll_packets allocated s2 d2 w2 in
      let kept3 =
        Keeps-trans s s2 s3 kept2
          (preroll-Keeps h render_start_preroll_packets allocated s2 d2 w2) in
      ground (arith, kept1, kept2, kept3)

  conclude_render-Settles :
      (old : KsState) (status : NtStatus) (s : Stream) (d : Device) (w : World)
      → IsOwned s
      → (nt_success status ≡ true → s.state ≡ ks_run)
      → (nt_success status ≡ false → s.worker_started ≡ false)
      → let (status', t, d', w') = conclude_render h old status s d w in
        Settles ks_run status' old t
  unfolding conclude_render
  conclude_render-Settles old status s d w o ran off =
      let (_, s1, d1, w1) = cancel_render_writes h s d w in
      let (_, s2, d2, w2) = free_render_io_pool h s1 d1 w1 in
      let kept =
        Keeps-trans s s1 s2 (cancel_render_writes-Keeps h s d w)
          (free_render_io_pool-Keeps h s1 d1 w1) in
      ground (arith, o, ran, off, kept)

  module _ (k : Kernel) (given : nt_success k.launch.referenced ≡ true → k.launch.thread ≢ 0) where
    launch_render-Settles :
        (old : KsState) (s : Stream) (d : Device) (w : World)
        → IsOwned s
        → s.worker_started ≡ false
        → let (status, t, d', w') = launch_render h k old s d w in
          IsOwned t
          × (nt_success status ≡ true → t.state ≡ ks_run)
          × (nt_success status ≡ false → t.worker_started ≡ false)
    unfolding launch_render
    launch_render-Settles old s d w o off =
        let s0 = record s {
          run_start_position = s.position;
          run_start_qpc = k.qpc;
          qpc_frequency = k.frequency;
          state = ks_run;
        } in
        let starts = start_render_worker-Starts h k.launch s0 d w given off (o.alone off) in
        ground (arith, o, starts)

    start_render-Settles :
        (s : Stream) (d : Device) (w : World)
        → IsOwned s
        → s.worker_started ≡ false
        → let (status, t, d', w') = start_render h k s d w in Settles ks_run status s.state t
    unfolding start_render
    start_render-Settles s d w o off =
        let (prepared, s1, d1, w1) = prepare_render h s d w in
        let (launched, s2, d2, w2) = launch_render h k s.state s1 d1 w1 in
        let kept = prepare_render-Keeps s d w in
        let owned = Keeps-IsOwned kept o in
        let off1 : s1.worker_started ≡ false = kept.started ∙ off in
        let launch = launch_render-Settles s.state s1 d1 w1 owned off1 in
        elim (Bool-cases (nt_success prepared)) [
          | inl fine ↦
              rw (fine, start_render)
                (conclude_render-Settles s.state launched s2 d2 w2 launch.0 launch.1 launch.2)
          | inr failed ↦
              rw (failed, start_render)
                (conclude_render-Settles s.state prepared s1 d1 w1 owned (λ e. cc) (λ e. off1))
        ]

    launch_capture-Settles :
        (old : KsState) (s : Stream) (d : Device) (w : World)
        → IsOwned s
        → s.worker_started ≡ false
        → let (status, t, d', w') = launch_capture h k old s d w in Settles ks_run status old t
    unfolding launch_capture
    launch_capture-Settles old s d w o off =
        let s0 = record s { state = ks_run } in
        let starts = start_render_worker-Starts h k.launch s0 d w given off (o.alone off) in
        ground (arith, o, starts)

    start_capture-Settles :
        (s : Stream) (d : Device) (w : World)
        → IsOwned s
        → s.worker_started ≡ false
        → let (status, t, d', w') = start_capture h k s d w in Settles ks_run status s.state t
    unfolding start_capture
    start_capture-Settles s d w o off =
        let (configured, d1, w1) = configure_default_pcm h s.stream_id d w in
        let (started, d2, w2) = start_pcm h s.stream_id d1 w1 in
        let s0 = begin_capture s in
        let kept = begin_capture-Keeps s in
        ground (
          arith,
          unsettled {status = status_device_not_ready} s (Keeps-refl s) o,
          unsettled {status = configured} s kept o,
          unsettled {status = started} s kept o,
          launch_capture-Settles s.state s0 d2 w2 (Keeps-IsOwned kept o) (kept.started ∙ off),
        )

  leave_capture-Settles :
      (k : Kernel) (s : Stream) (d : Device) (w : World)
      → (s.worker_started ≡ false → s.thread_object ≡ 0)
      → s.capture ≡ true
      → let (status, t, d', w') = leave_capture h k s d w in
        (nt_success status ≡ true) × Stops true s t
  unfolding leave_capture
  leave_capture-Settles k s d w alone captures =
      let (_, s1, d1, w1) = stop_if_started h k.first s d w in
      let stops = stop_if_started-Stops h k.first s d w alone in
      let (released, d2, w2) = release_pcm h s.stream_id d1 w1 in
      let (_, s3, d3, w3) = reclaim_capture_packets h s1 d2 w2 in
      let kept = reclaim_capture_packets-Keeps h s1 d2 w2 in
      let (_, d4, w4) = detach_unused_read_pcm h d3 w3 in
      let s4 = record s3 { capture_in_flight = 0; outstanding_writes = 0 } in
      let kept' = free_capture_io_pool-Keeps h s4 d4 w4 in
      let all =
        Stops-disowned
          (Stops-Keeps stops (Keeps-trans s1 s3 _ kept (Keeps-trans s3 s4 _ (ground arith) kept')))
          captures in
      elim (Bool-cases (nt_success released)) [
        | inl e ↦ rw (e, leave_capture) (refl, all)
        | inr e ↦ rw (e, leave_capture) (refl, Stops-disowned stops captures)
      ]

  leave_render-Settles :
      (k : Kernel) (s : Stream) (d : Device) (w : World)
      → (s.worker_started ≡ false → s.thread_object ≡ 0)
      → s.capture ≡ false
      → let (status, t, d', w') = leave_render h k s d w in Stops (nt_success status) s t
  unfolding leave_render
  leave_render-Settles k s d w alone renders =
      let (ended, s1, d1, w1) = stop_render h k s d w in
      let stops = stop_render-Stops h k s d w alone renders in
      let (_, s2, d2, w2) = cancel_render_writes h s1 d1 w1 in
      let (_, s3, d3, w3) = free_render_io_pool h s2 d2 w2 in
      let kept =
        Keeps-trans s1 s2 s3 (cancel_render_writes-Keeps h s1 d1 w1)
          (free_render_io_pool-Keeps h s2 d2 w2) in
      let s4 = clear_run_start (record s3 { position = render_clock_position k.qpc s3 }) in
      let cleared : Keeps s3 s4 = ground arith in
      elim (Bool-cases ended) [
        | inl e ↦
            rw (e, leave_render)
              (subst (λ b. Stops b s s4) e (Stops-Keeps stops (Keeps-trans s1 s3 s4 kept cleared)))
        | inr e ↦ rw (e, leave_render) (subst (λ b. Stops b s s3) e (Stops-Keeps stops kept))
      ]

  leave_stream-Stops :
      (k : Kernel) (s : Stream) (d : Device) (w : World)
      → (s.worker_started ≡ false → s.thread_object ≡ 0)
      → let (status, t, d', w') = leave_stream h k s d w in Stops (nt_success status) s t
  unfolding leave_stream
  leave_stream-Stops k s d w alone = elim (Bool-cases s.capture) [
    | inl captures ↦
        let (fine, stops) = leave_capture-Settles k s d w alone captures in
        let t = (leave_capture h k s d w).1 in
        let kept = subst (λ b. Stops b s t) (sym fine) stops in ground (arith, kept)
    | inr renders ↦ ground (arith, leave_render-Settles k s d w alone renders)
  ]

  leave_run-Settles :
      (k : Kernel) (state : KsState) (s : Stream) (d : Device) (w : World)
      → IsOwned s
      → is_run s.state ≡ true
      → let (status, t, d', w') = leave_run h k state s d w in Settles state status s.state t
  unfolding leave_run
  leave_run-Settles k state s d w o ran =
      let s0 = record s { state = state } in
      let (status, t, d', w') = leave_stream h k s0 d w in
      left_state-Settles state status s t o ran (leave_stream-Stops k s0 d w o.alone)

  change_state-Settles :
      (k : Kernel) (state : KsState) (s : Stream) (d : Device) (w : World)
      → (nt_success k.launch.referenced ≡ true → k.launch.thread ≢ 0)
      → IsOwned s
      → let (status, t, d', w') = change_state h k state s d w in Settles state status s.state t
  unfolding change_state
  change_state-Settles k state s d w given o = elim (Bool-cases (is_run s.state)) [
    | inl ran ↦ ground (arith, o, leave_run-Settles k state s d w o ran)
    | inr stopped ↦
        let off = IsOwned-off o stopped in
        ground (
          arith,
          o,
          start_render-Settles k given s d w o off,
          start_capture-Settles k given s d w o off,
        )
  ]

  pub set_state-Settles :
      (k : Kernel) (state : KsState) (s : Stream) (d : Device) (w : World)
      → (nt_success k.launch.referenced ≡ true → k.launch.thread ≢ 0)
      → IsOwned s
      → let (status, t, d', w') = set_state h k state s d w in Settles state status s.state t
  unfolding set_state
  set_state-Settles k state s d w given o =
      ground (arith, change_state-Settles k state s d w given o)

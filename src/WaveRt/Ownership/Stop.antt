-- ===== src/WaveRt/Ownership/Stop.antt =====
-- The end of a stream's worker in viosnd/sys/ViosndWaveRT.cpp.
use viosnd.Base.{◌≡◌, sym, Bool, false, arith, inl, inr, Bool-cases, subst, ◌∙◌, refl}
use viosnd.Status.{NtStatus}
use viosnd.Virtio.Host.{Host}
use viosnd.Virtio.Device.{Device}
use viosnd.Virtio.Pcm.{stop_pcm, release_pcm}
use viosnd.WaveRt.Stream.{Stream}
use viosnd.WaveRt.Thread.{Wait, forget_thread, finish_worker, after_wait, stop_render_worker}
use viosnd.WaveRt.State.{Kernel, stop_if_started, stop_again, stop_render}
use viosnd.WaveRt.Kept.{Keeps}
use viosnd.WaveRt.Kept.Render.{free_render_io_pool-Keeps}
use viosnd.WaveRt.Kept.Capture.{free_capture_io_pool-Keeps}
use viosnd.WaveRt.Kept.Worker.{finish_worker-Keeps}
use viosnd.WaveRt.Ownership.{Stops, Stops-trans}

module _ (h : Host) where
  open h use {World}

  after_wait-Stops :
      (outcome : NtStatus) (s : Stream) (d : Device) (w : World)
      → let (ended, t, d', w') = after_wait h outcome s d w in Stops ended s t
  unfolding after_wait
  after_wait-Stops outcome s d w = elim (Bool-cases s.capture) [
    | inl captures ↦ ground (arith, free_capture_io_pool-Keeps h (forget_thread s) d w)
    | inr renders ↦ ground (arith, free_render_io_pool-Keeps h (forget_thread s) d w)
  ]

  Keeps-Stops : {ended : Bool} {s t u : Stream} → Keeps s t → Stops ended t u → Stops ended s u
  Keeps-Stops k e = record {
    capture = e.capture ∙ k.capture;
    state = e.state ∙ k.state;
    down = e.down;
    alone = e.alone;
    disowned = λ c. e.disowned (k.capture ∙ c);
    threadless = λ c. e.threadless (k.capture ∙ c);
    held = λ r n. e.held (k.capture ∙ r) n ∙ k.started;
    holds = λ r n. e.holds (k.capture ∙ r) n ∙ k.thread;
    render_pool = omega (arith, k.render_pool, e.render_pool);
    capture_pool = omega (arith, k.capture_pool, e.capture_pool);
  }

  pub stop_render_worker-Stops :
      (wait : Wait) (s : Stream) (d : Device) (w : World)
      → let (ended, t, d', w') = stop_render_worker h wait s d w in Stops ended s t
  unfolding stop_render_worker
  stop_render_worker-Stops wait s d w =
      let (_, s1, d1, w1) = finish_worker h wait s d w in
      ground (
        arith,
        Keeps-Stops (finish_worker-Keeps h wait s d w) (after_wait-Stops wait.outcome s1 d1 w1),
      )

  -- Without a worker there is nothing to stop.
  pub stop_if_started-Stops :
      (wait : Wait) (s : Stream) (d : Device) (w : World)
      → (s.worker_started ≡ false → s.thread_object ≡ 0)
      → let (ended, t, d', w') = stop_if_started h wait s d w in Stops ended s t
  unfolding stop_if_started
  stop_if_started-Stops wait s d w alone =
      ground (arith, stop_render_worker-Stops wait s d w, alone)

  stop_again-Stops :
      (wait : Wait) (s : Stream) (d : Device) (w : World)
      → (s.worker_started ≡ false → s.thread_object ≡ 0)
      → let (ended, t, d', w') = stop_again h wait s d w in Stops ended s t
  unfolding stop_again
  stop_again-Stops wait s d w alone = ground (arith, stop_render_worker-Stops wait s d w, alone)

  -- Both attempts on a render stream
  pub stop_render-Stops :
      (k : Kernel) (s : Stream) (d : Device) (w : World)
      → (s.worker_started ≡ false → s.thread_object ≡ 0)
      → s.capture ≡ false
      → let (ended, t, d', w') = stop_render h k s d w in Stops ended s t
  unfolding stop_render
  stop_render-Stops k s d w alone renders =
      let (stopped, s1, d1, w1) = stop_if_started h k.first s d w in
      let first = stop_if_started-Stops k.first s d w alone in
      let (_, d2, w2) = stop_pcm h s.stream_id d1 w1 in
      let (_, d3, w3) = release_pcm h s.stream_id d2 w2 in
      elim (Bool-cases stopped) [
        | inl e ↦ rw (e, stop_render) (subst (λ b. Stops b s s1) e first)
        | inr e ↦
            let failed = subst (λ b. Stops b s s1) e first in
            rw (e, stop_render)
              (Stops-trans renders failed (
                stop_again-Stops k.second s1 d3 w3 (λ off.
                  failed.holds renders refl ∙ alone (sym (failed.held renders refl) ∙ off))))
      ]

-- ===== src/WaveRt/Ownership/Start.antt =====
-- The start of a stream's worker in viosnd/sys/ViosndWaveRT.cpp.
use viosnd.Base.{◌≡◌, ◌≢◌, true, false, arith, inl, inr, Bool-cases}
use viosnd.Status.{nt_success}
use viosnd.Virtio.Host.{Host}
use viosnd.Virtio.Device.{Device}
use viosnd.WaveRt.Stream.{Stream}
use viosnd.WaveRt.Thread.{Launch, enter_worker, start_render_worker}
use viosnd.WaveRt.Kept.Render.{allocate_render_io_pool-Keeps}
use viosnd.WaveRt.Kept.Capture.{allocate_capture_io_pool-Keeps}
use viosnd.WaveRt.Ownership.{Starts}

module _ (h : Host) where
  open h use {World}

  -- With no worker before it, StartRenderWorker succeeds with one or fails with none.
  pub start_render_worker-Starts :
      (l : Launch) (s : Stream) (d : Device) (w : World)
      → (nt_success l.referenced ≡ true → l.thread ≢ 0)
      → s.worker_started ≡ false
      → s.thread_object ≡ 0
      → let (status, t, d', w') = start_render_worker h l s d w in Starts status s t
  unfolding start_render_worker enter_worker
  start_render_worker-Starts l s d w given off none_there = elim (Bool-cases s.capture) [
    | inl captures ↦ ground (arith, allocate_capture_io_pool-Keeps h s d w, given)
    | inr renders ↦ ground (arith, allocate_render_io_pool-Keeps h s d w, given)
  ]

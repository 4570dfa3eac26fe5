-- ===== src/WaveRt/Kept.antt =====
-- What the transfers of a stream in viosnd/sys/ViosndWaveRT.cpp leave alone, and the bounds of the
-- arrays m_RenderIoPool and m_CaptureIoPool.
pub mod Render
pub mod Capture
pub mod Worker
use viosnd.Base.{ℕ, ◌≤◌, ◌≡◌, ◌∙◌, refl, Bool, true, false, length, max, if◌then◌else◌, arith}
use viosnd.Virtio.Device.{Device}
use viosnd.WaveRt.Stream.{Stream}
use viosnd.WaveRt.Render.{render_io_pool_size}
use viosnd.WaveRt.Capture.{capture_io_pool_size}

-- From `s` to `t` the state, the worker and the geometry stay, and neither pool outgrows its array.
pub record Keeps (s t : Stream) : Type 0 where
  pub capture : t.capture ≡ s.capture
  pub state : t.state ≡ s.state
  pub thread : t.thread_object ≡ s.thread_object
  pub started : t.worker_started ≡ s.worker_started
  pub buffer_size : t.buffer_size ≡ s.buffer_size
  pub count : t.notification_count ≡ s.notification_count
  pub packet_size : t.packet_size ≡ s.packet_size
  pub render_pool : length t.render_io_pool ≤ max render_io_pool_size (length s.render_io_pool)
  pub capture_pool : length t.capture_io_pool ≤ max capture_io_pool_size (length s.capture_io_pool)

pub Keeps-refl : (s : Stream) → Keeps s s
Keeps-refl s = record {
  capture = refl;
  state = refl;
  thread = refl;
  started = refl;
  buffer_size = refl;
  count = refl;
  packet_size = refl;
  render_pool = omega arith;
  capture_pool = omega arith;
}

pub Keeps-trans : (s t u : Stream) → Keeps s t → Keeps t u → Keeps s u
Keeps-trans s t u p q = record {
  capture = q.capture ∙ p.capture;
  state = q.state ∙ p.state;
  thread = q.thread ∙ p.thread;
  started = q.started ∙ p.started;
  buffer_size = q.buffer_size ∙ p.buffer_size;
  count = q.count ∙ p.count;
  packet_size = q.packet_size ∙ p.packet_size;
  render_pool = omega (arith, p.render_pool, q.render_pool);
  capture_pool = omega (arith, p.capture_pool, q.capture_pool);
}

-- ===== src/WaveRt/Ownership.antt =====
-- Who owns the worker thread of a stream in viosnd/sys/ViosndWaveRT.cpp, across SetState.
pub mod Start
pub mod Stop
pub mod SetState
use viosnd.Base.{
  ℕ, ◌≤◌, ◌≡◌, ◌≢◌, ◌∙◌, refl, Bool, true, false, length, max, arith, if◌then◌else◌, ltb,
}
use viosnd.Status.{NtStatus, nt_success}
use viosnd.WaveRt.Stream.{Stream, is_run}
use viosnd.WaveRt.Render.{render_io_pool_size}
use viosnd.WaveRt.Capture.{capture_io_pool_size}
use viosnd.WaveRt.Kept.{Keeps}

-- m_WorkerStarted is set only in the state RUN and with a thread object, there is no thread object
-- without it, and the pools of transfers are inside their arrays.
pub record IsOwned (s : Stream) : Type 0 where
  pub runs : s.worker_started ≡ true → is_run s.state ≡ true
  pub threaded : s.worker_started ≡ true → s.thread_object ≢ 0
  pub alone : s.worker_started ≡ false → s.thread_object ≡ 0
  pub render_pool : length s.render_io_pool ≤ render_io_pool_size
  pub capture_pool : length s.capture_io_pool ≤ capture_io_pool_size

-- From `s` to `t`, a start of the worker that ended with `status`.
pub record Starts (status : NtStatus) (s t : Stream) : Type 0 where
  pub capture : t.capture ≡ s.capture
  pub state : t.state ≡ s.state
  pub up : nt_success status ≡ true → t.worker_started ≡ true
  pub threaded : nt_success status ≡ true → t.thread_object ≢ 0
  pub down : nt_success status ≡ false → t.worker_started ≡ false
  pub alone : nt_success status ≡ false → t.thread_object ≡ 0
  pub render_pool : length t.render_io_pool ≤ max render_io_pool_size (length s.render_io_pool)
  pub capture_pool : length t.capture_io_pool ≤ max capture_io_pool_size (length s.capture_io_pool)

-- From `s` to `t`, an attempt to stop the worker, which ended it or not. A capture stream disowns its
-- worker in any case; a render stream keeps one that did not end.
pub record Stops (ended : Bool) (s t : Stream) : Type 0 where
  pub capture : t.capture ≡ s.capture
  pub state : t.state ≡ s.state
  pub down : ended ≡ true → t.worker_started ≡ false
  pub alone : ended ≡ true → t.thread_object ≡ 0
  pub disowned : s.capture ≡ true → t.worker_started ≡ false
  pub threadless : s.capture ≡ true → t.thread_object ≡ 0
  pub held : s.capture ≡ false → ended ≡ false → t.worker_started ≡ s.worker_started
  pub holds : s.capture ≡ false → ended ≡ false → t.thread_object ≡ s.thread_object
  pub render_pool : length t.render_io_pool ≤ max render_io_pool_size (length s.render_io_pool)
  pub capture_pool : length t.capture_io_pool ≤ max capture_io_pool_size (length s.capture_io_pool)

-- What keeps the worker and the state keeps their relation.
pub Keeps-IsOwned : {s t : Stream} → Keeps s t → IsOwned s → IsOwned t
Keeps-IsOwned k o = record {
  runs = λ e. ground (arith, k.started, k.state, o.runs);
  threaded = λ e. ground (arith, k.started, k.thread, o.threaded);
  alone = λ e. ground (arith, k.started, k.thread, o.alone);
  render_pool = omega (arith, k.render_pool, o.render_pool);
  capture_pool = omega (arith, k.capture_pool, o.capture_pool);
}

pub Stops-Keeps : {ended : Bool} {s t u : Stream} → Stops ended s t → Keeps t u → Stops ended s u
Stops-Keeps e k = record {
  capture = k.capture ∙ e.capture;
  state = k.state ∙ e.state;
  down = λ y. k.started ∙ e.down y;
  alone = λ y. k.thread ∙ e.alone y;
  disowned = λ c. k.started ∙ e.disowned c;
  threadless = λ c. k.thread ∙ e.threadless c;
  held = λ r n. k.started ∙ e.held r n;
  holds = λ r n. k.thread ∙ e.holds r n;
  render_pool = omega (arith, k.render_pool, e.render_pool);
  capture_pool = omega (arith, k.capture_pool, e.capture_pool);
}

-- A capture stream has no worker after an attempt to stop it, whether it ended or not.
pub Stops-disowned :
    {ended : Bool} {s t : Stream} → Stops ended s t → s.capture ≡ true → Stops true s t
Stops-disowned e captures = record {
  capture = e.capture;
  state = e.state;
  down = λ y. e.disowned captures;
  alone = λ y. e.threadless captures;
  disowned = e.disowned;
  threadless = e.threadless;
  held = λ r n. cc;
  holds = λ r n. cc;
  render_pool = e.render_pool;
  capture_pool = e.capture_pool;
}

-- A second attempt on a render stream, after one that failed.
pub Stops-trans :
    {ended : Bool} {s t u : Stream}
    → s.capture ≡ false
    → Stops false s t
    → Stops ended t u
    → Stops ended s u
Stops-trans renders e k = record {
  capture = k.capture ∙ e.capture;
  state = k.state ∙ e.state;
  down = k.down;
  alone = k.alone;
  disowned = λ c. cc;
  threadless = λ c. cc;
  held = λ r n. k.held (e.capture ∙ r) n ∙ e.held r refl;
  holds = λ r n. k.holds (e.capture ∙ r) n ∙ e.holds r refl;
  render_pool = omega (arith, k.render_pool, e.render_pool);
  capture_pool = omega (arith, k.capture_pool, e.capture_pool);
}

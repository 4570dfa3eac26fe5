-- ===== src/WaveRt/Calls.antt =====
-- The life of a stream in viosnd/sys/ViosndWaveRT.cpp: the calls of the audio stack and the rounds of
-- the worker, one after the other, and what holds in every state that they lead to.
mod Tests
use viosnd.Base.{
  ℕ, max, ◌*◌, ◌/◌, ◌≡◌, ◌≢◌, ◌≤◌, refl, ap, ◌∙◌, Bool, true, false, Option, none, some, length,
  arith, branches, not, ◌&&◌, Bool-cases, Option-cases, inl, inr, ◌==◌, if◌then◌else◌,
}
use viosnd.Status.{nt_success}
use viosnd.Pcm.{default_buffer_bytes, default_period_bytes}
use viosnd.Virtio.Host.{Host}
use viosnd.Virtio.Device.{Device}
use viosnd.WaveRt.Stream.{
  Stream, KsState, is_run, set_write_packet, get_read_packet, register_notification_event,
  unregister_notification_event,
}
use viosnd.WaveRt.Miniport.{Miniport, new_wave_rt_stream}
use viosnd.WaveRt.Buffer.{
  free_audio_buffer, allocate_audio_buffer, map_audio_buffer, adopt_buffer, reset_buffer,
  allocate_buffer_with_notification, free_buffer_with_notification,
}
use viosnd.WaveRt.Render.Pool.{free_render_io_pool}
use viosnd.WaveRt.Capture.{free_capture_io_pool}
use viosnd.WaveRt.Thread.{Moment, Wait, worker_round}
use viosnd.WaveRt.State.{Kernel, set_state, release_reference}
use viosnd.WaveRt.Kept.{Keeps, Keeps-trans, Keeps-refl}
use viosnd.WaveRt.Kept.Render.{free_render_io_pool-Keeps}
use viosnd.WaveRt.Kept.Capture.{free_capture_io_pool-Keeps}
use viosnd.WaveRt.Kept.Worker.{worker_round-Keeps}
use viosnd.WaveRt.Ownership.{IsOwned, Stops, Keeps-IsOwned}
use viosnd.WaveRt.Ownership.Stop.{stop_render_worker-Stops}
use viosnd.WaveRt.Ownership.SetState.{set_state-Settles}

-- A call on the stream `s`, or a round of a worker thread, the stream's own or one that it has given
-- up, and the stream after it. The device and the world are any, since the other stream and the device work on them in between.
pub data Step (h : Host) : Stream → Stream → Type 0 where
  changes :
      (k : Kernel) (state : KsState) (s : Stream) (d : Device) (w : h.World)
      → (nt_success k.launch.referenced ≡ true → k.launch.thread ≢ 0)
      → Step h s (set_state h k state s d w).1
  works : (m : Moment) (s : Stream) (d : Device) (w : h.World) → Step h s (worker_round h m s d w).1
  writes :
      (number : ℕ) (eos : Bool) (size : ℕ) (s : Stream)
      → Step h s (set_write_packet number eos size s).1
  reads : (qpc : ℕ) (s : Stream) → Step h s (get_read_packet qpc s).2
  registers : (event : ℕ) (s : Stream) → Step h s (register_notification_event event s)
  unregisters : (event : ℕ) (s : Stream) → Step h s (unregister_notification_event event s)
  allocates :
      (size : ℕ) (s : Stream) (d : Device) (w : h.World)
      → Step h s (allocate_audio_buffer h size s d w).1
  allocates_packets :
      (count : ℕ) (s : Stream) (d : Device) (w : h.World)
      → Step h s (allocate_buffer_with_notification h count s d w).1
  frees :
      (mdl : ℕ) (s : Stream) (d : Device) (w : h.World) → Step h s (free_audio_buffer h mdl s d w).1
  frees_packets :
      (mdl : ℕ) (s : Stream) (d : Device) (w : h.World)
      → Step h s (free_buffer_with_notification h mdl s d w).1
  releases :
      (own : Bool) (wait : Wait) (s : Stream) (d : Device) (w : h.World)
      → Step h s (release_reference h own wait s d w).1

pub data Reaches (h : Host) (s : Stream) : Stream → Type 0 where
  here : Reaches h s s
  next : {t u : Stream} → Reaches h s t → Step h t u → Reaches h s u

writes-IsOwned :
    (number : ℕ) (eos : Bool) (size : ℕ) (s : Stream)
    → IsOwned s
    → IsOwned (set_write_packet number eos size s).1
unfolding set_write_packet
writes-IsOwned number eos size s o = ground (arith, o)

reads-IsOwned : (qpc : ℕ) (s : Stream) → IsOwned s → IsOwned (get_read_packet qpc s).2
unfolding get_read_packet
reads-IsOwned qpc s o = ground (arith, o)

registers-IsOwned :
    (event : ℕ) (s : Stream) → IsOwned s → IsOwned (register_notification_event event s)
unfolding register_notification_event
registers-IsOwned event s o = ground (arith, o)

unregisters-IsOwned :
    (event : ℕ) (s : Stream) → IsOwned s → IsOwned (unregister_notification_event event s)
unfolding unregister_notification_event
unregisters-IsOwned event s o = ground (arith, o)

-- An attempt to stop the worker, whatever the state is
Stops-IsOwned : {ended : Bool} {s t : Stream} → Stops ended s t → IsOwned s → IsOwned t
Stops-IsOwned {ended} {s} e o = elim (Bool-cases s.capture) [
  | inl captures ↦ ground (arith, e, o, e.disowned captures, e.threadless captures)
  | inr renders ↦ elim (Bool-cases ended) [
    | inl stopped ↦ ground (arith, e, o, e.down stopped, e.alone stopped)
    | inr runs ↦ ground (arith, e, o, e.held renders runs, e.holds renders runs)
  ]
]

reset-IsOwned : (s : Stream) → IsOwned s → IsOwned (reset_buffer s)
unfolding reset_buffer
reset-IsOwned s o = ground (arith, o)

adopt-IsOwned : (n : ℕ) (s : Stream) → IsOwned s → IsOwned (adopt_buffer n s)
unfolding adopt_buffer
adopt-IsOwned n s o = ground (arith, o)

module _ (h : Host) where
  open h use {World, mdl_alloc, mdl_map, mdl_free}

  frees-IsOwned :
      (mdl : ℕ) (s : Stream) (d : Device) (w : World)
      → IsOwned s
      → IsOwned (free_audio_buffer h mdl s d w).1
  unfolding free_audio_buffer
  frees-IsOwned mdl s d w o =
      let w0 = if mdl == 0 then w else mdl_free mdl w in
      let (_, s1, d1, w1) = free_render_io_pool h s d w0 in
      let (_, s2, d2, w2) = free_capture_io_pool h s1 d1 w1 in
      let kept =
        Keeps-trans s s1 s2 (free_render_io_pool-Keeps h s d w0)
          (free_capture_io_pool-Keeps h s1 d1 w1) in
      ground (arith, o, reset-IsOwned s2 (Keeps-IsOwned kept o))

  maps-IsOwned :
      (mdl : ℕ) (s : Stream) (d : Device) (w : World)
      → IsOwned s
      → IsOwned (map_audio_buffer h mdl s d w).1
  unfolding map_audio_buffer
  maps-IsOwned mdl s d w o = elim (Option-cases (mdl_map mdl w).0) [
    | inl e ↦ rw (e, map_audio_buffer) (frees-IsOwned mdl s d (mdl_map mdl w).1 o)
    | inr (n, e) ↦ rw (e, map_audio_buffer) (adopt-IsOwned n s o)
  ]

  allocates-IsOwned :
      (size : ℕ) (s : Stream) (d : Device) (w : World)
      → IsOwned s
      → IsOwned (allocate_audio_buffer h size s d w).1
  unfolding allocate_audio_buffer
  allocates-IsOwned size s d w o =
      let size' = max size default_buffer_bytes in
      elim (Option-cases (mdl_alloc size' w).0) [
        | inl e ↦ rw (e, allocate_audio_buffer) (ground (arith, o))
        | inr (mdl, e) ↦
            rw (e, allocate_audio_buffer)
              (maps-IsOwned mdl (record s { mdl = mdl }) d (mdl_alloc size' w).1
                (ground (arith, o)))
      ]

  allocates_packets-IsOwned :
      (count : ℕ) (s : Stream) (d : Device) (w : World)
      → IsOwned s
      → IsOwned (allocate_buffer_with_notification h count s d w).1
  unfolding allocate_buffer_with_notification
  allocates_packets-IsOwned count s d w o =
      let requested =
        max (if count == 0 then default_buffer_bytes / default_period_bytes else count) 1
        * default_period_bytes in
      ground (arith, o, allocates-IsOwned requested s d w o)

  frees_packets-IsOwned :
      (mdl : ℕ) (s : Stream) (d : Device) (w : World)
      → IsOwned s
      → IsOwned (free_buffer_with_notification h mdl s d w).1
  unfolding free_buffer_with_notification
  frees_packets-IsOwned mdl s d w o = ground (arith, frees-IsOwned mdl s d w o)

  releases-IsOwned :
      (own : Bool) (wait : Wait) (s : Stream) (d : Device) (w : World)
      → IsOwned s
      → IsOwned (release_reference h own wait s d w).1
  unfolding release_reference
  releases-IsOwned own wait s d w o =
      branches (λ (r : Bool × Stream × Device × World). IsOwned r.1)
        (not (s.thread_object == 0) && not own)
        (λ _. Stops-IsOwned (stop_render_worker-Stops h wait s d w) o) (λ _. o)

Step-IsOwned : {h : Host} {s t : Stream} → Step h s t → IsOwned s → IsOwned t
Step-IsOwned {h} (changes k state s d w given) o = (set_state-Settles h k state s d w given o).owned
Step-IsOwned {h} (works m s d w) o = Keeps-IsOwned (worker_round-Keeps h m s d w) o
Step-IsOwned (writes number eos size s) o = writes-IsOwned number eos size s o
Step-IsOwned (reads qpc s) o = reads-IsOwned qpc s o
Step-IsOwned (registers event s) o = registers-IsOwned event s o
Step-IsOwned (unregisters event s) o = unregisters-IsOwned event s o
Step-IsOwned {h} (allocates size s d w) o = allocates-IsOwned h size s d w o
Step-IsOwned {h} (allocates_packets count s d w) o = allocates_packets-IsOwned h count s d w o
Step-IsOwned {h} (frees mdl s d w) o = frees-IsOwned h mdl s d w o
Step-IsOwned {h} (frees_packets mdl s d w) o = frees_packets-IsOwned h mdl s d w o
Step-IsOwned {h} (releases own wait s d w) o = releases-IsOwned h own wait s d w o

Reaches-IsOwned : {h : Host} {s t : Stream} → Reaches h s t → IsOwned s → IsOwned t
Reaches-IsOwned here o = o
Reaches-IsOwned (next r st) o = Step-IsOwned st (Reaches-IsOwned r o)

new-IsOwned : (m : Miniport) → IsOwned (new_wave_rt_stream m)
unfolding new_wave_rt_stream
new-IsOwned m = ground arith

-- In every state that the calls of the audio stack, releases of references that are not the last, and
-- rounds of any worker thread lead to from a new stream, in any order and whatever the device does in
-- between, m_WorkerStarted is set only in the state RUN and exactly where m_ThreadObject is not
-- NULL, and m_RenderIoPool and m_CaptureIoPool hold no more transfers than their arrays have
-- places. A thread may make rounds whether or not m_WorkerStarted is set, since one that the stream
-- has given up after a timeout may still run. A thread that could be referenced is assumed not to be
-- NULL.
pub new_stream-IsOwned :
    (h : Host) (m : Miniport) (t : Stream) → Reaches h (new_wave_rt_stream m) t → IsOwned t
new_stream-IsOwned h m t r = Reaches-IsOwned r (new-IsOwned m)

-- ===== src/WaveRt/Calls/Tests.antt =====
-- SetState and a short life of a render stream at a concrete host.
use viosnd.Base.{◌≡◌, ◌≢◌, true, false, [], ◌∷◌, arith}
use viosnd.Status.{nt_success, status_success, status_timeout}
use viosnd.Virtio.Tests.{lists_host, no_lists, ready_device}
use viosnd.WaveRt.Stream.{Stream, ks_run, set_write_packet}
use viosnd.WaveRt.Miniport.{Miniport, new_wave_rt_stream}
use viosnd.WaveRt.Buffer.{allocate_audio_buffer}
use viosnd.WaveRt.Thread.{Wait, Moment}
use viosnd.WaveRt.State.{Kernel, set_state}
use viosnd.WaveRt.Ownership.{IsOwned}
use viosnd.WaveRt.Calls.{changes, writes, allocates, here, next, new_stream-IsOwned}

abbrev moment : Moment
moment = record { qpc = 2000; later = 2001; frequency = 1000 }

abbrev wait : Wait
wait = record { rounds = moment ∷ []; outcome = status_success }

abbrev late_wait : Wait
late_wait = record { rounds = moment ∷ []; outcome = status_timeout }

abbrev kernel : Kernel
kernel = record {
  launch = record { created = status_success; referenced = status_success; thread = 5 };
  qpc = 1000;
  frequency = 1000;
  first = late_wait;
  second = wait;
}

abbrev speaker : Miniport
speaker = record { stream_id = 0; capture = false }

abbrev with_buffer : Stream
with_buffer =
    (allocate_audio_buffer lists_host 8192 (new_wave_rt_stream speaker) ready_device no_lists).1

abbrev started : Stream
started = (set_state lists_host kernel ks_run with_buffer ready_device no_lists).1

thread_given : nt_success kernel.launch.referenced ≡ true → kernel.launch.thread ≢ 0
thread_given e z = absurd (omega arith)

new_stream-IsOwned_example : IsOwned (set_write_packet 3 false 0 started).1
new_stream-IsOwned_example =
    new_stream-IsOwned lists_host speaker (set_write_packet 3 false 0 started).1 (
      next
        (next (next here (allocates 8192 (new_wave_rt_stream speaker) ready_device no_lists))
          (changes kernel ks_run with_buffer ready_device no_lists thread_given))
        (writes 3 false 0 started))

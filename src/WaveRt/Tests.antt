-- ===== src/WaveRt/Tests.antt =====
-- The theorems of the stream class at concrete inputs.
use viosnd.Base.{
  ℕ, ◌+◌, ◌-◌, ◌*◌, ◌/◌, ◌%◌, ◌≤◌, ◌<◌, ◌≡◌, ◌≢◌, ◌↔◌, ◌⊎◌, refl, true, false, not, List, [], ◌∷◌,
  ◌++◌, some, length, take, replicate, arith, min, max, max_ulong, u32, ◌==◌,
}
use viosnd.Base.Int.{pos}
use viosnd.Status.{status_success}
use viosnd.Virtio.Host.{PcmIo}
use viosnd.Virtio.Io.{zero_io, Reclaimed}
use viosnd.Virtio.Tests.{
  Lists, lists_host, lists_tx, lists_detach, lists_rx, no_lists, ready_device,
}
use viosnd.WaveRt.Stream.{Stream, ks_run, get_read_packet, set_write_packet, target_outstanding}
use viosnd.WaveRt.Packet.{packet_number_less_or_equal, has_writable_render_packet}
use viosnd.WaveRt.Geometry.{cyclic_target_outstanding_packets}
use viosnd.WaveRt.Geometry.Bounds.{count_of, packet_size_of, buffer_size_of, packets_tile_buffer}
use viosnd.WaveRt.Packet.Order.{packet_number_less_or_equal_iff}
use viosnd.WaveRt.Samples.{pcm_copy_gain16, pcm_peak16, capture_software_gain}
use viosnd.WaveRt.Samples.Copy.{AreBytes, copy-unit_gain}
use viosnd.WaveRt.Downsample.{downsample_stereo16}
use viosnd.WaveRt.Downsample.Rate.{downsample_rate}
use viosnd.WaveRt.Clock.{render_bytes_from_qpc, bytes_per_second}
use viosnd.WaveRt.Clock.Bytes.{render_bytes_exact, render_bytes_wraps}
use viosnd.WaveRt.Stream.Ports.{IsReady, set_write_packet_lem, get_read_packet_lem}
use viosnd.WaveRt.Render.{submit_render_packet, reclaim_render_packets}
use viosnd.WaveRt.Render.Conservation.{
  IsConserved, submit_render_packet-IsConserved, reclaim_render_packets-IsConserved,
}
use viosnd.WaveRt.Render.{cancel_render_writes, render_io_pool_size}
use viosnd.WaveRt.Render.Pool.{allocate_render_io_pool}
use viosnd.WaveRt.Render.Filled.{IsFilled, allocate_render_io_pool-IsFilled}
use viosnd.WaveRt.Render.Cancel.{cancel_render_writes-IsConserved}
use viosnd.WaveRt.Buffer.{allocate_audio_buffer}
use viosnd.WaveRt.Buffer.Tiling.{MdlLaws, IsAllocated, allocate_audio_buffer-IsAllocated}
use viosnd.WaveRt.Capture.Drain.{reclaim_capture_packets-ends}
use viosnd.WaveRt.Capture.{reclaim_capture_packets, account_capture}
use viosnd.WaveRt.Capture.Window.{account_capture-IsReady, account_capture-stores}
use viosnd.WaveRt.Worker.{fill_loop, fill_queue}
use viosnd.WaveRt.Worker.Fill.{fill_queue-ends}

-- A transfer with its buffers, and the twelve that the pool of a render stream holds.
abbrev pub spare_io : PcmIo
spare_io = record zero_io { request_va = 4096; request_length = 4000; status_va = 8192 }

abbrev running : Stream
running = record {
  stream_id = 1;
  capture = false;
  state = ks_run;
  mdl = 0;
  has_buffer = true;
  buffer = λ i. replicate 8 (i % 256);
  buffer_size = 32;
  notification_count = 4;
  packet_size = 8;
  packet_number = 0;
  last_os_write_packet = max_ulong;
  next_submit_packet = 0;
  next_read_packet = 0;
  eos_packet_number = max_ulong;
  eos_packet_length = 0;
  outstanding_writes = 0;
  render_preroll_packets = 0;
  capture_in_flight = 0;
  capture_overflows = 0;
  render_fallback_phase = 0;
  render_io_pool = replicate 12 spare_io;
  fallback_buffer = 0;
  fallback_buffer_size = 0;
  capture_io_pool = [];
  position = 0;
  run_start_position = 0;
  run_start_qpc = 0;
  qpc_frequency = 0;
  fallback_monitor_start_position = 0;
  fallback_monitor_start_qpc = 0;
  notification_event = 0;
  notifications = 0;
  kicked = false;
  fallback_active = false;
  fallback_attempted = false;
  render_stall_loops = 0;
  thread_object = 0;
  worker_started = false;
  last_completed = 0;
  capture_target = 1;
}

-- A capture stream with three packets that the reader has not taken.
abbrev pub recording : Stream
recording = record running {
  capture = true;
  packet_number = 5;
  next_read_packet = 2;
  outstanding_writes = 3;
  render_io_pool = [];
}

running-IsConserved : IsConserved lists_host lists_tx running no_lists
running-IsConserved = record { counted = refl; all_there = refl }

pub recording-IsReady : IsReady recording
recording-IsReady = record {
  counted = refl;
  fits = omega arith;
  next_is_ulong = omega arith;
  last_is_ulong = omega arith;
}

packets_tile_buffer_example :
    (count_of 19200 * packet_size_of 19200 ≡ buffer_size_of 19200)
    × (buffer_size_of 19200 ≤ 19200)
    × (19200 < buffer_size_of 19200 + 2048)
    × (0 < count_of 19200)
    × (0 < packet_size_of 19200)
    × (packet_size_of 19200 ≤ 2048)
packets_tile_buffer_example = packets_tile_buffer 19200 (omega arith) (omega arith)

abbrev five : ℕ
five = 5

packet_number_less_or_equal_iff_example :
    (packet_number_less_or_equal 4294967294 3 ≡ true)
    ↔ ((k : ℕ) × (k ≤ 2147483648) × (u32 (4294967294 + k) ≡ 3))
packet_number_less_or_equal_iff_example =
    packet_number_less_or_equal_iff 4294967294 3 (omega arith) (omega arith)

abbrev five_bytes : List ℕ
five_bytes = 255 ∷ 127 ∷ 0 ∷ 128 ∷ 9 ∷ []

five_bytes-AreBytes : AreBytes five_bytes
five_bytes-AreBytes = (omega arith, (omega arith, (omega arith, (omega arith, (omega arith, tt)))))

copy-unit_gain_example :
    pcm_copy_gain16 five_bytes capture_software_gain ≡ (five_bytes, pcm_peak16 five_bytes)
copy-unit_gain_example = copy-unit_gain five_bytes five_bytes-AreBytes

downsample_rate_example :
    let (written, count, final) = downsample_stereo16 6 (replicate 16 1) 16000 32000 in
    (length written ≡ count)
    × (count ≤ 6)
    × (count ≡ 4 * min (6 / 4) ((32000 + 4 * 16000) / 48000))
    × (final < 48000)
    × ((6 / 4 * 4 ≤ count) ⊎ (32000 + 4 * 16000 ≡ count / 4 * 48000 + final))
downsample_rate_example =
    downsample_rate 4 6 (replicate 16 1) 16000 32000 refl (omega arith) (omega arith) (omega arith)

render_bytes_exact_example :
    (render_bytes_from_qpc (pos 12345) 10000000 % 4 ≡ 0)
    × (render_bytes_from_qpc (pos 12345) 10000000 * 10000000 ≤ 12345 * bytes_per_second)
    × (12345 * bytes_per_second < (render_bytes_from_qpc (pos 12345) 10000000 + 4) * 10000000)
render_bytes_exact_example = render_bytes_exact 12345 10000000 (omega arith) (omega arith)

-- About 111 days at ten million ticks a second.
render_bytes_wraps_example :
    render_bytes_from_qpc (pos 96076792050571) 10000000 * 10000000 < bytes_per_second
render_bytes_wraps_example =
    render_bytes_wraps 96076792050571 10000000 (omega arith) (omega arith) (omega arith)

accepted_write : (set_write_packet 7 true 5 running).0 ≡ status_success
unfolding set_write_packet
accepted_write = refl

set_write_packet_lem_example :
    let t = (set_write_packet 7 true 5 running).1 in
    (t.last_os_write_packet ≡ 7)
    × ((running.last_os_write_packet ≢ max_ulong)
        ⊎ (t.next_submit_packet ≡ 7)
          × (has_writable_render_packet t.next_submit_packet t.last_os_write_packet ≡ true))
    × ((true ≡ false) ⊎ (t.eos_packet_number ≡ 7) × (t.eos_packet_length ≤ t.packet_size))
    × ((true ≡ true)
        ⊎ ((t.eos_packet_number ≡ max_ulong)
            ⊎ (packet_number_less_or_equal t.eos_packet_number 7 ≡ false)))
    × (t.kicked ≡ true)
set_write_packet_lem_example = set_write_packet_lem 7 true 5 running (omega arith) accepted_write

get_read_packet_lem_example :
    let (status, packet, t) = get_read_packet 5 recording in
    IsReady t
    × ((status ≡ status_success)
          × (packet.number ≡ 2)
          × (t.next_read_packet ≡ u32 (2 + 1))
          × (t.outstanding_writes + 1 ≡ 3)
          × (packet.more ≡ not (t.outstanding_writes == 0))
        ⊎ (status ≢ status_success) × (t ≡ recording))
get_read_packet_lem_example = get_read_packet_lem 5 recording recording-IsReady

submit_render_packet-IsConserved_example :
    let (_, s', d', w') = submit_render_packet lists_host 0 8 running ready_device no_lists in
    IsConserved lists_host lists_tx s' w'
submit_render_packet-IsConserved_example =
    submit_render_packet-IsConserved lists_host lists_tx 0 8 running ready_device no_lists
      running-IsConserved

-- One transfer is on the queue, and eleven are in the pool.
abbrev one_queued : Lists
one_queued = record no_lists { tx = spare_io ∷ [] }

abbrev one_out : Stream
one_out = record running { outstanding_writes = 1; render_io_pool = replicate 11 spare_io }

reclaim_render_packets-IsConserved_example :
    let (ended, s', d', w') = reclaim_render_packets lists_host one_out ready_device one_queued in
    (ended ≡ true) × IsConserved lists_host lists_tx s' w'
reclaim_render_packets-IsConserved_example =
    reclaim_render_packets-IsConserved lists_host lists_tx one_out ready_device one_queued
      (record { counted = refl; all_there = refl })

abbrev short_io : PcmIo
short_io = record spare_io { packet_number = 8 }

abbrev pub short_read : Reclaimed
short_read = record {
  status = status_success;
  io = some short_io;
  bytes = 5;
  latency_bytes = 0;
  audio = five_bytes;
}

account_capture-IsReady_example :
    IsReady (account_capture short_read short_io recording)
    × ((account_capture short_read short_io recording).packet_number ≡ u32 (8 + 1))
account_capture-IsReady_example =
    account_capture-IsReady short_read short_io recording (omega arith) (omega arith)

account_capture-stores_example :
    ((account_capture short_read short_io recording).buffer 0
      ≡ take (min 5 8) five_bytes ++ replicate (8 - 5) 0)
    × ((j : ℕ)
        → j ≢ 0
        → (account_capture short_read short_io recording).buffer j ≡ recording.buffer j)
account_capture-stores_example =
    account_capture-stores short_read short_io recording (8 / recording.notification_count) 0
      (omega arith) refl five_bytes-AreBytes

target_below : target_outstanding running ≤ 20
unfolding target_outstanding cyclic_target_outstanding_packets
target_below = omega arith

fill_queue-ends_example :
    let target = target_outstanding running in
    (fill_loop lists_host 20 target running ready_device no_lists
      ≡ fill_loop lists_host target target running ready_device no_lists)
    × ((fill_queue lists_host running ready_device no_lists).1.outstanding_writes
        ≤ max running.outstanding_writes target)
fill_queue-ends_example = fill_queue-ends lists_host 20 running ready_device no_lists target_below

cancel_render_writes-IsConserved_example :
    let (_, s', d', w') = cancel_render_writes lists_host one_out ready_device one_queued in
    IsConserved lists_host lists_tx s' w'
cancel_render_writes-IsConserved_example =
    cancel_render_writes-IsConserved lists_host lists_tx lists_detach one_out ready_device
      one_queued (record { counted = refl; all_there = refl })

allocate_render_io_pool-IsFilled_example :
    let (status, s', d', w') =
      allocate_render_io_pool lists_host
        (record running { render_io_pool = [] })
        ready_device
        no_lists in
    IsFilled render_io_pool_size status s'
allocate_render_io_pool-IsFilled_example =
    allocate_render_io_pool-IsFilled lists_host (record running { render_io_pool = [] })
      ready_device no_lists refl refl refl

reclaim_capture_packets-ends_example :
    (reclaim_capture_packets lists_host recording ready_device
      (record no_lists { rx = short_io ∷ spare_io ∷ [] })).0
    ≡ true
reclaim_capture_packets-ends_example =
    reclaim_capture_packets-ends lists_host lists_rx recording ready_device
      (record no_lists { rx = short_io ∷ spare_io ∷ [] }) refl

-- Each mapping of `lists_host` has 20000 bytes.
lists_mdl : MdlLaws lists_host
lists_mdl = record { mapped = λ mdl w n e. (ground arith, ground arith) }

allocate_audio_buffer-IsAllocated_example :
    let (status, s', d', w') =
      allocate_audio_buffer lists_host 4096 running ready_device no_lists in
    IsAllocated status s'
allocate_audio_buffer-IsAllocated_example =
    allocate_audio_buffer-IsAllocated lists_host lists_mdl 4096 running ready_device no_lists

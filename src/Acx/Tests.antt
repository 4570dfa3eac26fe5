-- ===== src/Acx/Tests.antt =====
-- Runs of the ACX stream and device of viosnd/sys/ViosndAcxCircuit.cpp and ViosndAcxDriver.cpp
-- against a host in which every call succeeds.
use viosnd.Base.{
  leb, inl, ℕ, ◌-◌, ◌||◌, suc, ◌+◌, ◌≡◌, ◌≢◌, ◌⊎◌, refl, sym, ap, ◌∙◌, Bool, true, false, List, [],
  ◌∷◌, Option, none, some, if◌then◌else◌, ◌==◌, ◌&&◌, ltb, arith,
}
use viosnd.Base.Int.{ℤ, pos, negsuc}
use viosnd.Status.{
  nt_success, status_success, status_insufficient_resources, status_invalid_parameter,
}
use viosnd.Protocol.{s_ok}
use viosnd.Pcm.{no_pair}
use viosnd.Virtio.Host.{pcm_header}
use viosnd.Acx.Host.{AcxHost, Completed, Message}
use viosnd.Acx.Stream.{AcxStream, AcxQueues, set_at}
use viosnd.Acx.Ready.Refine.{
  Turn, queues, takes, clears, IsRing, run_ring, run_fifo, ready_packets, run_ring-run_fifo,
}
use viosnd.Acx.Periods.{zero_period, pump_loop}
use viosnd.Acx.Periods.Pump.{pump_loop-ends}
use viosnd.Acx.Packets.{allocate_rt_packets}
use viosnd.Acx.Packets.Owned.{Blocks, owned}
use viosnd.Acx.Packets.Filling.{IsBare}
use viosnd.Acx.Packets.Shared.{IsShared, allocate_rt_packets-IsShared}
use viosnd.Acx.Control.{acx_control_command, acx_poll_control, acx_poll_rounds}
use viosnd.Acx.Control.Ends.{acx_poll_control-ends}
use viosnd.Acx.Control.Counted.{Counts, given, acx_control_command_lem}
use viosnd.Acx.Control.Quiet.{Quiet}
use viosnd.Acx.Levels.{all_channels_id, volume_assign_level, volume_retrieve_level}
use viosnd.Acx.Levels.Kept.{volume_retrieve_level-assign}
use viosnd.Acx.Tracked.{QueueLaws, IsTracked, bit}
use viosnd.Acx.Tracked.Runs.{
  Call, interrupts, sets, starts, stops, answer_all, answer_all-IsTracked,
}
use viosnd.Acx.Device.{AcxDevice, AcxBus, no_queues}
use viosnd.Acx.Device.Ready.{IsUp}
use viosnd.Acx.Device.Power.{Power, prepares, wakes, sleeps, releases, power_all, power_all-IsUp}

-- The periods on the two virtqueues, the messages on the control queue, the last address given, how
-- many blocks are allocated, and how long each is
record Toy : Type 0 where
  renders : List ℕ
  captures : List ℕ
  sent : List ℕ
  last : ℕ
  live : ℕ
  sizes : ℕ → ℕ

abbrev queue_of : Bool → Toy → List ℕ
queue_of c w = if c then w.captures else w.renders

abbrev put_queue : Bool → List ℕ → Toy → Toy
put_queue c l w = record w {
  renders = if c then w.renders else l;
  captures = if c then l else w.captures;
}

abbrev give : Toy → Option ℕ × Toy
give w = (some (suc w.last), record w { last = suc w.last; live = w.live + 1 })

abbrev pool : ℕ → Toy → Option ℕ × Toy
pool n w = (
  some (suc w.last),
  record w { last = suc w.last; live = w.live + 1; sizes = set_at (suc w.last) n w.sizes },
)

abbrev used : ℕ → Completed
used i = record { index = i; status = s_ok; latency_bytes = 0; audio = 1 ∷ 2 ∷ [] }

abbrev pop : Bool → Toy → List ℕ → Option Completed × Toy
pop c w [] = (none, w)
pop c w (i ∷ rest) = (some (used i), put_queue c rest w)

abbrev pop_sent : Toy → List ℕ → Option ℕ × Toy
pop_sent w [] = (none, w)
pop_sent w (m ∷ rest) = (some m, record w { sent = rest })

abbrev size_of : List ℕ → ℕ
size_of [] = 0
size_of (i ∷ rest) = suc (size_of rest)

abbrev toy : AcxHost
toy = record {
  World = Toy;
  pool_alloc = λ n w. pool n w;
  pool_free = λ va w. record w { live = w.live - 1 };
  rt_packet_size = 40;
  dma_alloc = λ n w. give w;
  dma_free = λ va w. record w { live = w.live - 1 };
  mdl_alloc = λ va n w. give w;
  mdl_free = λ va w. record w { live = w.live - 1 };
  delay_ms = λ w. w;
  queue_add = λ c i p w. some (put_queue c (i ∷ queue_of c w) w);
  queue_kick = λ c w. w;
  queue_get = λ c w. pop c w (queue_of c w);
  used_count = λ c w. size_of (queue_of c w);
  packet_complete = λ c n w. w;
  control_add = λ m w. some (record w { sent = m.address ∷ w.sent });
  control_kick = λ w. w;
  control_get = λ w. pop_sent w w.sent;
  response_at = λ va w. record { code = s_ok; infos = [] };
  event_add = λ i w. some w;
  event_kick = λ w. w;
  event_get = λ w. (none, w);
  event_used_count = λ w. 0;
}

abbrev count_of : ℕ → List ℕ → ℕ
count_of j [] = 0
count_of j (i ∷ rest) = bit (j == i) + count_of j rest

abbrev on_queue : Bool → ℕ → Toy → ℕ
on_queue c j w = count_of j (queue_of c w)

abbrev content : Toy → Option Toy → Toy
content w none = w
content w (some w') = w'

abbrev index_of : Option Completed → ℕ
index_of none = 0
index_of (some k) = k.index

put_lem : (c : Bool) (l : List ℕ) (w : Toy) → queue_of c (put_queue c l w) ≡ l
put_lem true l w = refl
put_lem false l w = refl

pop-none :
    (c : Bool) (w : Toy) (l : List ℕ) (j : ℕ)
    → (pop c w l).0 ≡ none
    → on_queue c j (pop c w l).1 ≡ on_queue c j w
pop-none c w [] j e = refl
pop-none c w (i ∷ rest) j e = absurd (ground (arith, e))

pop-some :
    (c : Bool) (w : Toy) (k : Completed) (l : List ℕ) (j : ℕ)
    → (pop c w l).0 ≡ some k
    → count_of j l ≡ bit (j == k.index) + on_queue c j (pop c w l).1
pop-some c w k [] j e = absurd (ground (arith, e))
pop-some c w k (i ∷ rest) j e =
    ap (λ n. bit (j == n) + count_of j rest) (ap index_of e)
    ∙ ap (λ l. bit (j == k.index) + count_of j l) (sym (put_lem c rest w))

toy_laws : QueueLaws toy on_queue
toy_laws = record {
  add_lem = λ c i p w w' e j.
      ap (λ o. on_queue c j (content w o)) (sym e)
      ∙ ap (count_of j) (put_lem c (i ∷ queue_of c w) w);
  kick_lem = λ c w j. refl;
  none_lem = λ c w e j. pop-none c w (queue_of c w) j e;
  get_lem = λ c w k e j. pop-some c w k (queue_of c w) j e;
  notify_lem = λ c n w j. refl;
}

sent_lem :
    (c : Bool) (j : ℕ) (w : Toy) (l : List ℕ) → on_queue c j (pop_sent w l).1 ≡ on_queue c j w
sent_lem c j w [] = refl
sent_lem c j w (m ∷ rest) = refl

toy-Quiet : (c : Bool) (j : ℕ) → Quiet toy (on_queue c j)
toy-Quiet c j = record {
  pool_alloc_lem = λ n w. refl;
  pool_free_lem = λ va w. refl;
  dma_alloc_lem = λ n w. refl;
  dma_free_lem = λ va w. refl;
  still = record {
    delay_lem = λ w. refl;
    control_add_lem = λ m w w' e. ap (λ o. on_queue c j (content w o)) (sym e);
    control_kick_lem = λ w. refl;
    control_get_lem = λ w. sent_lem c j w w.sent;
  };
}

sent_live : (w : Toy) (l : List ℕ) → (pop_sent w l).1.live ≡ w.live
sent_live w [] = refl
sent_live w (m ∷ rest) = refl

some_given : (n k : ℕ) → n + 1 ≡ n + given (suc k)
some_given n k = ground arith

toy-Counts : Counts toy (λ w. w.live)
toy-Counts = record {
  pool_alloc_lem = λ n w. refl;
  pool_free_lem = λ va w. refl;
  dma_alloc_lem = λ n w. some_given w.live w.last;
  dma_free_lem = λ va w. refl;
  still = record {
    delay_lem = λ w. refl;
    control_add_lem = λ m w w' e. ap (λ o. (content w o).live) (sym e);
    control_kick_lem = λ w. refl;
    control_get_lem = λ w. sent_live w w.sent;
  };
}

abbrev start : Toy
start = record { renders = []; captures = []; sent = []; last = 0; live = 0; sizes = λ va. 0 }

-- A prepared render stream of 2 periods and 2 packets, one of them ready
abbrev render_stream : AcxStream
render_stream = record {
  stream_id = 0;
  capture = false;
  prepared = true;
  running = false;
  packet_count = 2;
  packet_size = 2;
  packets_va = 100;
  packet_buffers_va = 101;
  packet_mdls_va = 102;
  packet_buffers = λ i. 200 + i;
  packet_mdls = λ i. 300 + i;
  packet_offsets = λ i. 0;
  contents = λ i. 7 ∷ 8 ∷ [];
  packet_alloc_bytes = 4096;
  first_packet_offset = 4094;
  periods_va = 103;
  periods = λ i. zero_period;
  period_count = 2;
  period_bytes = 2;
  buffer_bytes = 4;
  ready_queue_va = 104;
  ready_queue = λ i. 0;
  ready_capacity = 2;
  ready_head = 0;
  ready_tail = 1;
  ready_count = 1;
  render_pump_active = false;
  packets_completed = 0;
  next_capture_packet = 0;
  position_bytes = 0;
  last_latency_bytes = 0;
  xrun_count = 0;
}

abbrev all_queues : AcxQueues
all_queues = record { control_queue = true; event_queue = true; tx_queue = true; rx_queue = true }

render_stream-IsRing : IsRing render_stream
render_stream-IsRing = record {
  renders = refl;
  allocated = λ e. omega (arith, e);
  sized = omega arith;
  head_inside = omega arith;
  fits = omega arith;
  tail_behind = refl;
}

abbrev turns : List Turn
turns = queues 1 ∷ queues 2 ∷ takes ∷ takes ∷ takes ∷ clears ∷ []

run_ring-run_fifo_example :
    run_ring turns render_stream ≡ run_fifo 2 turns (ready_packets render_stream)
run_ring-run_fifo_example = run_ring-run_fifo turns render_stream render_stream-IsRing

pump_loop-ends_example :
    pump_loop toy 1 all_queues render_stream start ≡ pump_loop toy 9 all_queues render_stream start
pump_loop-ends_example =
    pump_loop-ends toy 1 9 all_queues render_stream start (omega arith) (omega arith)

abbrev toy_size : ℕ → Toy → ℕ
toy_size va w = if leb va w.last then w.sizes va else 0

toy_size-pool : (n va : ℕ) (w : Toy) → toy_size va w ≢ 0 → toy_size va (pool n w).1 ≡ toy_size va w
toy_size-pool n va w there = ground (arith, there)

toy_size-give : (va : ℕ) (w : Toy) → toy_size va w ≢ 0 → toy_size va (give w).1 ≡ toy_size va w
toy_size-give va w there = ground (arith, there)

toy_size-new : (n : ℕ) (w : Toy) → toy_size (suc w.last) (pool n w).1 ≡ n
toy_size-new n w = ground arith

abbrev toy_blocks : Blocks toy
toy_blocks = record {
  live = λ w. w.live;
  size_at = toy_size;
  pool_alloc_lem = λ n w. some_given w.live w.last;
  pool_free_lem = λ va w. refl;
  mdl_alloc_lem = λ va n w. some_given w.live w.last;
  mdl_free_lem = λ mdl w. refl;
  sized_lem = λ n w given. toy_size-new n w;
  pool_kept = toy_size-pool;
  mdl_kept = λ block n va w. toy_size-give va w;
}

-- The world in which the blocks of the render stream and three others are allocated.
abbrev crowded : Toy
crowded = record start { live = 3 + owned render_stream; last = 400 }

allocate_rt_packets-IsShared_example :
    let (status, t, w') = allocate_rt_packets toy 2 1000 render_stream crowded in
    (((status ≡ status_success) × IsShared 2 1000 (λ va. toy_size va w') t)
      ⊎ ((status ≡ status_insufficient_resources) × IsBare t)
      ⊎ ((status ≡ status_invalid_parameter) × (t ≡ render_stream) × (w' ≡ crowded)))
    × (w'.live ≡ 3 + owned t)
allocate_rt_packets-IsShared_example =
    allocate_rt_packets-IsShared toy toy_blocks 2 1000 3 render_stream crowded refl

abbrev message : Message
message = record {
  address = 5;
  request = pcm_header 0 0;
  request_va = 6;
  response_va = 7;
  response_length = 4;
}

acx_poll_control-ends_example :
    (acx_poll_control toy (acx_poll_rounds toy) 0 message start).0 ≢ none
acx_poll_control-ends_example = acx_poll_control-ends toy message start

acx_control_command_lem_example :
    let ((status, response), w') =
      acx_control_command toy all_queues (pcm_header 0x104 0) 4 start in
    (w'.live ≡ start.live)
    × (((status ≡ status_success) × (response ≢ none))
        ⊎ ((nt_success status ≡ false) × (response ≡ none)))
acx_control_command_lem_example =
    acx_control_command_lem toy (λ w. w.live) toy-Counts all_queues (pcm_header 0x104 0) 4 start

abbrev levels : ℕ → ℤ
levels i = pos 0

volume_retrieve_level-assign_example :
    let (status, after) = volume_assign_level 1 (negsuc 65535) levels in
    ((status ≡ status_success)
      × (volume_retrieve_level 1 after ≡ (status_success, some (negsuc 65535)))
      × (after 0
          ≡ (if ltb 0 2 && (1 == all_channels_id || 0 == 1) then negsuc 65535 else levels 0)))
    ⊎ ((status ≡ status_invalid_parameter) × (after ≡ levels))
volume_retrieve_level-assign_example = volume_retrieve_level-assign 1 0 (negsuc 65535) levels

and_false : (b : Bool) → 0 ≡ bit (b && false)
and_false true = refl
and_false false = refl

render_stream-IsTracked : IsTracked toy on_queue false render_stream start
render_stream-IsTracked = record { direction = refl; held = λ j. and_false (ltb j 2) }

abbrev calls : List Call
calls = sets 1 ∷ starts ∷ interrupts ∷ stops true ∷ []

answer_all-IsTracked_example :
    let (s', w') = answer_all toy calls all_queues render_stream start in
    IsTracked toy on_queue false s' w'
answer_all-IsTracked_example =
    answer_all-IsTracked toy on_queue toy_laws toy-Quiet calls false all_queues render_stream start
      render_stream-IsTracked

abbrev toy_bus : AcxBus toy
toy_bus = record {
  initialize = λ w. (status_success, w);
  device_features = λ w. (4294967296, w);
  set_driver_features = λ f w. (status_success, w);
  init_queues = λ w. ((status_success, all_queues), w);
  get_streams = λ w. (2, w);
  set_driver_ok = λ w. w;
  set_driver_failed = λ w. w;
  destroy_queues = λ w. w;
  shutdown = λ w. w;
  isr_status = λ w. (1, w);
  queue_dpc = λ w. w;
  add_circuit = λ c w. (status_success, w);
  remove_circuit = λ c w. (status_success, w);
}

abbrev new_device : AcxDevice
new_device = record {
  queues = no_queues;
  streams = record { render_stream = none; capture_stream = none };
  pair = no_pair;
  config_streams = 0;
  event_pool_va = 0;
  event_buffer_count = 0;
  render_circuit = true;
  capture_circuit = true;
  render_circuit_added = false;
  capture_circuit_added = false;
  virtio_ready = false;
  queues_ready = false;
}

new_device-IsUp : IsUp toy toy_bus new_device
new_device-IsUp = record {
  serves = λ e. e;
  pointers = λ e. inl refl;
  pool = λ e. refl;
  counted = λ e. refl;
}

abbrev powers : List Power
powers = prepares ∷ sleeps ∷ wakes ∷ releases ∷ []

power_all-IsUp_example : IsUp toy toy_bus (power_all toy toy_bus powers new_device start).0
power_all-IsUp_example = power_all-IsUp toy toy_bus powers new_device start new_device-IsUp

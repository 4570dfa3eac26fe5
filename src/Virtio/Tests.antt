-- ===== src/Virtio/Tests.antt =====
-- A host whose queues are lists, and the theorems of the device side at concrete inputs.
use viosnd.Base.{
  ℕ, suc, ◌+◌, ◌-◌, ◌≡◌, refl, sym, ap, inr, true, false, List, [], ◌∷◌, Option, none, some, length,
  arith,
}
use viosnd.Status.{nt_success, status_success}
use viosnd.Protocol.{PcmInfo, s_ok, r_pcm_start}
use viosnd.Virtio.Host.{Host, PcmIo, Used, ControlMessage, EventBuffer, pcm_header}
use viosnd.Virtio.Device.{Device, DmaBlock, Bar}
use viosnd.Virtio.Dma.{allocate_dma_buffer, free_dma_buffer, get_dma_address}
use viosnd.Virtio.Dma.Ranges.{AreDisjoint, allocate-free}
use viosnd.Virtio.Control.{poll_control, poll_fuel, control_command}
use viosnd.Virtio.Control.Poll.{ControlLaws, is_starved, poll_control-ends}
use viosnd.Virtio.Control.Mutex.{IsConsistent, control_command_lem}
use viosnd.Virtio.Pcm.{control_status_command_ex, query_pcm_streams}
use viosnd.Virtio.Pcm.Retry.{IsQueried, query_pcm_streams-IsQueried}
use viosnd.WaveRt.Render.Conservation.{TxLaws}
use viosnd.WaveRt.Render.Cancel.{DetachLaws}
use viosnd.WaveRt.Capture.Drain.{RxLaws}

-- The queues, the newest entry first, and the next free address.
pub record Lists : Type 0 where
  pub control : List ControlMessage
  pub tx : List PcmIo
  pub rx : List PcmIo
  pub events : List ℕ
  pub next : ℕ

abbrev used_of : PcmIo → Used
used_of io = record { io = io; used_length = 8; status = s_ok; latency_bytes = 0; audio = [] }

abbrev pop_control : Lists → List ControlMessage → Option ControlMessage × Lists
pop_control w [] = (none, w)
pop_control w (m ∷ rest) = (some m, record w { control = rest })

abbrev pop_tx : Lists → List PcmIo → Option Used × Lists
pop_tx w [] = (none, w)
pop_tx w (io ∷ rest) = (some (used_of io), record w { tx = rest })

abbrev detach_tx : Lists → List PcmIo → Option PcmIo × Lists
detach_tx w [] = (none, w)
detach_tx w (io ∷ rest) = (some io, record w { tx = rest })

abbrev pop_rx : Lists → List PcmIo → Option Used × Lists
pop_rx w [] = (none, w)
pop_rx w (io ∷ rest) = (some (used_of io), record w { rx = rest })

abbrev detach_rx : Lists → List PcmIo → Option PcmIo × Lists
detach_rx w [] = (none, w)
detach_rx w (io ∷ rest) = (some io, record w { rx = rest })

-- The event queue holds one less than each buffer's address, which is not NULL.
abbrev pub pop_event : Lists → List ℕ → Option EventBuffer × Lists
pop_event w [] = (none, w)
pop_event w (n ∷ rest) =
    (some (record { event_va = suc n; event_pa = 0 }), record w { events = rest })

abbrev count_messages : List ControlMessage → ℕ
count_messages [] = 0
count_messages (m ∷ rest) = suc (count_messages rest)

-- A device that completes each buffer at once and answers each command with OK.
abbrev pub lists_host : Host
lists_host = record {
  World = Lists;
  pool_alloc = λ size w. (some w.next, record w { next = w.next + size + 1 });
  pool_free = λ address w. w;
  common_alloc = λ size w. (some (w.next, w.next + 4096), record w { next = w.next + size + 1 });
  common_free = λ size pa va w. w;
  delay_us = λ us w. w;
  control_add = λ m w. some (record w { control = m ∷ w.control });
  control_kick = λ w. w;
  control_get = λ w. pop_control w w.control;
  control_queued = λ w. count_messages w.control;
  response_at = λ m w. record { code = s_ok; infos = [] };
  wait_tx = λ w. (status_success, w);
  tx_add = λ io l w. some (record w { tx = io ∷ w.tx });
  tx_kick = λ w. w;
  tx_get = λ w. pop_tx w w.tx;
  tx_queued = λ w. length w.tx;
  tx_detach = λ w. detach_tx w w.tx;
  rx_add = λ io l w. some (record w { rx = io ∷ w.rx });
  rx_kick = λ w. w;
  rx_get = λ w. pop_rx w w.rx;
  rx_queued = λ w. length w.rx;
  rx_detach = λ w. detach_rx w w.rx;
  mdl_alloc = λ size w. (some 77, w);
  mdl_map = λ mdl w. (some 20000, w);
  mdl_free = λ mdl w. w;
  event_add = λ b w. some (record w { events = (b.event_va - 1) ∷ w.events });
  event_kick = λ w. w;
  event_get = λ w. pop_event w w.events;
  event_queued = λ w. length w.events;
}

lists_control-got :
    (w : Lists) (l : List ControlMessage) (m : ControlMessage)
    → (pop_control w l).0 ≡ some m
    → count_messages l ≡ suc (count_messages (pop_control w l).1.control)
lists_control-got w [] m e = absurd (ground arith)
lists_control-got w (x ∷ rest) m e = refl

lists_tx-got :
    (w : Lists) (l : List PcmIo) (u : Used)
    → (pop_tx w l).0 ≡ some u
    → length l ≡ suc (length (pop_tx w l).1.tx)
lists_tx-got w [] u e = absurd (ground arith)
lists_tx-got w (x ∷ rest) u e = refl

lists_control-empty :
    (w : Lists) (l : List ControlMessage)
    → (pop_control w l).0 ≡ none
    → w.control ≡ l
    → count_messages (pop_control w l).1.control ≡ count_messages l
lists_control-empty w [] e same = rw same refl
lists_control-empty w (x ∷ rest) e same = absurd (ground arith)

lists_tx-empty :
    (w : Lists) (l : List PcmIo)
    → (pop_tx w l).0 ≡ none
    → w.tx ≡ l
    → length (pop_tx w l).1.tx ≡ length l
lists_tx-empty w [] e same = rw same refl
lists_tx-empty w (x ∷ rest) e same = absurd (ground arith)

abbrev tx_length : Option Lists → ℕ
tx_length none = 0
tx_length (some w) = length w.tx

pub lists_control : ControlLaws lists_host
lists_control = record {
  got = λ w m e. lists_control-got w w.control m e;
  empty = λ w e. lists_control-empty w w.control e refl;
  kick = λ w. refl;
  delay = λ us w. refl;
  unpool = λ a w. refl;
  uncommon = λ size pa va w. refl;
}

pub lists_tx : TxLaws lists_host
lists_tx = record {
  add = λ io l w w' e. sym (ap tx_length e);
  got = λ w u e. lists_tx-got w w.tx u e;
  empty = λ w e. lists_tx-empty w w.tx e refl;
  kick = λ w. refl;
  wait = λ w. refl;
}

lists_detach-some :
    (w : Lists) (l : List PcmIo) (io : PcmIo)
    → (detach_tx w l).0 ≡ some io
    → length l ≡ suc (length (detach_tx w l).1.tx)
lists_detach-some w [] io e = absurd (ground arith)
lists_detach-some w (x ∷ rest) io e = refl

lists_detach-none :
    (w : Lists) (l : List PcmIo)
    → (detach_tx w l).0 ≡ none
    → w.tx ≡ l
    → length (detach_tx w l).1.tx ≡ length l
lists_detach-none w [] e same = rw same refl
lists_detach-none w (x ∷ rest) e same = absurd (ground arith)

pub lists_detach : DetachLaws lists_host
lists_detach = record {
  detached = λ w io e. lists_detach-some w w.tx io e;
  undetached = λ w e. lists_detach-none w w.tx e refl;
}

lists_rx-got :
    (w : Lists) (l : List PcmIo) (u : Used)
    → (pop_rx w l).0 ≡ some u
    → length l ≡ suc (length (pop_rx w l).1.rx)
lists_rx-got w [] u e = absurd (ground arith)
lists_rx-got w (x ∷ rest) u e = refl

pub lists_rx : RxLaws lists_host
lists_rx = record {
  got = λ w u e. lists_rx-got w w.rx u e;
  unpool = λ a w. refl;
  uncommon = λ size pa va w. refl;
}

abbrev pub no_lists : Lists
no_lists = record { control = []; tx = []; rx = []; events = []; next = 4096 }

abbrev pub no_bar : Bar
no_bar = record { present = false; port_space = false; base_pa = 0; length = 0; base_va = 0 }

abbrev pub ready_device : Device
ready_device = record {
  dma_adapter = true;
  dma_blocks = [];
  control_queue = true;
  tx_queue = true;
  rx_queue = true;
  control_mutex = 0;
  tx_mutex = 0;
  rx_mutex = 0;
  config_streams = 2;
  event_queue = true;
  event_mutex = 0;
  event_buffers = [];
  event_buffer_count = 0;
  capture_faulted = false;
  physical_device = true;
  pci_bus = true;
  bars = λ i. no_bar;
  virtio_initialized = true;
}

abbrev two_blocks : List DmaBlock
two_blocks =
    record { address = 1; va = 8192; logical_address = 65536; size = 4096 }
    ∷ record { address = 2; va = 4096; logical_address = 131072; size = 4096 }
    ∷ []

abbrev old_block : DmaBlock
old_block = record { address = 2; va = 4096; logical_address = 131072; size = 4096 }

two_blocks-AreDisjoint : AreDisjoint two_blocks
two_blocks-AreDisjoint =
    (omega arith, omega arith, (inr (omega arith), tt), (omega arith, omega arith, tt, tt))

fresh_buffer : (allocate_dma_buffer lists_host 100 ready_device no_lists).0 ≡ some (4129, 8225)
unfolding allocate_dma_buffer
fresh_buffer = refl

allocate-free_example :
    let d' = (allocate_dma_buffer lists_host 100 ready_device no_lists).1 in
    ((free_dma_buffer lists_host 4129 d' no_lists).1 ≡ ready_device)
    × (get_dma_address lists_host (4129 + 99) d' ≡ 8225 + 99)
allocate-free_example =
    allocate-free lists_host 100 4129 8225 99 ready_device no_lists no_lists fresh_buffer
      (λ e. absurd (omega arith)) (omega arith)

abbrev message : ℕ → ControlMessage
message address = record {
  address = address;
  request = pcm_header r_pcm_start 0;
  request_va = 0;
  request_pa = 0;
  request_length = 8;
  response_va = 0;
  response_pa = 0;
  response_length = 4;
}

-- A queue that holds a message of an earlier command.
abbrev stale_lists : Lists
stale_lists = record {
  control = message 7 ∷ message 8 ∷ [];
  tx = [];
  rx = [];
  events = [];
  next = 4096;
}

poll_control-ends_example :
    is_starved
      (poll_control lists_host
        (poll_fuel lists_host stale_lists)
        (message 8)
        0
        ready_device
        stale_lists).0
    ≡ false
poll_control-ends_example =
    poll_control-ends lists_host lists_control (message 8) ready_device stale_lists

control_command_lem_example :
    let ((status, response), d', w') =
      control_command lists_host (pcm_header r_pcm_start 0) 4 ready_device no_lists in
    (d'.control_mutex ≡ 0) × IsConsistent status response
control_command_lem_example =
    control_command_lem lists_host (pcm_header r_pcm_start 0) 4 ready_device no_lists

accepted_start :
    nt_success
      (control_status_command_ex lists_host (pcm_header r_pcm_start 0) ready_device no_lists).0.0
    ≡ true
unfolding control_status_command_ex control_command poll_control free_dma_buffer allocate_dma_buffer
accepted_start = refl

abbrev stream_info : ℕ → PcmInfo
stream_info direction = record {
  features = 0;
  formats = 32;
  rates = 128;
  direction = direction;
  channels_min = 1;
  channels_max = 2;
}

-- A host whose device has an output and an input stream.
abbrev two_streams : Host
two_streams = record lists_host {
  response_at = λ m w. record { code = s_ok; infos = stream_info 0 ∷ stream_info 1 ∷ [] };
}

query_pcm_streams-IsQueried_example :
    IsQueried two_streams 2 7 ready_device
      (two_streams.pool_alloc 68 no_lists).1
      (query_pcm_streams two_streams ready_device no_lists).0
query_pcm_streams-IsQueried_example =
    query_pcm_streams-IsQueried two_streams no_lists.next ready_device no_lists (omega arith) refl

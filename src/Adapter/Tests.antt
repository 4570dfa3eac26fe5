-- ===== src/Adapter/Tests.antt =====
-- The start of the device at a host that counts its common buffers and whose control queue is full.
use viosnd.Base.{ℕ, suc, ◌+◌, ◌-◌, ◌≡◌, refl, true, false, [], ◌∷◌, some, none, arith}
use viosnd.Status.{status_success, status_not_supported}
use viosnd.Virtio.Host.{Host}
use viosnd.Virtio.Bus.{Bus, Resources}
use viosnd.Virtio.Dma.Counted.{CommonLaws}
use viosnd.Virtio.Control.Counted.{QuietLaws}
use viosnd.Virtio.Setup.Counted.{BusLaws}
use viosnd.Adapter.{PortCls, RegistryValue, start_device}
use viosnd.Adapter.Start.{PortLaws, IsStarted, start_device-IsStarted}

abbrev counting_host : Host
counting_host = record {
  World = ℕ;
  pool_alloc = λ size w. (some 64, w);
  pool_free = λ address w. w;
  common_alloc = λ size w. (some (w + 4096, 8192), w + 1);
  common_free = λ size pa va w. w - 1;
  delay_us = λ us w. w;
  control_add = λ m w. none;
  control_kick = λ w. w;
  control_get = λ w. (none, w);
  control_queued = λ w. 0;
  response_at = λ m w. record { code = 0; infos = [] };
  wait_tx = λ w. (status_success, w);
  tx_add = λ io l w. none;
  tx_kick = λ w. w;
  tx_get = λ w. (none, w);
  tx_queued = λ w. 0;
  tx_detach = λ w. (none, w);
  rx_add = λ io l w. none;
  rx_kick = λ w. w;
  rx_get = λ w. (none, w);
  rx_queued = λ w. 0;
  rx_detach = λ w. (none, w);
  mdl_alloc = λ size w. (none, w);
  mdl_map = λ mdl w. (none, w);
  mdl_free = λ mdl w. w;
  event_add = λ b w. none;
  event_kick = λ w. w;
  event_get = λ w. (none, w);
  event_queued = λ w. 0;
}

abbrev small_bus : Bus ℕ
small_bus = record {
  device_size = 2048;
  irp_alloc = λ w. (true, w);
  irp_free = λ w. w;
  call_driver = λ w. (status_success, w);
  wait_irp = λ w. (status_not_supported, w);
  read_config = λ offset size w. size;
  header_size = 64;
  get_dma_adapter = λ w. (true, w);
  put_dma_adapter = λ w. w;
  bus_dereference = λ w. w;
  object_reference = λ w. w;
  object_dereference = λ w. w;
  bar_index = λ start. some 4;
  map_io = λ pa n w. (some (pa + 1), w);
  unmap_io = λ va n w. w;
  virtio_initialize = λ w. (status_success, w);
  virtio_reset = λ w. w;
  virtio_add_status = λ n w. w;
  virtio_features = λ w. 4294967296;
  virtio_set_features = λ n w. (status_success, w);
  queue_sizes = λ w. 8192 ∷ 8192 ∷ [];
  virtio_find_queues = λ l w. (status_success, w);
  virtio_ready = λ w. w;
  virtio_streams = λ w. 2;
  queue_buffers = λ w. 4096 ∷ 4097 ∷ [];
  virtio_delete_queues = λ w. w;
  virtio_shutdown = λ w. w;
}

abbrev ports : PortCls ℕ
ports = record {
  new_port = λ k w. (status_success, 7, w);
  init_port = λ p m w. (status_success, w);
  register = λ k c p w. (status_success, w);
  connect = λ p a q b w. (status_success, w);
  release = λ p w. w;
  miniport_size = λ k. 64;
  physical_device = λ w. (status_success, w);
}

abbrev live : ℕ → ℕ
live w = w

one_more : (w : ℕ) → w + 1 ≡ suc w
one_more w = omega arith

one_less : (n w : ℕ) → w ≡ suc n → w - 1 ≡ n
one_less n w e = omega arith

counted_laws : CommonLaws counting_host live
counted_laws = record {
  got = λ size w b e. one_more w;
  refused = λ size w e. cc;
  freed = λ size pa va n w e. one_less n w e;
  pool = λ size w. refl;
  unpool = λ a w. refl;
}

quiet_laws : QuietLaws counting_host live
quiet_laws = record {
  delay = λ us w. refl;
  add = λ m w w' e. cc;
  kick = λ w. refl;
  get = λ w. refl;
}

bus_laws : BusLaws counting_host small_bus live
bus_laws = record {
  irp = λ w. refl;
  irp_done = λ w. refl;
  called = λ w. refl;
  waited = λ w. refl;
  adapter = λ w. refl;
  no_adapter = λ w. refl;
  bus_gone = λ w. refl;
  referenced = λ w. refl;
  dereferenced = λ w. refl;
  unmapped = λ va n w. refl;
  begun = λ w. refl;
  reset = λ w. refl;
  status = λ n w. refl;
  agreed = λ n w. refl;
  found = λ l w. refl;
  ready = λ w. refl;
  deleted = λ w. refl;
  shut = λ w. refl;
}

port_laws : PortLaws counting_host ports live
port_laws = record {
  port = λ k w. refl;
  begun = λ p m w. refl;
  registered = λ k c p w. refl;
  connected = λ p a q b w. refl;
  released = λ p w. refl;
  physical = λ w. refl;
}

abbrev no_value : RegistryValue
no_value = record {
  opened = status_not_supported;
  queried = status_success;
  value_type = 0;
  data_length = 0;
  value = 0;
}

abbrev one_bar : Resources
one_bar = record { memory = some (record { start = 1000; length = 16384 }) ∷ []; ports = none ∷ [] }

start_device-IsStarted_example :
    let (status, made, w') = start_device counting_host small_bus ports no_value false one_bar 0 in
    IsStarted live status made w'
start_device-IsStarted_example =
    start_device-IsStarted counting_host small_bus ports live counted_laws quiet_laws bus_laws
      port_laws no_value false one_bar 0 refl

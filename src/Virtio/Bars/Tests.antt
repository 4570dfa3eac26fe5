-- ===== src/Virtio/Bars/Tests.antt =====
-- The mapping of a bar at a concrete bus.
use viosnd.Base.{ℕ, ◌+◌, ◌≡◌, ◌≢◌, refl, true, false, [], some, arith, if◌then◌else◌, ◌==◌}
use viosnd.Base.Int.{pos}
use viosnd.Status.{status_success}
use viosnd.Virtio.Device.{Device, Bar}
use viosnd.Virtio.Bus.{Bus}
use viosnd.Virtio.Bars.{present_bar, map_in_bar, map_address_range}
use viosnd.Virtio.Bars.Mapping.{IsMapped, map_address_range_lem}
use viosnd.Virtio.Tests.{ready_device, no_bar}

abbrev memory_bus : Bus ℕ
memory_bus = record {
  device_size = 2048;
  irp_alloc = λ w. (true, w);
  irp_free = λ w. w;
  call_driver = λ w. (status_success, w);
  wait_irp = λ w. (status_success, w);
  read_config = λ offset size w. size;
  header_size = 64;
  get_dma_adapter = λ w. (true, w);
  put_dma_adapter = λ w. w;
  bus_dereference = λ w. w;
  object_reference = λ w. w;
  object_dereference = λ w. w;
  bar_index = λ start. some 4;
  map_io = λ pa n w. (some (pa + 65536), w + 1);
  unmap_io = λ va n w. w;
  virtio_initialize = λ w. (status_success, w);
  virtio_reset = λ w. w;
  virtio_add_status = λ n w. w;
  virtio_features = λ w. 0;
  virtio_set_features = λ n w. (status_success, w);
  queue_sizes = λ w. [];
  virtio_find_queues = λ l w. (status_success, w);
  virtio_ready = λ w. w;
  virtio_streams = λ w. 0;
  queue_buffers = λ w. [];
  virtio_delete_queues = λ w. w;
  virtio_shutdown = λ w. w;
}

abbrev memory_bar : Bar
memory_bar = record {
  present = true;
  port_space = false;
  base_pa = 1000;
  length = 4096;
  base_va = 0;
}

abbrev one_bar : Device
one_bar = record ready_device { bars = λ i. if i == 4 then memory_bar else no_bar }

some_cong : (a b : ℕ) → some a ≡ some b → a ≡ b
some_cong a b e = cc

not_null : (pa n va w : ℕ) → (memory_bus.map_io pa n w).0 ≡ some va → va ≢ 0
not_null pa n va w e z = absurd (omega (arith, some_cong (pa + 65536) va e))

fourth : present_bar (pos 4) one_bar ≡ some 4
unfolding present_bar
fourth = refl

mapped : (map_address_range memory_bus (pos 4) 16 one_bar 0).0 ≡ some 66552
unfolding map_address_range present_bar map_in_bar
mapped = refl

map_address_range_lem_example :
    IsMapped memory_bus
      (pos 4)
      4
      16
      32
      66552
      one_bar
      (map_address_range memory_bus (pos 4) 16 one_bar 0).1
map_address_range_lem_example =
    map_address_range_lem memory_bus (pos 4) 4 16 32 66552 one_bar 0 not_null fourth mapped
      (omega arith)

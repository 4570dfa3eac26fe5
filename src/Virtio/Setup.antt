-- ===== src/Virtio/Setup.antt =====
-- The bring-up and the removal of the device in viosnd/sys/ViosndVirtio.cpp.
pub mod Counted
use viosnd.Base.{
  ℕ, zero, suc, ◌+◌, ◌/◌, ◌%◌, ◌*◌, ◌^◌, Bool, true, false, not, List, [], ◌∷◌, Option, none, some,
  ◌==◌, if◌then◌else◌,
}
use viosnd.Base.Int.{ℤ, pos, negsuc}
use viosnd.Status.{
  NtStatus, nt_success, status_success, status_pending, status_insufficient_resources,
  status_device_configuration_error, status_no_such_device,
}
use viosnd.Virtio.Host.{Host, EventBuffer}
use viosnd.Virtio.Device.{Device, Bar, DmaBlock, M}
use viosnd.Virtio.Bus.{Bus, Resources}
use viosnd.Virtio.Bars.{max_bars, map_bars}
use viosnd.Virtio.Dma.{allocate_dma_buffer, free_dma_buffer, release_block}

abbrev pub no_bar : Bar
no_bar = record { present = false; port_space = false; base_pa = 0; length = 0; base_va = 0 }

-- The structure after RtlZeroMemory and the initialization of its mutexes. ViosndCaptureFaulted is
-- not a part of it, and keeps its value.
unfoldable pub zero_device : Bool → Bool → Device
zero_device physical faulted = record {
  dma_adapter = false;
  dma_blocks = [];
  control_queue = false;
  tx_queue = false;
  rx_queue = false;
  control_mutex = 0;
  tx_mutex = 0;
  rx_mutex = 0;
  config_streams = 0;
  event_queue = false;
  event_mutex = 0;
  event_buffers = [];
  event_buffer_count = 0;
  capture_faulted = faulted;
  physical_device = physical;
  pci_bus = false;
  bars = λ i. no_bar;
  virtio_initialized = false;
}

abbrev pub is_zero : ℤ → Bool
is_zero (pos n) = n == 0
is_zero (negsuc n) = false

-- VIRTIO_F_VERSION_1, as a bit of the features
abbrev pub version_1 : ℕ
version_1 = 2 ^ 32

abbrev pub common_features : ℕ → ℕ
common_features features = features / version_1 % 2 * version_1

module _ (h : Host) (bus : Bus h.World) where
  open h use {World, pool_alloc, pool_free}
  open bus use {
    device_size, irp_alloc, irp_free, call_driver, wait_irp, read_config, header_size,
    get_dma_adapter, put_dma_adapter, bus_dereference, object_reference, object_dereference,
    unmap_io, virtio_initialize, virtio_reset, virtio_add_status, virtio_features,
    virtio_set_features, virtio_find_queues, queue_sizes, queue_buffers, virtio_ready,
    virtio_streams, virtio_delete_queues, virtio_shutdown,
  }

  -- ViosndSendSynchronousPnp
  unfoldable pub send_synchronous_pnp : World → NtStatus × World
  send_synchronous_pnp w =
      let (status, w1) = call_driver w in
      if status == status_pending then wait_irp w1 else (status, w1)

  -- ViosndQueryPciBusInterface
  unfoldable pub query_pci_bus_interface : M World NtStatus
  query_pci_bus_interface d w =
      let (irp, w1) = irp_alloc w in
      let (status, w2) = send_synchronous_pnp w1 in
      if not d.physical_device
      then (status_no_such_device, d, w)
      else if not irp
      then (status_insufficient_resources, d, w1)
      else (status, (if nt_success status then record d { pci_bus = true } else d), irp_free w2)

  -- ViosndReadPciConfig: 0, or -1
  unfoldable pub read_pci_config : ℕ → ℕ → Device → World → ℤ
  read_pci_config offset size d w =
      if not d.pci_bus
      then negsuc 0
      else if read_config offset size w == size
      then pos 0
      else negsuc 0

  -- ViosndReadPciHeader
  unfoldable pub read_pci_header : M World NtStatus
  read_pci_header d w = (
    (if is_zero (read_pci_config 0 header_size d w)
        then status_success
        else status_device_configuration_error),
    d,
    w,
  )

  -- ViosndInitializeDmaAdapter
  unfoldable pub initialize_dma_adapter : M World NtStatus
  initialize_dma_adapter d w =
      let (got, w') = get_dma_adapter w in
      if not d.physical_device
      then (status_no_such_device, d, w)
      else if got
      then (status_success, record d { dma_adapter = true }, w')
      else (status_insufficient_resources, record d { dma_adapter = false }, w')

  -- The loop over EventBuffers that frees them.
  unfoldable pub free_events : List EventBuffer → M World (Unit {0})
  free_events [] d w = (tt, d, w)
  free_events (b ∷ rest) d w =
      let (_, d', w') = free_dma_buffer h b.event_va d w in free_events rest d' w'

  -- The loop over Bars of ViosndDestroyDevice, with the bars from `i` on and `n` of them left.
  unfoldable pub unmap_bars : ℕ → ℕ → (ℕ → Bar) → World → World
  unmap_bars zero i bars w = w
  unmap_bars (suc n) i bars w =
      let bar = bars i in
      unmap_bars n (i + 1) bars (if bar.base_va == 0 then w else unmap_io bar.base_va bar.length w)

  -- The loop over DmaBlocks of ViosndDestroyDevice.
  unfoldable pub free_blocks : List DmaBlock → Bool → World → World
  free_blocks [] adapter w = w
  free_blocks (b ∷ rest) adapter w = free_blocks rest adapter (release_block h (some b) adapter w)

  -- ViosndAllocContiguous and ViosndFreeContiguous, as the virtio library calls them for its queues
  unfoldable pub alloc_contiguous : ℕ → M World (Option (ℕ × ℕ))
  alloc_contiguous size d w = allocate_dma_buffer h size d w

  unfoldable pub free_contiguous : ℕ → M World (Unit {0})
  free_contiguous va d w = free_dma_buffer h va d w

  unfoldable pub alloc_queues : List ℕ → M World (List (Option (ℕ × ℕ)))
  alloc_queues [] d w = ([], d, w)
  alloc_queues (size ∷ rest) d w =
      let (buffer, d1, w1) = alloc_contiguous size d w in
      let (buffers, d2, w2) = alloc_queues rest d1 w1 in (buffer ∷ buffers, d2, w2)

  unfoldable pub free_queues : List ℕ → M World (Unit {0})
  free_queues [] d w = (tt, d, w)
  free_queues (va ∷ rest) d w = let (_, d', w') = free_contiguous va d w in free_queues rest d' w'

  -- The calls that give the virtio device back: a reset, virtio_delete_queues, virtio_device_shutdown
  unfoldable pub quit_virtio : M World (Unit {0})
  quit_virtio d w =
      let w1 = virtio_reset w in
      let (_, d2, w2) = free_queues (queue_buffers w1) d w1 in
      (tt, d2, virtio_shutdown (virtio_delete_queues w2))

  -- ViosndDestroyDevice of the structure at `address`; nothing of the device is left.
  unfoldable pub destroy_device : ℕ → Device → World → World
  destroy_device address d w =
      let (_, d0, w0) = if d.virtio_initialized then quit_virtio d w else (tt, d, w) in
      let (_, d1, w1) = free_events d.event_buffers d0 w0 in
      let w2 = unmap_bars max_bars 0 d1.bars w1 in
      let w3 = free_blocks d1.dma_blocks d1.dma_adapter w2 in
      let w4 = if d1.dma_adapter then put_dma_adapter w3 else w3 in
      let w5 = if d1.pci_bus then bus_dereference w4 else w4 in
      let w6 = if d1.physical_device then object_dereference w5 else w5 in pool_free address w6

  -- The steps of ViosndCreateDevice on the structure, up to the first that fails.
  unfoldable pub prepare_device : Resources → M World NtStatus
  prepare_device r d w =
      let (queried, d1, w1) = query_pci_bus_interface d w in
      let (header, d2, w2) = read_pci_header d1 w1 in
      let (adapter, d3, w3) = initialize_dma_adapter d2 w2 in
      if not (nt_success queried)
      then (queried, d1, w1)
      else if not (nt_success header)
      then (header, d2, w2)
      else if not (nt_success adapter)
      then (adapter, d3, w3)
      else (status_success, map_bars bus r d3, w3)

  -- ViosndCreateDevice, for the structure at `address`
  unfoldable pub create_at :
      ℕ → Bool → Bool → Resources → World → NtStatus × Option (ℕ × Device) × World
  create_at address physical faulted r w =
      let w0 = if physical then object_reference w else w in
      let (status, d, w1) = prepare_device r (zero_device physical faulted) w0 in
      if nt_success status
      then (status, some (address, d), w1)
      else (status, none, destroy_device address d w1)

  -- ViosndCreateDevice: the address of the structure and the structure. `physical` is whether
  -- PhysicalDeviceObject is not NULL.
  unfoldable pub create_device :
      Bool → Bool → Resources → World → NtStatus × Option (ℕ × Device) × World
  create_device physical faulted r w =
      let (block, w') = pool_alloc device_size w in
      elim block [
        | none ↦ (status_insufficient_resources, none, w')
        | some address ↦ create_at address physical faulted r w'
      ]

  -- ViosndInitVirtio from the negotiation on, without its clean-up
  unfoldable pub negotiate : M World NtStatus
  negotiate d w =
      let w1 = virtio_add_status 2 (virtio_add_status 1 (virtio_reset w)) in
      let (agreed, w2) = virtio_set_features (common_features (virtio_features w1)) w1 in
      let (buffers, d3, w3) = alloc_queues (queue_sizes w2) d w2 in
      let (found, w4) = virtio_find_queues buffers w3 in
      let w5 = virtio_ready w4 in
      if not (nt_success agreed)
      then (agreed, d, w2)
      else if not (nt_success found)
      then (found, d3, w4)
      else (
        status_success,
        record d3 {
          control_queue = true;
          event_queue = true;
          tx_queue = true;
          rx_queue = true;
          virtio_initialized = true;
          config_streams = virtio_streams w5;
        },
        w5,
      )

  -- The label Fail of ViosndInitVirtio
  unfoldable pub fail_virtio : Device → World → Device × World
  fail_virtio d w =
      let (_, d1, w1) = free_events d.event_buffers d w in
      let (_, d2, w2) = quit_virtio d1 w1 in
      (record d2 { event_buffers = []; event_buffer_count = 0 }, w2)

  -- ViosndInitVirtio, which ViosndInitializeDevice calls and logs
  unfoldable pub init_virtio : M World NtStatus
  init_virtio d w =
      let (begun, w1) = virtio_initialize w in
      let (status, d2, w2) = negotiate d w1 in
      if not (nt_success begun)
      then (begun, d, w1)
      else if nt_success status
      then (status, d2, w2)
      else let (d3, w3) = fail_virtio d2 w2 in (status, d3, w3)

-- ===== src/Virtio/Bus.antt =====
-- What the bring-up of viosnd/sys/ViosndVirtio.cpp and of viosnd/sys/Adapter.cpp calls and this driver
-- does not implement: the PnP manager, the PCI bus, the I/O space, and the virtio device of VirtIO/.
use viosnd.Base.{ℕ, Bool, List, Option}
use viosnd.Status.{NtStatus}

-- CM_PARTIAL_RESOURCE_DESCRIPTOR, of a memory or a port range
pub record Range : Type 0 where
  pub start : ℕ
  pub length : ℕ

-- PRESOURCELIST: the translated entries of the two types in order; none is a NULL descriptor.
pub record Resources : Type 0 where
  pub memory : List (Option Range)
  pub ports : List (Option Range)

pub record Bus (W : Type 0) : Type 0 where
  pub device_size : ℕ  -- sizeof(VIOSND_DEVICE)
  pub irp_alloc : W → Bool × W  -- IoAllocateIrp: whether there is one
  pub irp_free : W → W
  pub call_driver : W → NtStatus × W  -- IoCallDriver with the query for the bus interface
  pub wait_irp : W → NtStatus × W  -- the wait for it, and its IoStatus.Status
  pub read_config : ℕ → ℕ → W → ℕ  -- GetBusData, by offset and length: the bytes read
  pub header_size : ℕ  -- sizeof(PCI_COMMON_HEADER)
  pub get_dma_adapter : W → Bool × W  -- IoGetDmaAdapter: whether it is not NULL
  pub put_dma_adapter : W → W
  pub bus_dereference : W → W  -- PciBus.InterfaceDereference
  pub object_reference : W → W  -- on PhysicalDeviceObject
  pub object_dereference : W → W
  pub bar_index : ℕ → Option ℕ  -- virtio_get_bar_index, by address; none if negative
  pub map_io : ℕ → ℕ → W → Option ℕ × W  -- MmMapIoSpaceEx, by address and length
  pub unmap_io : ℕ → ℕ → W → W  -- MmUnmapIoSpace, by virtual address and length
  pub virtio_initialize : W → NtStatus × W
  pub virtio_reset : W → W
  pub virtio_add_status : ℕ → W → W
  pub virtio_features : W → ℕ
  pub virtio_set_features : ℕ → W → NtStatus × W
  -- virtio_find_queues: the sizes that it allocates through ViosndAllocContiguous, and its end, given
  -- what it got; all four queues are there, or none.
  pub queue_sizes : W → List ℕ
  pub virtio_find_queues : List (Option (ℕ × ℕ)) → W → NtStatus × W
  pub virtio_ready : W → W
  pub virtio_streams : W → ℕ  -- virtio_get_config: Config.streams
  -- virtio_delete_queues, and the addresses that it frees through ViosndFreeContiguous
  pub queue_buffers : W → List ℕ
  pub virtio_delete_queues : W → W
  pub virtio_shutdown : W → W

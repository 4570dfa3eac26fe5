-- ===== src/Virtio/Device.antt =====
-- The state of struct _VIOSND_DEVICE in viosnd/sys/ViosndVirtio.cpp, and code that runs on it and
-- on the world.
use viosnd.Base.{ℕ, Bool, List}
use viosnd.Virtio.Host.{EventBuffer}

-- VIOSND_DMA_BLOCK; `address` is its own address in the pool.
pub record DmaBlock : Type 0 where
  pub address : ℕ
  pub va : ℕ
  pub logical_address : ℕ
  pub size : ℕ

-- VIOSND_BAR; a BaseVA of 0 is NULL.
pub record Bar : Type 0 where
  pub present : Bool
  pub port_space : Bool
  pub base_pa : ℕ
  pub length : ℕ
  pub base_va : ℕ

-- VIOSND_DEVICE. A queue is whether its pointer is not NULL; a mutex is how often it is held.
-- `event_buffers` are the entries of EventBuffers that have a buffer, in their order.
-- `physical_device` and `pci_bus` are whether PhysicalDeviceObject is not NULL and
-- PciBusInterfaceValid; `capture_faulted` is the static ViosndCaptureFaulted of ViosndWaveRT.cpp.
pub record Device : Type 0 where
  pub dma_adapter : Bool
  pub dma_blocks : List DmaBlock
  pub control_queue : Bool
  pub tx_queue : Bool
  pub rx_queue : Bool
  pub control_mutex : ℕ
  pub tx_mutex : ℕ
  pub rx_mutex : ℕ
  pub config_streams : ℕ
  pub event_queue : Bool
  pub event_mutex : ℕ
  pub event_buffers : List EventBuffer
  pub event_buffer_count : ℕ
  pub capture_faulted : Bool
  pub physical_device : Bool
  pub pci_bus : Bool
  pub bars : ℕ → Bar
  pub virtio_initialized : Bool

-- Code that runs on the device and the world.
abbrev pub M : Type 0 → Type 0 → Type 0
M W A = Device → W → A × Device × W

infixl 5 ◌>>=◌ ◌>>◌
abbrev pub ◌>>=◌ : {W A B : Type 0} → M W A → (A → M W B) → M W B
◌>>=◌ m f d w = let (a, d', w') = m d w in f a d' w'

abbrev pub ◌>>◌ : {W A B : Type 0} → M W A → M W B → M W B
◌>>◌ m k d w = let (a, d', w') = m d w in k d' w'

abbrev pub pure : {W A : Type 0} → A → M W A
pure a d w = (a, d, w)

-- A call of the host that returns a value, and one that returns none.
abbrev pub ask : {W A : Type 0} → (W → A × W) → M W A
ask call d w = let (a, w') = call w in (a, d, w')

abbrev pub tell : {W : Type 0} → (W → W) → M W (Unit {0})
tell call d w = (tt, d, call w)

abbrev pub modify : {W : Type 0} → (Device → Device) → M W (Unit {0})
modify f d w = (tt, f d, w)

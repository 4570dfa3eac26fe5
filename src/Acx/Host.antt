-- ===== src/Acx/Host.antt =====
-- What viosnd/sys/ViosndAcxCircuit.cpp and viosnd/sys/ViosndAcxVirtio.cpp call and do not implement:
-- the pool, the DMA memory and the virtqueues of VirtIO/, MDLs, delays and the notifications of ACX,
-- over an abstract `World`. A queue of packets is named by its direction, true for capture.
use viosnd.Base.{ℕ, Bool, List, Option}
use viosnd.Virtio.Host.{Request, Response}

-- VIOSND_ACX_PERIOD; 0 is NULL. `header_stream_id` and `payload` are
-- what the memory at RequestVa holds. The field
-- Ready is never read, and left out.
pub record Period : Type 0 where
  pub packet_number : ℕ
  pub period_length : ℕ
  pub request_va : ℕ
  pub request_length : ℕ
  pub audio_va : ℕ
  pub status_va : ℕ
  pub header_stream_id : ℕ
  pub payload : List ℕ
  pub in_flight : Bool

-- What virtqueue_get_buf gives: the period's index, and what the device wrote to its buffers.
pub record Completed : Type 0 where
  pub index : ℕ
  pub status : ℕ
  pub latency_bytes : ℕ
  pub audio : List ℕ

-- VIOSND_CONTROL_MESSAGE, at its address in the pool
pub record Message : Type 0 where
  pub address : ℕ
  pub request : Request
  pub request_va : ℕ
  pub response_va : ℕ
  pub response_length : ℕ

pub record AcxHost : Type 1 where
  pub World : Type 0
  pub pool_alloc : ℕ → World → Option ℕ × World
  pub pool_free : ℕ → World → World
  pub rt_packet_size : ℕ  -- sizeof(ACX_RTPACKET), of acx.h
  pub dma_alloc : ℕ → World → Option ℕ × World  -- VirtIOWdfDeviceAllocDmaMemory, by size
  pub dma_free : ℕ → World → World
  pub mdl_alloc : ℕ → ℕ → World → Option ℕ × World  -- IoAllocateMdl, by address and size
  pub mdl_free : ℕ → World → World
  pub delay_ms : World → World
  -- virtqueue_add_buf of the period of an index; none if negative
  pub queue_add : Bool → ℕ → Period → World → Option World
  pub queue_kick : Bool → World → World
  pub queue_get : Bool → World → Option Completed × World
  -- How many buffers the device has used and the driver not yet taken: the device uses none while the
  -- driver drains the queue, so this bounds the model's draining loop.
  pub used_count : Bool → World → ℕ
  pub packet_complete : Bool → ℕ → World → World  -- AcxRtStreamNotifyPacketComplete
  pub control_add : Message → World → Option World
  pub control_kick : World → World
  pub control_get : World → Option ℕ × World  -- the address of the message
  pub response_at : ℕ → World → Response  -- what the memory at ResponseVa holds
  -- The event queue: by a buffer's index, and with the code that the device wrote
  pub event_add : ℕ → World → Option World
  pub event_kick : World → World
  pub event_get : World → Option (ℕ × ℕ) × World
  pub event_used_count : World → ℕ

-- ===== src/Virtio/Host.antt =====
-- What viosnd/sys/ViosndVirtio.cpp calls and this repository's driver does not implement: the pool,
-- the DMA adapter, the virtqueues of VirtIO/ and the clock, over an abstract `World`. A call takes
-- the world before it and returns the world after it.
use viosnd.Base.{ℕ, List, Option}
use viosnd.Status.{NtStatus}
use viosnd.Protocol.{PcmInfo, PcmSetParams}

-- The structures that the driver sends on the control queue.
pub data Request : Type 0 where
  set_params : PcmSetParams → Request
  pcm_header : ℕ → ℕ → Request  -- VIRTIO_SND_PCM_HDR: the code and the stream id
  query_info : ℕ → ℕ → ℕ → ℕ → Request  -- the code, start_id, count and size

-- A response: the header's code, and the entries behind it.
pub record Response : Type 0 where
  pub code : ℕ
  pub infos : List PcmInfo

-- VIOSND_CONTROL_MESSAGE; `request` is what the memory at RequestVa holds.
pub record ControlMessage : Type 0 where
  pub address : ℕ
  pub request : Request
  pub request_va : ℕ
  pub request_pa : ℕ
  pub request_length : ℕ
  pub response_va : ℕ
  pub response_pa : ℕ
  pub response_length : ℕ

-- VIOSND_PCM_IO; 0 is NULL. `header_stream_id` and `payload` are what the memory at RequestVa holds.
pub record PcmIo : Type 0 where
  pub address : ℕ
  pub request_va : ℕ
  pub request_pa : ℕ
  pub request_length : ℕ
  pub audio_va : ℕ
  pub audio_pa : ℕ
  pub max_audio_length : ℕ
  pub status_va : ℕ
  pub status_pa : ℕ
  pub audio_length : ℕ
  pub source_length : ℕ
  pub packet_number : ℕ
  pub stream_id : ℕ
  pub header_stream_id : ℕ
  pub payload : List ℕ

-- A buffer that the device has used: the length that virtqueue_get_buf returns, and what the device
-- wrote, its PCM status last.
pub record Used : Type 0 where
  pub io : PcmIo
  pub used_length : ℕ
  pub status : ℕ
  pub latency_bytes : ℕ
  pub audio : List ℕ

-- VIOSND_EVENT_BUFFER; 0 is NULL.
pub record EventBuffer : Type 0 where
  pub event_va : ℕ
  pub event_pa : ℕ

-- The two lengths of a scatter list of one readable and one writable entry.
pub record Lengths : Type 0 where
  pub out_length : ℕ
  pub in_length : ℕ

pub record Host : Type 1 where
  pub World : Type 0
  pub pool_alloc : ℕ → World → Option ℕ × World  -- ExAllocatePoolUninitialized, by size
  pub pool_free : ℕ → World → World  -- ExFreePoolWithTag
  pub common_alloc : ℕ → World → Option (ℕ × ℕ) × World  -- AllocateCommonBuffer: both addresses
  pub common_free : ℕ → ℕ → ℕ → World → World  -- FreeCommonBuffer: size and both addresses
  pub delay_us : ℕ → World → World  -- KeDelayExecutionThread, KeStallExecutionProcessor
  pub control_add : ControlMessage → World → Option World  -- virtqueue_add_buf; none if negative
  pub control_kick : World → World
  pub control_get : World → Option ControlMessage × World  -- virtqueue_get_buf
  -- How many messages the control queue holds: it bounds the model's polling loop.
  pub control_queued : World → ℕ
  pub response_at : ControlMessage → World → Response  -- what the memory at ResponseVa holds
  pub wait_tx : World → NtStatus × World  -- KeWaitForSingleObject on TxQueueMutex, 100 ms
  pub tx_add : PcmIo → Lengths → World → Option World
  pub tx_kick : World → World
  pub tx_get : World → Option Used × World
  -- How many transfers the queue holds: it bounds the model's reclaim loop.
  pub tx_queued : World → ℕ
  pub tx_detach : World → Option PcmIo × World  -- virtqueue_detach_unused_buf
  pub rx_add : PcmIo → Lengths → World → Option World
  pub rx_kick : World → World
  pub rx_get : World → Option Used × World
  pub rx_queued : World → ℕ
  pub rx_detach : World → Option PcmIo × World
  pub mdl_alloc : ℕ → World → Option ℕ × World  -- MmAllocatePagesForMdlEx, by size: the MDL
  -- MmGetSystemAddressForMdlSafe and MmGetMdlByteCount: the bytes mapped; none if it failed
  pub mdl_map : ℕ → World → Option ℕ × World
  pub mdl_free : ℕ → World → World  -- MmFreePagesFromMdl and ExFreePool
  pub event_add : EventBuffer → World → Option World
  pub event_kick : World → World
  pub event_get : World → Option EventBuffer × World
  pub event_queued : World → ℕ  -- how many buffers the event queue holds

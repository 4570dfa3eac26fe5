-- ===== src/Acx/Device.antt =====
-- The device of the ACX variant: its bring-up in viosnd/sys/ViosndAcxVirtio.cpp and its power and
-- interrupt callbacks in viosnd/sys/ViosndAcxDriver.cpp, less the tracing.
pub mod Ready
pub mod Power
use viosnd.Base.{
  ℕ, zero, suc, ◌+◌, ◌*◌, Bool, true, false, ◌&&◌, ◌||◌, not, Option, none, some, ◌==◌,
  if◌then◌else◌,
}
use viosnd.Status.{
  NtStatus, nt_success, status_success, status_device_not_ready, status_insufficient_resources,
  status_device_configuration_error,
}
use viosnd.Pcm.{StreamPair, has_bit}
use viosnd.Acx.Host.{AcxHost}
use viosnd.Acx.Stream.{AcxQueues}
use viosnd.Acx.Periods.{acx_alloc_dma, acx_free_dma}
use viosnd.Acx.Control.{acx_query_pcm_streams}
use viosnd.Acx.Drain.{AcxStreams, acx_post_event, stop_streams, drain_queues}

-- VIOSND_ACX_DEVICE. A circuit is only NULL or not.
pub record AcxDevice : Type 0 where
  pub queues : AcxQueues
  pub streams : AcxStreams
  pub pair : StreamPair
  pub config_streams : ℕ
  pub event_pool_va : ℕ
  pub event_buffer_count : ℕ
  pub render_circuit : Bool
  pub capture_circuit : Bool
  pub render_circuit_added : Bool
  pub capture_circuit_added : Bool
  pub virtio_ready : Bool
  pub queues_ready : Bool

-- The calls of VirtIO/WDF and of ACX; a circuit is named by its direction, true for capture.
pub record AcxBus (h : AcxHost) : Type 0 where
  pub initialize : h.World → NtStatus × h.World  -- VirtIOWdfInitialize
  pub device_features : h.World → ℕ × h.World
  pub set_driver_features : ℕ → h.World → NtStatus × h.World
  pub init_queues : h.World → (NtStatus × AcxQueues) × h.World  -- and Device->Queues, which a failure may have written, too
  pub get_streams : h.World → ℕ × h.World  -- VirtIOWdfDeviceGet: Config.streams
  pub set_driver_ok : h.World → h.World
  pub set_driver_failed : h.World → h.World
  pub destroy_queues : h.World → h.World
  pub shutdown : h.World → h.World
  pub isr_status : h.World → ℕ × h.World
  pub queue_dpc : h.World → h.World
  pub add_circuit : Bool → h.World → NtStatus × h.World
  pub remove_circuit : Bool → h.World → NtStatus × h.World

abbrev pub no_queues : AcxQueues
no_queues = record {
  control_queue = false;
  event_queue = false;
  tx_queue = false;
  rx_queue = false;
}

module _ (h : AcxHost) (bus : AcxBus h) where
  open h use {World, event_kick}
  open bus use {
    initialize, device_features, set_driver_features, init_queues, get_streams, set_driver_ok,
    set_driver_failed, destroy_queues, shutdown, isr_status, queue_dpc, add_circuit, remove_circuit,
  }

  -- The loop of ViosndInitializeEventQueue, over `n` buffers from index `i` on; 8 is
  -- sizeof(VIRTIO_SND_EVENT).
  unfoldable pub post_buffers : ℕ → ℕ → AcxDevice → World → NtStatus × AcxDevice × World
  post_buffers zero i d w = (status_success, d, w)
  post_buffers (suc n) i d w =
      let (status, w1) = acx_post_event h d.queues i (not (d.event_pool_va + i * 8 == 0)) w in
      let counted = record d { event_buffer_count = d.event_buffer_count + 1 } in
      let rest = post_buffers n (i + 1) counted w1 in
      if not (nt_success status) then (status, d, w1) else rest

  -- ViosndInitializeEventQueue
  unfoldable pub acx_initialize_event_queue : AcxDevice → World → NtStatus × AcxDevice × World
  unfolding post_buffers
  acx_initialize_event_queue d w =
      let (va, w1) = acx_alloc_dma h 4096 w in
      let (status, d2, w2) = post_buffers 8 0 (record d { event_pool_va = va }) w1 in
      if not d.queues.event_queue
      then (status_device_not_ready, d, w)
      else if va == 0
      then (status_insufficient_resources, record d { event_pool_va = 0 }, w1)
      else (status, d2, (if nt_success status then event_kick w2 else w2))

  -- ViosndAcxFreeEventBuffers
  unfoldable pub free_event_buffers : AcxDevice → World → AcxDevice × World
  free_event_buffers d w =
      (record d { event_buffer_count = 0; event_pool_va = 0 }, acx_free_dma h d.event_pool_va w)

  -- The first `if` of ViosndAcxDestroyDevice and of ViosndEvtDeviceD0Exit
  unfoldable pub stop_device : AcxDevice → World → AcxDevice × World
  stop_device d w =
      let (ss, w') = stop_streams h true d.queues d.streams w in
      if d.virtio_ready then (record d { streams = ss; virtio_ready = false }, w') else (d, w)

  -- The second `if` of ViosndAcxDestroyDevice
  unfoldable pub close_queues : AcxDevice → World → AcxDevice × World
  close_queues d w =
      if d.queues_ready
      then (record d { queues = no_queues; queues_ready = false }, destroy_queues w)
      else (d, w)

  -- ViosndAcxDestroyDevice
  unfoldable pub acx_destroy_device : AcxDevice → World → AcxDevice × World
  unfolding stop_device close_queues free_event_buffers
  acx_destroy_device d w =
      let (d1, w1) = stop_device d w in
      let (d2, w2) = close_queues d1 w1 in
      let (d3, w3) = free_event_buffers d2 w2 in (d3, shutdown w3)

  -- ViosndAcxInitializeVirtio; 2^32 is VIRTIO_F_VERSION_1, the one feature asked for. The sizes of the
  -- queues are only logged.
  unfoldable pub initialize_virtio : AcxDevice → World → NtStatus × AcxDevice × World
  unfolding acx_initialize_event_queue
  initialize_virtio d w =
      let (features, w1) = device_features w in
      let wanted = if has_bit features 4294967296 then 4294967296 else 0 in
      let (accepted, w2) = set_driver_features wanted w1 in
      let ((status, queues), w3) = init_queues w2 in
      let (streams, w4) = get_streams w3 in
      let d1 = record d { queues = queues; queues_ready = true; config_streams = streams } in
      if not (nt_success accepted)
      then (accepted, d, w2)
      else if not (nt_success status)
      then (status, record d { queues = queues }, w3)
      else acx_initialize_event_queue d1 w4

  -- ViosndAcxQueryPcmStreams
  unfoldable pub query_streams : AcxDevice → World → NtStatus × AcxDevice × World
  query_streams d w =
      let ((status, pair), w') = acx_query_pcm_streams h d.queues d.config_streams w in
      elim pair [ none ↦ (status, d, w') | some p ↦ (status, record d { pair = p }, w') ]

  -- The failure branches of the power callbacks
  unfoldable pub give_up : NtStatus → AcxDevice → World → NtStatus × AcxDevice × World
  unfolding acx_destroy_device
  give_up status d w = let (d', w') = acx_destroy_device d (set_driver_failed w) in (status, d', w')

  -- One circuit of ViosndAcxAddStaticCircuits: the status
  unfoldable pub add_one : Bool → Bool → World → NtStatus × World
  add_one capture exists w =
      if not exists then (status_device_configuration_error, w) else add_circuit capture w

  -- ViosndAcxAddStaticCircuits
  unfoldable pub add_static_circuits : AcxDevice → World → NtStatus × AcxDevice × World
  unfolding add_one
  add_static_circuits d w =
      let renders = d.pair.has_render && not d.render_circuit_added in
      let (status, w1) =
        if renders then add_one false d.render_circuit w else (status_success, w) in
      let d1 = if renders then record d { render_circuit_added = true } else d in
      let records = d.pair.has_capture && not d.capture_circuit_added in
      let (later, w2) = if records then add_one true d.capture_circuit w1 else (status, w1) in
      let d2 = if records then record d1 { capture_circuit_added = true } else d1 in
      if not (nt_success status)
      then (status, d, w1)
      else if not (nt_success later)
      then (later, d1, w2)
      else (later, d2, w2)

  -- ViosndAcxRemoveStaticCircuits
  unfoldable pub remove_static_circuits : AcxDevice → World → AcxDevice × World
  remove_static_circuits d w =
      let captures = d.capture_circuit_added && d.capture_circuit in
      let (status, w1) = if captures then remove_circuit true w else (status_device_not_ready, w) in
      let d1 = if nt_success status then record d { capture_circuit_added = false } else d in
      let renders = d.render_circuit_added && d.render_circuit in
      let (later, w2) =
        if renders then remove_circuit false w1 else (status_device_not_ready, w1) in
      let d2 = if nt_success later then record d1 { render_circuit_added = false } else d1 in
      (d2, w2)

  -- ViosndEvtDevicePrepareHardware once the device is initialized
  unfoldable pub prepare_circuits : AcxDevice → World → NtStatus × AcxDevice × World
  unfolding add_static_circuits remove_static_circuits give_up
  prepare_circuits d w =
      let (status, d1, w1) = add_static_circuits d w in
      let (d2, w2) = remove_static_circuits d1 w1 in
      if nt_success status
      then (status, record d1 { virtio_ready = true }, set_driver_ok w1)
      else give_up status d2 w2

  -- ViosndEvtDevicePrepareHardware
  unfoldable pub device_prepare_hardware : AcxDevice → World → NtStatus × AcxDevice × World
  unfolding initialize_virtio query_streams give_up prepare_circuits
  device_prepare_hardware d w =
      let (found, w1) = initialize w in
      let (status, d2, w2) = initialize_virtio d w1 in
      let (queried, d3, w3) = query_streams d2 w2 in
      if not (nt_success found)
      then (found, d, w1)
      else if not (nt_success status)
      then give_up status d2 w2
      else if not (nt_success queried)
      then give_up queried d3 w3
      else prepare_circuits d3 w3

  -- ViosndEvtDeviceReleaseHardware
  unfoldable pub device_release_hardware : AcxDevice → World → AcxDevice × World
  unfolding remove_static_circuits acx_destroy_device
  device_release_hardware d w =
      let (d1, w1) = remove_static_circuits d w in acx_destroy_device d1 w1

  -- ViosndEvtDeviceD0Entry
  unfoldable pub d0_entry : AcxDevice → World → NtStatus × AcxDevice × World
  unfolding initialize_virtio query_streams give_up
  d0_entry d w =
      let (status, d1, w1) = initialize_virtio d w in
      let (queried, d2, w2) = query_streams d1 w1 in
      if d.queues_ready
      then (status_success, d, w)
      else if not (nt_success status)
      then give_up status d1 w1
      else if not (nt_success queried)
      then give_up queried d2 w2
      else (status_success, record d2 { virtio_ready = true }, set_driver_ok w2)

  -- ViosndEvtDeviceD0Exit
  unfoldable pub d0_exit : AcxDevice → World → AcxDevice × World
  unfolding stop_device free_event_buffers
  d0_exit d w =
      let (d1, w1) = stop_device d w in
      let destroyed =
        free_event_buffers (record d1 { queues = no_queues; queues_ready = false })
          (destroy_queues w1) in
      if d1.queues_ready then destroyed else (d1, w1)

  -- ViosndEvtInterruptIsr: whether the interrupt is the device's
  unfoldable pub interrupt_isr : AcxDevice → World → Bool × World
  interrupt_isr d w =
      let (isr, w1) = isr_status w in
      if not d.virtio_ready
      then (false, w)
      else if isr == 0
      then (false, w1)
      else (true, queue_dpc w1)

  -- ViosndEvtInterruptDpc
  unfoldable pub interrupt_dpc : AcxDevice → World → AcxDevice × World
  interrupt_dpc d w =
      let (ss, w') = drain_queues h d.queues d.streams w in
      if d.virtio_ready then (record d { streams = ss }, w') else (d, w)

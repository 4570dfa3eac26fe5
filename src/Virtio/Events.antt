-- ===== src/Virtio/Events.antt =====
-- The event queue of viosnd/sys/ViosndVirtio.cpp. What an event says is only logged; its buffer is
-- cleared and posted again.
pub mod Posted
mod Tests
use viosnd.Base.{
  ℕ, zero, suc, ◌+◌, ◌-◌, Bool, true, false, ◌||◌, not, List, [], ◌∷◌, ◌++◌, none, some, ◌==◌,
  if◌then◌else◌,
}
use viosnd.Status.{
  NtStatus, nt_success, status_success, status_device_not_ready, status_device_busy,
  status_insufficient_resources,
}
use viosnd.Virtio.Host.{Host, EventBuffer}
use viosnd.Virtio.Device.{Device, M}
use viosnd.Virtio.Dma.{allocate_dma_buffer, free_dma_buffer}

abbrev pub event_buffer_count : ℕ
event_buffer_count = 8

abbrev pub event_poll_budget : ℕ
event_poll_budget = 8

-- sizeof(VIRTIO_SND_EVENT)
abbrev pub event_size : ℕ
event_size = 8

abbrev pub acquire_events : Device → Device
acquire_events d = record d { event_mutex = d.event_mutex + 1 }

abbrev pub release_events : Device → Device
release_events d = record d { event_mutex = d.event_mutex - 1 }

module _ (h : Host) where
  open h use {World, event_add, event_kick, event_get}

  -- ViosndPostEventBufferLocked
  unfoldable pub post_event_buffer_locked : EventBuffer → M World NtStatus
  post_event_buffer_locked b d w =
      if not d.event_queue || b.event_va == 0
      then (status_device_not_ready, d, w)
      else elim (event_add b w) [
        | none ↦ (status_device_busy, d, w)
        | some w' ↦ (status_success, d, w')
      ]

  -- The loop of ViosndInitializeEventQueue, with `n` buffers left to post.
  unfoldable pub post_events : ℕ → M World NtStatus
  unfolding post_event_buffer_locked
  post_events zero d w = (status_success, d, w)
  post_events (suc n) d w =
      let (buffer, d1, w1) = allocate_dma_buffer h event_size d w in
      elim buffer [
        | none ↦ (status_insufficient_resources, d1, w1)
        | some (va, pa) ↦
            let b : EventBuffer = record { event_va = va; event_pa = pa } in
            let d2 = record d1 { event_buffers = d1.event_buffers ++ (b ∷ []) } in
            let (status, d3, w3) = post_event_buffer_locked b d2 w1 in
            let rest =
              post_events n (record d3 { event_buffer_count = d3.event_buffer_count + 1 }) w3 in
            if nt_success status then rest else (status, d3, w3)
      ]

  -- ViosndInitializeEventQueue
  unfoldable pub initialize_event_queue : M World NtStatus
  unfolding post_events
  initialize_event_queue d w =
      if not d.event_queue
      then (status_device_not_ready, d, w)
      else let (status, d', w') = post_events event_buffer_count (acquire_events d) w in
        (status, release_events d', (if nt_success status then event_kick w' else w'))

  -- The loop of ViosndPollEvents, with `budget` events left to process.
  unfoldable pub poll_loop : ℕ → M World (Unit {0})
  unfolding post_event_buffer_locked
  poll_loop zero d w = (tt, d, w)
  poll_loop (suc budget) d w =
      let (used, w1) = event_get w in
      elim used [
        | none ↦ (tt, d, w1)
        | some b ↦
            let (status, d2, w2) = post_event_buffer_locked b d w1 in
            poll_loop budget d2 (if nt_success status then event_kick w2 else w2)
      ]

  -- ViosndPollEvents, at a device that is not NULL
  unfoldable pub poll_events : M World (Unit {0})
  unfolding poll_loop
  poll_events d w =
      if not d.event_queue
      then (tt, d, w)
      else let (_, d', w') = poll_loop event_poll_budget (acquire_events d) w in
        (tt, release_events d', w')

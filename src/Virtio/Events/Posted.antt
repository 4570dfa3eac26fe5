-- ===== src/Virtio/Events/Posted.antt =====
-- The buffers of the event queue in viosnd/sys/ViosndVirtio.cpp stay posted.
use viosnd.Base.{
  ◌∙◌, ℕ, zero, suc, ◌≡◌, ◌≢◌, refl, ap, inl, inr, true, none, some, arith, Bool-cases,
  Option-cases,
}
use viosnd.Status.{status_success}
use viosnd.Virtio.Host.{Host, EventBuffer}
use viosnd.Virtio.Device.{Device}
use viosnd.Virtio.Events.{
  post_event_buffer_locked, poll_loop, poll_events, acquire_events, release_events,
  event_poll_budget,
}

-- What the event queue is relied on for: it gives back buffers with an address, has room again for
-- each one that it gave back, and counts what is added and taken.
pub record EventLaws (h : Host) : Type 0 where
  pub got :
      (w : h.World) (b : EventBuffer)
      → (h.event_get w).0 ≡ some b
      → (b.event_va ≢ 0) × (h.event_queued w ≡ suc (h.event_queued (h.event_get w).1))
  pub empty :
      (w : h.World) → (h.event_get w).0 ≡ none → h.event_queued (h.event_get w).1 ≡ h.event_queued w
  pub room :
      (w : h.World) (b : EventBuffer)
      → (h.event_get w).0 ≡ some b
      → (w' : h.World) × (h.event_add b (h.event_get w).1 ≡ some w')
  pub add :
      (b : EventBuffer) (w w' : h.World)
      → h.event_add b w ≡ some w'
      → h.event_queued w' ≡ suc (h.event_queued w)
  pub kick : (w : h.World) → h.event_queued (h.event_kick w) ≡ h.event_queued w

module _ (h : Host) (laws : EventLaws h) where
  open h use {World, event_get, event_add, event_kick, event_queued}

  -- A buffer that came back is posted again.
  repost :
      (b : EventBuffer) (d : Device) (w w' : World)
      → d.event_queue ≡ true
      → b.event_va ≢ 0
      → event_add b w ≡ some w'
      → post_event_buffer_locked h b d w ≡ (status_success, d, w')
  unfolding post_event_buffer_locked
  repost b d w w' ready there added = rw (added, post_event_buffer_locked) (ground arith)

  poll_loop-queued :
      (budget : ℕ) (d : Device) (w : World)
      → d.event_queue ≡ true
      → let (_, d', w') = poll_loop h budget d w in (event_queued w' ≡ event_queued w) × (d' ≡ d)
  unfolding poll_loop
  poll_loop-queued zero d w ready = (refl, refl)
  poll_loop-queued (suc budget) d w ready = elim (Option-cases (event_get w).0) [
    | inl none_used ↦ rw (none_used, poll_loop) (laws.empty w none_used, refl)
    | inr (b, used) ↦
        let (w', added) = laws.room w b used in
        let (there, counted) = laws.got w b used in
        let (same, kept) = poll_loop-queued budget d (event_kick w') ready in
        rw (used, poll_loop)
          (rw (repost b d (event_get w).1 w' ready there added, poll_loop)
            (omega (arith, same, laws.kick w', laws.add b (event_get w).1 w' added, counted), kept))
  ]

  released : (d : Device) → release_events (acquire_events d) ≡ d
  released d = ap (λ n. record d { event_mutex = n }) (omega arith)

  -- ViosndPollEvents leaves as many buffers on the event queue as it found there, and the device's
  -- state as it was, for a queue that has room again for each buffer that it gave back.
  pub poll_events-queued :
      (d : Device) (w : World)
      → let (_, d', w') = poll_events h d w in (event_queued w' ≡ event_queued w) × (d' ≡ d)
  unfolding poll_events
  poll_events-queued d w = elim (Bool-cases d.event_queue) [
    | inl there ↦
        let (same, kept) = poll_loop-queued event_poll_budget (acquire_events d) w there in
        ground (arith, same, ap release_events kept ∙ released d)
    | inr absent ↦ rw (absent, poll_events) (refl, refl)
  ]

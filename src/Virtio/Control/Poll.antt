-- ===== src/Virtio/Control/Poll.antt =====
-- The polling loop of ViosndControlCommand in viosnd/sys/ViosndVirtio.cpp: how it ends.
use viosnd.Base.{
  ◌∙◌, ℕ, zero, suc, ◌+◌, ◌*◌, ◌≤◌, ◌<◌, ◌≡◌, refl, inl, inr, Bool, true, false, Option, none, some,
  arith, ltb, ◌==◌, Bool-cases, Option-cases, if◌then◌else◌, u32, ◌%◌, ltb→lt,
}
use viosnd.Virtio.Host.{Host, ControlMessage}
use viosnd.Virtio.Device.{Device, DmaBlock}
use viosnd.Virtio.Dma.{free_dma_buffer, release_block, unlink_block}
use viosnd.Virtio.Control.{
  Polled, completed, timed_out, starved, poll_control, poll_fuel, settle_response,
  free_control_message, control_timeout_us, control_poll_delay_us, control_renotify_us,
}

-- What the control queue is relied on for: getting a message makes its length one less, and nothing
-- else that the loop calls changes it.
pub record ControlLaws (h : Host) : Type 0 where
  pub got :
      (w : h.World) (m : ControlMessage)
      → (h.control_get w).0 ≡ some m
      → h.control_queued w ≡ suc (h.control_queued (h.control_get w).1)
  pub empty :
      (w : h.World)
      → (h.control_get w).0 ≡ none
      → h.control_queued (h.control_get w).1 ≡ h.control_queued w
  pub kick : (w : h.World) → h.control_queued (h.control_kick w) ≡ h.control_queued w
  pub delay : (us : ℕ) (w : h.World) → h.control_queued (h.delay_us us w) ≡ h.control_queued w
  pub unpool : (a : ℕ) (w : h.World) → h.control_queued (h.pool_free a w) ≡ h.control_queued w
  pub uncommon :
      (size pa va : ℕ) (w : h.World)
      → h.control_queued (h.common_free size pa va w) ≡ h.control_queued w

abbrev pub is_starved : Polled → Bool
is_starved (completed r) = false
is_starved timed_out = false
is_starved starved = true

module _ (h : Host) (laws : ControlLaws h) where
  open h use {World, control_queued, control_get}

  release_queued :
      (b : Option DmaBlock) (adapter : Bool) (w : World)
      → control_queued (release_block h b adapter w) ≡ control_queued w
  unfolding release_block
  release_queued none adapter w = refl
  release_queued (some b) true w =
      laws.unpool b.address (h.common_free b.size b.logical_address b.va w)
      ∙ laws.uncommon b.size b.logical_address b.va w
  release_queued (some b) false w = laws.unpool b.address w

  free_dma_queued :
      (va : ℕ) (d : Device) (w : World)
      → control_queued (free_dma_buffer h va d w).2 ≡ control_queued w
  unfolding free_dma_buffer
  free_dma_queued va d w =
      ground (arith, release_queued (unlink_block d.dma_blocks va).0 d.dma_adapter w)

  free_queued :
      (m : ControlMessage) (d : Device) (w : World)
      → control_queued (free_control_message h m d w).2 ≡ control_queued w
  unfolding free_control_message
  free_queued m d w =
      let (_, d1, w1) = free_dma_buffer h m.request_va d w in
      let (_, d2, w2) = free_dma_buffer h m.response_va d1 w1 in
      laws.unpool m.address w2
      ∙ free_dma_queued m.response_va d1 w1
      ∙ free_dma_queued m.request_va d w

  -- The world after a round that found nothing on the queue.
  idle_world : ℕ → World → World
  idle_world elapsed w =
      let w2 = h.delay_us control_poll_delay_us (control_get w).1 in
      if elapsed % control_renotify_us == 0 then h.control_kick w2 else w2

  idle_queued :
      (elapsed : ℕ) (w : World)
      → (control_get w).0 ≡ none
      → control_queued (idle_world elapsed w) ≡ control_queued w
  unfolding idle_world
  idle_queued elapsed w e =
      let w1 = (control_get w).1 in
      ground (
        arith,
        laws.empty w e,
        laws.delay control_poll_delay_us w1,
        laws.kick (h.delay_us control_poll_delay_us w1),
      )

  settle_queued :
      (n : ℕ) (m : ControlMessage) (w : World)
      → control_queued (settle_response h n m w) ≡ control_queued w
  unfolding settle_response
  settle_queued zero m w = refl
  settle_queued (suc n) m w = ground (arith, settle_queued n m (h.delay_us 10 w), laws.delay 10 w)

  tick :
      (elapsed ms : ℕ)
      → elapsed ≡ ms * 1000
      → ms ≤ 5000
      → u32 (elapsed + control_poll_delay_us) ≡ suc ms * 1000
  tick elapsed ms e bound = omega arith

  still : (elapsed ms : ℕ) → elapsed ≡ ms * 1000 → ltb elapsed control_timeout_us ≡ true → ms ≤ 5000
  still elapsed ms e more = ground (arith, ltb→lt elapsed control_timeout_us more)

  -- With fuel for the messages on the queue and the milliseconds left, the loop does not run out.
  poll_control-enough :
      (fuel : ℕ) (m : ControlMessage) (elapsed ms : ℕ) (d : Device) (w : World)
      → elapsed ≡ ms * 1000
      → ms ≤ 5000
      → control_queued w + 5000 < fuel + ms
      → is_starved (poll_control h fuel m elapsed d w).0 ≡ false
  unfolding poll_control idle_world
  poll_control-enough zero m elapsed ms d w at bound enough = absurd (omega arith)
  poll_control-enough (suc fuel) m elapsed ms d w at bound enough =
      let elapsed' = u32 (elapsed + control_poll_delay_us) in
      let at' = tick elapsed ms at bound in
      elim (Option-cases (control_get w).0) [
        | inl e ↦
            rw (e, poll_control)
              (elim (Bool-cases (ltb elapsed' control_timeout_us)) [
                | inl more ↦ rw more (
                    let same = idle_queued elapsed' w e in
                    poll_control-enough fuel m elapsed' (suc ms) d (idle_world elapsed' w) at'
                      (still elapsed' (suc ms) at' more) (omega arith))
                | inr over ↦ rw over refl
              ])
        | inr (other, e) ↦
            rw (e, poll_control)
              (elim (Bool-cases (other.address == m.address)) [
                | inl same ↦ rw same refl
                | inr foreign ↦ rw foreign (elim (Bool-cases (ltb elapsed control_timeout_us)) [
                  | inl more ↦ rw more (
                      let (_, d', w2) = free_control_message h other d (control_get w).1 in
                      let freed = free_queued other d (control_get w).1 in
                      let one = laws.got w other e in
                      poll_control-enough fuel m elapsed ms d' w2 at bound (omega arith))
                  | inr over ↦ rw over refl
                ])
              ])
      ]

  -- Whatever the control queue holds, the polling loop ends with the message's completion or with
  -- the timeout: the fuel that the model gives it does not run out.
  pub poll_control-ends :
      (m : ControlMessage) (d : Device) (w : World)
      → is_starved (poll_control h (poll_fuel h w) m 0 d w).0 ≡ false
  poll_control-ends m d w =
      poll_control-enough (poll_fuel h w) m 0 0 d w refl (omega arith) (omega arith)

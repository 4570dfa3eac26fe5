-- ===== src/Acx/Control/Quiet.antt =====
-- What a control command of viosnd/sys/ViosndAcxVirtio.cpp leaves of the world.
use viosnd.Base.{
  ℕ, zero, suc, ◌+◌, ◌≡◌, refl, ◌∙◌, not, ◌||◌, some, leb, ◌==◌, branches, choices, u32,
}
use viosnd.Status.{nt_success}
use viosnd.Virtio.Host.{Request, pcm_header}
use viosnd.Virtio.Control.{request_size, control_message_size}
use viosnd.Acx.Host.{AcxHost, Message}
use viosnd.Acx.Stream.{AcxQueues}
use viosnd.Acx.Periods.{acx_alloc_dma, acx_free_dma}
use viosnd.Acx.Control.{
  acx_free_control_message, acx_poll_control, acx_poll_rounds, acx_exchange, acx_control_command,
  acx_control_status_command, acx_pcm_command, is_message,
}

-- A measure of the world that the queue and the delays of a control command leave
pub record Still (h : AcxHost) (view : h.World → ℕ) : Type 0 where
  pub delay_lem : (w : h.World) → view (h.delay_ms w) ≡ view w
  pub control_add_lem :
      (m : Message) (w w' : h.World) → h.control_add m w ≡ some w' → view w' ≡ view w
  pub control_kick_lem : (w : h.World) → view (h.control_kick w) ≡ view w
  pub control_get_lem : (w : h.World) → view (h.control_get w).1 ≡ view w

-- One that its allocations leave, too
pub record Quiet (h : AcxHost) (view : h.World → ℕ) : Type 0 where
  pub pool_alloc_lem : (n : ℕ) (w : h.World) → view (h.pool_alloc n w).1 ≡ view w
  pub pool_free_lem : (va : ℕ) (w : h.World) → view (h.pool_free va w) ≡ view w
  pub dma_alloc_lem : (n : ℕ) (w : h.World) → view (h.dma_alloc n w).1 ≡ view w
  pub dma_free_lem : (va : ℕ) (w : h.World) → view (h.dma_free va w) ≡ view w
  pub still : Still h view

-- A result of a command, if there is one, and a world that looks as before
pub record Leaves {R : Type 0} (h : AcxHost) (view : h.World → ℕ) (w : h.World) (r : R × h.World)
    : Type 0 where
  pub same : view r.1 ≡ view w

module _ (h : AcxHost) (view : h.World → ℕ) (still : Still h view) where
  open h use {World, delay_ms, control_get}

  pub poll-view :
      (fuel elapsed : ℕ) (m : Message) (w : World)
      → Leaves h view w (acx_poll_control h fuel elapsed m w)
  unfolding acx_poll_control
  poll-view zero elapsed m w = record { same = refl }
  poll-view (suc fuel) elapsed m w =
      let (used, w1) = control_get w in
      let got = still.control_get_lem w in
      branches (Leaves h view w) (is_message m used) (λ _. record { same = got })
        (λ _.
          branches (Leaves h view w) (leb 1000000 elapsed) (λ _. record { same = got })
            (λ _. record {
              same =
                  (poll-view fuel (u32 (elapsed + 1000)) m (delay_ms w1)).same
                  ∙ still.delay_lem w1
                  ∙ got;
            }))

module _ (h : AcxHost) (view : h.World → ℕ) (quiet : Quiet h view) where
  open h use {
    World, dma_free, pool_alloc, pool_free, delay_ms, control_add, control_kick, control_get,
  }

  acx_free_dma-view : (va : ℕ) (w : World) → view (acx_free_dma h va w) ≡ view w
  unfolding acx_free_dma
  acx_free_dma-view va w =
      branches (λ x. view x ≡ view w) (not (va == 0)) (λ _. quiet.dma_free_lem va w) (λ _. refl)

  acx_alloc_dma-view : (n : ℕ) (w : World) → view (acx_alloc_dma h n w).1 ≡ view w
  unfolding acx_alloc_dma
  acx_alloc_dma-view n w = quiet.dma_alloc_lem n w

  message-view : (m : Message) (w : World) → view (acx_free_control_message h m w) ≡ view w
  unfolding acx_free_control_message
  message-view m w =
      quiet.pool_free_lem m.address _
      ∙ acx_free_dma-view m.response_va _
      ∙ acx_free_dma-view m.request_va w

  exchange-view : (m : Message) (w : World) → Leaves h view w (acx_exchange h m w)
  unfolding acx_exchange
  exchange-view m w =
      choices (Leaves h view w) (control_add m w) (λ _. record { same = message-view m w })
        (λ w1 added.
          let polled = acx_poll_control h (acx_poll_rounds h) 0 m (control_kick w1) in
          let same : view polled.1 ≡ view w =
            (poll-view h view quiet.still (acx_poll_rounds h) 0 m (control_kick w1)).same
            ∙ quiet.still.control_kick_lem w1
            ∙ quiet.still.control_add_lem m w w1 added in
          choices (Leaves h view w) polled.0 (λ _. record { same = message-view m polled.1 ∙ same })
            (λ result _. record { same = message-view m polled.1 ∙ same }))

  command-view :
      (d : AcxQueues) (request : Request) (n : ℕ) (w : World)
      → Leaves h view w (acx_control_command h d request n w)
  unfolding acx_control_command
  command-view d request n w =
      let (block, w1) = pool_alloc control_message_size w in
      let (req, w2) = acx_alloc_dma h (request_size request) w1 in
      let (resp, w3) = acx_alloc_dma h n w2 in
      let sent : ℕ → Message = λ address. record {
        address = address;
        request = request;
        request_va = req;
        response_va = resp;
        response_length = n;
      } in
      let got = quiet.pool_alloc_lem control_message_size w in
      let same : view w3 ≡ view w =
        acx_alloc_dma-view n w2 ∙ acx_alloc_dma-view (request_size request) w1 ∙ got in
      branches (Leaves h view w) (not d.control_queue) (λ _. record { same = refl })
        (λ _.
          choices (Leaves h view w) block (λ _. record { same = got })
            (λ address _.
              branches (Leaves h view w) (req == 0 || resp == 0)
                (λ _. record { same = message-view (sent address) w3 ∙ same })
                (λ _. record { same = (exchange-view (sent address) w3).same ∙ same })))

  pub acx_pcm_command-view :
      (d : AcxQueues) (stream_id code : ℕ) (w : World)
      → view (acx_pcm_command h d stream_id code w).1 ≡ view w
  unfolding acx_pcm_command acx_control_status_command
  acx_pcm_command-view d stream_id code w =
      let ((status, response), w') = acx_control_command h d (pcm_header code stream_id) 4 w in
      let same : view w' ≡ view w = (command-view d (pcm_header code stream_id) 4 w).same in
      let left : Leaves h view w (acx_pcm_command h d stream_id code w) =
        branches (Leaves h view w) (not (nt_success status)) (λ _. record { same = same })
          (λ _. record { same = same }) in
      left.same

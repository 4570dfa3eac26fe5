-- ===== src/Acx/Control/Counted.antt =====
-- The memory of a control command of viosnd/sys/ViosndAcxVirtio.cpp.
use viosnd.Base.{
  ℕ, zero, suc, ◌+◌, ◌-◌, ◌≡◌, ◌≢◌, refl, ap, ◌∙◌, ◌⊎◌, inl, inr, false, not, ◌||◌, ◌==◌, Option,
  none, some, if◌then◌else◌, arith, branches, choices, leb, subst, u32,
}
use viosnd.Status.{NtStatus, nt_success, status_success}
use viosnd.Virtio.Host.{Request, Response}
use viosnd.Virtio.Control.{request_size, control_message_size}
use viosnd.Acx.Host.{AcxHost, Message}
use viosnd.Acx.Stream.{AcxQueues}
use viosnd.Acx.Periods.{acx_alloc_dma, acx_free_dma, address_of}
use viosnd.Acx.Control.{
  acx_free_control_message, acx_poll_control, acx_poll_rounds, acx_exchange, acx_control_command,
  is_message,
}
use viosnd.Acx.Control.Quiet.{Still, poll-view}
use viosnd.Acx.Control.Ends.{acx_poll_control-ends}

-- 1 for memory that was given
abbrev pub given : ℕ → ℕ
given va = if va == 0 then 0 else 1

abbrev pub block : Option ℕ → ℕ
block none = 0
block (some va) = 1

-- How many blocks of the pool and of DMA memory are allocated; the free of a block counts one less.
pub record Counts (h : AcxHost) (live : h.World → ℕ) : Type 0 where
  pub pool_alloc_lem :
      (n : ℕ) (w : h.World) → live (h.pool_alloc n w).1 ≡ live w + block (h.pool_alloc n w).0
  pub pool_free_lem : (va : ℕ) (w : h.World) → live (h.pool_free va w) ≡ live w - 1
  pub dma_alloc_lem :
      (n : ℕ) (w : h.World)
      → live (h.dma_alloc n w).1 ≡ live w + given (address_of (h.dma_alloc n w).0)
  pub dma_free_lem : (va : ℕ) (w : h.World) → live (h.dma_free va w) ≡ live w - 1
  pub still : Still h live

module _ (h : AcxHost) (live : h.World → ℕ) (counts : Counts h live) where
  open h use {World, dma_free, pool_alloc, control_add, control_kick, control_get, delay_ms}

  acx_free_dma-live : (va : ℕ) (w : World) → live (acx_free_dma h va w) ≡ live w - given va
  unfolding acx_free_dma
  acx_free_dma-live va w =
      branches (λ x. live x ≡ live w - given va) (not (va == 0))
        (λ some_va. ground (arith, some_va, counts.dma_free_lem va w))
        (λ null. ground (arith, null))

  message-live :
      (m : Message) (w : World)
      → live (acx_free_control_message h m w)
        ≡ live w - given m.request_va - given m.response_va - 1
  unfolding acx_free_control_message
  message-live m w =
      let w1 = acx_free_dma h m.request_va w in
      omega (
        arith,
        counts.pool_free_lem m.address (acx_free_dma h m.response_va w1),
        acx_free_dma-live m.response_va w1,
        acx_free_dma-live m.request_va w,
      )

  -- A response exactly with success
  abbrev IsAnswer : NtStatus × Option Response → Type 0
  IsAnswer r = ((r.0 ≡ status_success) × (r.1 ≢ none)) ⊎ ((nt_success r.0 ≡ false) × (r.1 ≡ none))

  abbrev IsReply : Option (NtStatus × Option Response) → Type 0
  IsReply none = Unit {0}
  IsReply (some r) = IsAnswer r

  record Replies (x : Option (NtStatus × Option Response) × World) : Type 0 where
    reply : IsReply x.0

  poll-Replies :
      (fuel elapsed : ℕ) (m : Message) (w : World) → Replies (acx_poll_control h fuel elapsed m w)
  unfolding acx_poll_control
  poll-Replies zero elapsed m w = record { reply = tt }
  poll-Replies (suc fuel) elapsed m w =
      branches Replies (is_message m (control_get w).0)
        (λ _. record { reply = inl (refl, λ e. ground (arith, e)) })
        (λ _.
          branches Replies (leb 1000000 elapsed) (λ _. record { reply = inr (refl, refl) })
            (λ _. poll-Replies fuel (u32 (elapsed + 1000)) m (delay_ms (control_get w).1)))

  -- What a command gives, and as many blocks as there were
  record Frees (n : ℕ) (r : (NtStatus × Option Response) × World) : Type 0 where
    same : live r.1 ≡ n
    answer : IsAnswer r.0

  exchange-Frees :
      (m : Message) (w : World)
      → Frees (live w - given m.request_va - given m.response_va - 1) (acx_exchange h m w)
  unfolding acx_exchange
  exchange-Frees m w =
      let n = live w - given m.request_va - given m.response_va - 1 in
      choices (Frees n) (control_add m w)
        (λ _. record { same = message-live m w; answer = inr (refl, refl) })
        (λ w1 added.
          let polled = acx_poll_control h (acx_poll_rounds h) 0 m (control_kick w1) in
          let kept : live polled.1 ≡ live w =
            (poll-view h live counts.still (acx_poll_rounds h) 0 m (control_kick w1)).same
            ∙ counts.still.control_kick_lem w1
            ∙ counts.still.control_add_lem m w w1 added in
          let freed =
            message-live m polled.1
            ∙ ap (λ k. k - given m.request_va - given m.response_va - 1) kept in
          let reply = (poll-Replies (acx_poll_rounds h) 0 m (control_kick w1)).reply in
          choices (Frees n) polled.0
            (λ starved. absurd (acx_poll_control-ends h m (control_kick w1) starved))
            (λ result e. record { same = freed; answer = subst IsReply e reply }))

  -- A command of the ACX variant gives back every block that it allocates, on every branch, the
  -- timeout included, and its status is a success exactly if it gives a response, and an error
  -- otherwise. The pool and the DMA memory count what is allocated and freed, and the control queue
  -- and the delays allocate nothing.
  pub acx_control_command_lem :
      (d : AcxQueues) (request : Request) (n : ℕ) (w : World)
      → (let ((status, response), w') = acx_control_command h d request n w in
          (live w' ≡ live w)
          × (((status ≡ status_success) × (response ≢ none))
              ⊎ ((nt_success status ≡ false) × (response ≡ none))))
  unfolding acx_control_command acx_alloc_dma
  acx_control_command_lem d request n w =
      let (found, w1) = pool_alloc control_message_size w in
      let (req, w2) = acx_alloc_dma h (request_size request) w1 in
      let (resp, w3) = acx_alloc_dma h n w2 in
      let sent : ℕ → Message = λ address. record {
        address = address;
        request = request;
        request_va = req;
        response_va = resp;
        response_length = n;
      } in
      let grown = counts.pool_alloc_lem control_message_size w in
      let first = counts.dma_alloc_lem (request_size request) w1 in
      let second = counts.dma_alloc_lem n w2 in
      let done : Frees (live w) (acx_control_command h d request n w) =
        branches (Frees (live w)) (not d.control_queue)
          (λ _. record { same = refl; answer = inr (refl, refl) })
          (λ _.
            choices (Frees (live w)) found
              (λ e. record { same = omega (arith, grown, ap block e); answer = inr (refl, refl) })
              (λ address e.
                let three : live w3 ≡ live w + 1 + given req + given resp =
                  omega (arith, grown, ap block e, first, second) in
                branches (Frees (live w)) (req == 0 || resp == 0)
                  (λ _. record {
                    same = omega (arith, message-live (sent address) w3, three);
                    answer = inr (refl, refl);
                  })
                  (λ _.
                    let given_back = exchange-Frees (sent address) w3 in
                    record {
                      same = omega (arith, given_back.same, three);
                      answer = given_back.answer;
                    }))) in
      (done.same, done.answer)

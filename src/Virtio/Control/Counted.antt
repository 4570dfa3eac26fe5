-- ===== src/Virtio/Control/Counted.antt =====
-- A command of viosnd/sys/ViosndVirtio.cpp keeps the common buffers counted.
use viosnd.Base.{
  ℕ, zero, suc, ◌+◌, ◌-◌, ◌*◌, ◌%◌, ◌≡◌, refl, ◌∙◌, Bool, true, false, ◌||◌, some, inl, inr, arith,
  ltb, ◌==◌, if◌then◌else◌, u32, Bool-cases, Option-cases, min,
}
use viosnd.Status.{NtStatus, status_success}
use viosnd.Protocol.{r_pcm_info}
use viosnd.Virtio.Host.{Host, ControlMessage, Request, query_info}
use viosnd.Virtio.Device.{Device}
use viosnd.Virtio.Dma.{allocate_dma_buffer, free_dma_buffer}
use viosnd.Virtio.Dma.Counted.{
  CommonLaws, IsCounted, allocate_dma_buffer-IsCounted, free_dma_buffer-IsCounted,
}
use viosnd.Virtio.Control.{
  va_of, pa_of, request_size, control_message_size, free_control_message, settle_response,
  poll_control, run_message, exchange, control_command, poll_fuel, control_poll_delay_us,
  control_renotify_us, control_timeout_us,
}
use viosnd.Virtio.Pcm.{query_attempts, query_pcm_streams, pcm_info_retry_count, max_pcm_streams}

-- The control queue and the waits allocate and free no common buffer.
pub record QuietLaws (h : Host) (live : h.World → ℕ) : Type 0 where
  pub delay : (us : ℕ) (w : h.World) → live (h.delay_us us w) ≡ live w
  pub add : (m : ControlMessage) (w w' : h.World) → h.control_add m w ≡ some w' → live w' ≡ live w
  pub kick : (w : h.World) → live (h.control_kick w) ≡ live w
  pub get : (w : h.World) → live (h.control_get w).1 ≡ live w

-- The same device in a world with as many buffers
pub recount :
    {W : Type 0} (live : W → ℕ) {d : Device} {v w : W}
    → live w ≡ live v
    → IsCounted live d v
    → IsCounted live d w
recount live same c = record { counted = same ∙ c.counted; adapted = c.adapted }

-- The same buffers on a device
pub relabel :
    {W : Type 0} (live : W → ℕ) {d e : Device} {w : W}
    → e.dma_blocks ≡ d.dma_blocks
    → e.dma_adapter ≡ d.dma_adapter
    → IsCounted live d w
    → IsCounted live e w
relabel live same adapter c = ground (arith, c)

module _ (h : Host) (live : h.World → ℕ) (laws : CommonLaws h live) (quiet : QuietLaws h live) where
  open h use {
    World, pool_alloc, pool_free, delay_us, control_add, control_kick, control_get, response_at,
  }

  message-IsCounted :
      (m : ControlMessage) (d : Device) (w : World)
      → IsCounted live d w
      → let (_, d', w') = free_control_message h m d w in IsCounted live d' w'
  unfolding free_control_message
  message-IsCounted m d w c =
      let (_, d1, w1) = free_dma_buffer h m.request_va d w in
      let c1 = free_dma_buffer-IsCounted h live laws m.request_va d w c in
      recount live (laws.unpool m.address _)
        (free_dma_buffer-IsCounted h live laws m.response_va d1 w1 c1)

  settle-live : (n : ℕ) (m : ControlMessage) (w : World) → live (settle_response h n m w) ≡ live w
  unfolding settle_response
  settle-live zero m w = refl
  settle-live (suc n) m w = ground (arith, settle-live n m (delay_us 10 w), quiet.delay 10 w)

  kicked :
      (kicks : Bool) (d : Device) (w : World)
      → IsCounted live d w
      → IsCounted live d (if kicks then control_kick w else w)
  kicked true d w c = recount live (quiet.kick w) c
  kicked false d w c = c

  poll-IsCounted :
      (fuel : ℕ) (m : ControlMessage) (elapsed : ℕ) (d : Device) (w : World)
      → IsCounted live d w
      → let (_, d', w') = poll_control h fuel m elapsed d w in IsCounted live d' w'
  unfolding poll_control
  poll-IsCounted zero m elapsed d w c = c
  poll-IsCounted (suc fuel) m elapsed d w c =
      let (used, w1) = control_get w in
      let c1 = recount live (quiet.get w) c in
      elim (Option-cases used) [
        | inl e ↦
            let elapsed' = u32 (elapsed + control_poll_delay_us) in
            let w2 = delay_us control_poll_delay_us w1 in
            let w3 = if elapsed' % control_renotify_us == 0 then control_kick w2 else w2 in
            let c2 = recount live (quiet.delay control_poll_delay_us w1) c1 in
            let c3 : IsCounted live d w3 = kicked (elapsed' % control_renotify_us == 0) d w2 c2 in
            rw (e, poll_control)
              (elim (Bool-cases (ltb elapsed' control_timeout_us)) [
                | inl early ↦ rw (early, poll_control) (poll-IsCounted fuel m elapsed' d w3 c3)
                | inr late ↦ rw (late, poll_control) c3
              ])
        | inr (other, e) ↦
            rw (e, poll_control)
              (elim (Bool-cases (other.address == m.address)) [
                | inl mine ↦
                    let w2 = settle_response h 100 m w1 in
                    rw (mine, poll_control)
                      (message-IsCounted m d w2 (recount live (settle-live 100 m w1) c1))
                | inr stale ↦
                    let (_, d', w2) = free_control_message h other d w1 in
                    let c2 = message-IsCounted other d w1 c1 in
                    rw (stale, poll_control)
                      (elim (Bool-cases (ltb elapsed control_timeout_us)) [
                        | inl early ↦
                            rw (early, poll_control) (poll-IsCounted fuel m elapsed d' w2 c2)
                        | inr late ↦ rw (late, poll_control) c2
                      ])
              ])
      ]

  run-IsCounted :
      (m : ControlMessage) (d : Device) (w : World)
      → IsCounted live d w
      → let (_, d', w') = run_message h m d w in IsCounted live d' w'
  unfolding run_message
  run-IsCounted m d w c = elim (Option-cases (control_add m w)) [
    | inl e ↦ rw (e, run_message) c
    | inr (w1, e) ↦
        let w2 = control_kick w1 in
        let c2 = recount live (quiet.kick w1 ∙ quiet.add m w w1 e) c in
        let c3 = poll-IsCounted (poll_fuel h w2) m 0 d w2 c2 in
        rw (e, run_message) (ground (arith, c3))
  ]

  exchange-IsCounted :
      (request : Request) (size address : ℕ) (d : Device) (w : World)
      → IsCounted live d w
      → let (_, d', w') = exchange h request size address d w in IsCounted live d' w'
  unfolding exchange
  exchange-IsCounted request size address d w c =
      let (req, d1, w1) = allocate_dma_buffer h (request_size request) d w in
      let c1 = allocate_dma_buffer-IsCounted h live laws (request_size request) d w c in
      let (resp, d2, w2) = allocate_dma_buffer h size d1 w1 in
      let c2 = allocate_dma_buffer-IsCounted h live laws size d1 w1 c1 in
      let m : ControlMessage = record {
        address = address;
        request = request;
        request_va = va_of req;
        request_pa = pa_of req;
        request_length = request_size request;
        response_va = va_of resp;
        response_pa = pa_of resp;
        response_length = size;
      } in
      let locked = record d2 { control_mutex = d2.control_mutex + 1 } in
      let (outcome, d3, w3) = run_message h m locked w2 in
      let c3 = run-IsCounted m locked w2 (relabel live refl refl c2) in
      let d4 = record d3 { control_mutex = d3.control_mutex - 1 } in
      let c4 : IsCounted live d4 w3 = relabel live refl refl c3 in
      elim (Bool-cases (va_of req == 0 || va_of resp == 0)) [
        | inl missing ↦ rw (missing, exchange) (message-IsCounted m d2 w2 c2)
        | inr both ↦
            rw (both, exchange)
              (elim (Bool-cases outcome.2) [
                | inl left ↦ rw (left, exchange) (message-IsCounted m d4 w3 c4)
                | inr queued ↦ rw (queued, exchange) c4
              ])
      ]

  pub control_command-IsCounted :
      (request : Request) (size : ℕ) (d : Device) (w : World)
      → IsCounted live d w
      → let (_, d', w') = control_command h request size d w in IsCounted live d' w'
  unfolding control_command
  control_command-IsCounted request size d w c =
      elim (Option-cases (pool_alloc control_message_size w).0) [
        | inl e ↦
            rw (e, control_command)
              (ground (arith, c, recount live (laws.pool control_message_size w) c))
        | inr (address, e) ↦
            let w' = (pool_alloc control_message_size w).1 in
            let c' = recount live (laws.pool control_message_size w) c in
            rw (e, control_command)
              (ground (arith, c, exchange-IsCounted request size address d w' c'))
      ]

  query-IsCounted :
      (rounds count attempt : ℕ) (status : NtStatus) (d : Device) (w : World)
      → IsCounted live d w
      → let (_, d', w') = query_attempts h rounds count attempt status d w in IsCounted live d' w'
  unfolding query_attempts
  query-IsCounted zero count attempt status d w c = c
  query-IsCounted (suc rounds) count attempt status d w c =
      let request = query_info r_pcm_info 0 count 32 in
      let ((sent, response), d', w') = control_command h request (4 + count * 32) d w in
      let c1 = control_command-IsCounted request (4 + count * 32) d w c in
      let c2 = recount live (quiet.delay 100000 w') c1 in
      ground (arith, c1, query-IsCounted rounds count (attempt + 1) sent d' (delay_us 100000 w') c2)

  pub query_pcm_streams-IsCounted :
      (d : Device) (w : World)
      → IsCounted live d w
      → let (_, d', w') = query_pcm_streams h d w in IsCounted live d' w'
  unfolding query_pcm_streams
  query_pcm_streams-IsCounted d w c =
      let count = min d.config_streams max_pcm_streams in
      let w1 = (pool_alloc (4 + count * 32) w).1 in
      let c1 = recount live (laws.pool (4 + count * 32) w) c in
      elim (Bool-cases (count == 0)) [
        | inl empty ↦ rw (empty, query_pcm_streams) c
        | inr some_streams ↦
            rw (some_streams, query_pcm_streams)
              (elim (Option-cases (pool_alloc (4 + count * 32) w).0) [
                | inl e ↦ rw (e, query_pcm_streams) c1
                | inr (response, e) ↦
                    rw (e, query_pcm_streams)
                      (recount live (laws.unpool response _)
                        (query-IsCounted pcm_info_retry_count count 0 status_success d w1 c1))
              ])
      ]

-- ===== src/Virtio/Control/Mutex.antt =====
-- The control mutex and the result of ViosndControlCommand in viosnd/sys/ViosndVirtio.cpp.
use viosnd.Base.{
  ℕ, zero, suc, ◌+◌, ◌-◌, ◌≡◌, refl, ◌∙◌, inl, inr, false, Option, none, some, arith, ◌==◌, ◌||◌,
  Bool-cases, Option-cases, u32, ◌%◌, if◌then◌else◌,
}
use viosnd.Status.{NtStatus, nt_success, status_success}
use viosnd.Virtio.Host.{Host, ControlMessage, Request, Response}
use viosnd.Virtio.Device.{Device}
use viosnd.Virtio.Dma.{free_dma_buffer, allocate_dma_buffer, alloc_common_block}
use viosnd.Virtio.Control.{
  poll_control, poll_fuel, free_control_message, run_message, exchange, control_command,
  control_poll_delay_us, control_renotify_us, settle_response, va_of, pa_of, request_size,
  control_message_size,
}

-- A command succeeds exactly if it returns a response.
abbrev pub IsConsistent : NtStatus → Option Response → Type 0
IsConsistent status none = nt_success status ≡ false
IsConsistent status (some r) = status ≡ status_success

module _ (h : Host) where
  open h use {World, control_get, control_add, delay_us, control_kick, pool_alloc}

  free_dma_mutex :
      (va : ℕ) (d : Device) (w : World)
      → (free_dma_buffer h va d w).1.control_mutex ≡ d.control_mutex
  unfolding free_dma_buffer
  free_dma_mutex va d w = ground arith

  free_mutex :
      (m : ControlMessage) (d : Device) (w : World)
      → (free_control_message h m d w).1.control_mutex ≡ d.control_mutex
  unfolding free_control_message
  free_mutex m d w =
      let (_, d1, w1) = free_dma_buffer h m.request_va d w in
      free_dma_mutex m.response_va d1 w1 ∙ free_dma_mutex m.request_va d w

  common_mutex :
      (size address : ℕ) (d : Device) (w : World)
      → (alloc_common_block h size address d w).1.control_mutex ≡ d.control_mutex
  unfolding alloc_common_block
  common_mutex size address d w = ground arith

  allocate_mutex :
      (size : ℕ) (d : Device) (w : World)
      → (allocate_dma_buffer h size d w).1.control_mutex ≡ d.control_mutex
  unfolding allocate_dma_buffer alloc_common_block
  allocate_mutex size d w = ground arith

  poll_mutex :
      (fuel : ℕ) (m : ControlMessage) (elapsed : ℕ) (d : Device) (w : World)
      → (poll_control h fuel m elapsed d w).1.control_mutex ≡ d.control_mutex
  unfolding poll_control
  poll_mutex zero m elapsed d w = refl
  poll_mutex (suc fuel) m elapsed d w =
      let w1 = (control_get w).1 in
      let elapsed' = u32 (elapsed + control_poll_delay_us) in
      let w2 = delay_us control_poll_delay_us w1 in
      let w3 = if elapsed' % control_renotify_us == 0 then control_kick w2 else w2 in
      elim (Option-cases (control_get w).0) [
        | inl e ↦ rw (e, poll_control) (ground (arith, poll_mutex fuel m elapsed' d w3))
        | inr (other, e) ↦
            rw (e, poll_control)
              (elim (Bool-cases (other.address == m.address)) [
                | inl same ↦ rw same (free_mutex m d (settle_response h 100 m w1))
                | inr foreign ↦ rw foreign (
                    let (_, d', w') = free_control_message h other d w1 in
                    let freed = free_mutex other d w1 in
                    ground (arith, poll_mutex fuel m elapsed d' w'))
              ])
      ]

  run_mutex :
      (m : ControlMessage) (d : Device) (w : World)
      → (run_message h m d w).1.control_mutex ≡ d.control_mutex
  unfolding run_message
  run_mutex m d w = elim (Option-cases (control_add m w)) [
    | inl e ↦ rw (e, run_message) refl
    | inr (w1, e) ↦
        rw (e, run_message)
          (let w2 = control_kick w1 in ground (arith, poll_mutex (poll_fuel h w2) m 0 d w2))
  ]

  run-IsConsistent :
      (m : ControlMessage) (d : Device) (w : World)
      → IsConsistent (run_message h m d w).0.0 (run_message h m d w).0.1
  unfolding run_message
  run-IsConsistent m d w = ground arith

  -- The part of `exchange` that holds the mutex, and the cleanup behind it.
  locked_lem :
      (m : ControlMessage) (d : Device) (w : World) (before : ℕ)
      → d.control_mutex ≡ before
      → let (outcome, d3, w3) =
          run_message h m (record d { control_mutex = d.control_mutex + 1 }) w in
        let d4 = record d3 { control_mutex = d3.control_mutex - 1 } in
        let (_, d', w') = if outcome.2 then free_control_message h m d4 w3 else (tt, d4, w3) in
        (d'.control_mutex ≡ before) × IsConsistent outcome.0 outcome.1
  locked_lem m d w before same =
      let taken = record d { control_mutex = d.control_mutex + 1 } in
      let (outcome, d3, w3) = run_message h m taken w in
      let kept = run_mutex m taken w in
      let freed = free_mutex m (record d3 { control_mutex = d3.control_mutex - 1 }) w3 in
      (ground arith, run-IsConsistent m taken w)

  exchange-lem :
      (request : Request) (response_length address : ℕ) (d : Device) (w : World)
      → let ((status, response), d', w') = exchange h request response_length address d w in
        (d'.control_mutex ≡ d.control_mutex) × IsConsistent status response
  unfolding exchange
  exchange-lem request response_length address d w =
      let (req, d1, w1) = allocate_dma_buffer h (request_size request) d w in
      let (resp, d2, w2) = allocate_dma_buffer h response_length d1 w1 in
      let m : ControlMessage = record {
        address = address;
        request = request;
        request_va = va_of req;
        request_pa = pa_of req;
        request_length = request_size request;
        response_va = va_of resp;
        response_pa = pa_of resp;
        response_length = response_length;
      } in
      let same = allocate_mutex response_length d1 w1 ∙ allocate_mutex (request_size request) d w in
      elim (Bool-cases (va_of req == 0 || va_of resp == 0)) [
        | inl failed ↦ rw failed (free_mutex m d2 w2 ∙ same, refl)
        | inr got ↦ rw got (locked_lem m d2 w2 d.control_mutex same)
      ]

  -- ViosndControlCommand leaves the control mutex as it found it, on every branch, and its status is
  -- STATUS_SUCCESS exactly if a response was copied out; otherwise it is an error.
  pub control_command_lem :
      (request : Request) (response_length : ℕ) (d : Device) (w : World)
      → let ((status, response), d', w') = control_command h request response_length d w in
        (d'.control_mutex ≡ d.control_mutex) × IsConsistent status response
  unfolding control_command
  control_command_lem request response_length d w = elim (Bool-cases d.control_queue) [
    | inr none_yet ↦ rw none_yet (refl, refl)
    | inl up ↦ rw up (elim (Option-cases (pool_alloc control_message_size w).0) [
      | inl e ↦ rw (e, control_command) (refl, refl)
      | inr (address, e) ↦
          rw (e, control_command)
            (exchange-lem request response_length address d (pool_alloc control_message_size w).1)
    ])
  ]

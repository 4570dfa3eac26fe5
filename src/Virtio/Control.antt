-- ===== src/Virtio/Control.antt =====
-- The control queue of viosnd/sys/ViosndVirtio.cpp: one command at a time, polled to completion.
pub mod Poll
pub mod Mutex
pub mod Counted
use viosnd.Base.{
  ℕ, zero, suc, ◌+◌, ◌-◌, ◌*◌, ◌%◌, Bool, true, false, ◌||◌, not, List, [], ◌∷◌, Option, none, some,
  ltb, ◌==◌, if◌then◌else◌, u32,
}
use viosnd.Status.{
  NtStatus, status_success, status_device_not_ready, status_insufficient_resources,
  status_device_busy, status_io_timeout,
}
use viosnd.Virtio.Host.{Host, ControlMessage, Request, set_params, pcm_header, query_info, Response}
use viosnd.Virtio.Device.{Device, M, pure, ask, tell, modify, ◌>>=◌, ◌>>◌}
use viosnd.Virtio.Dma.{allocate_dma_buffer, free_dma_buffer}

-- VIOSND_CONTROL_TIMEOUT_MS * 1000, in microseconds
abbrev pub control_timeout_us : ℕ
control_timeout_us = 5000000

abbrev pub control_poll_delay_us : ℕ
control_poll_delay_us = 1000

abbrev pub control_renotify_us : ℕ
control_renotify_us = 100000

-- sizeof of each request
abbrev pub request_size : Request → ℕ
request_size (set_params p) = 24
request_size (pcm_header code stream_id) = 8
request_size (query_info code start_id count size) = 16

-- sizeof(VIOSND_CONTROL_MESSAGE), as the x64 compiler lays it out
abbrev pub control_message_size : ℕ
control_message_size = 48

-- How the polling loop ends; `starved` is the model's fuel running out.
pub data Polled : Type 0 where
  completed : Response → Polled
  timed_out : Polled
  starved : Polled

-- The address of an allocation, NULL if it failed.
abbrev pub va_of : Option (ℕ × ℕ) → ℕ
va_of none = 0
va_of (some (va, pa)) = va

abbrev pub pa_of : Option (ℕ × ℕ) → ℕ
pa_of none = 0
pa_of (some (va, pa)) = pa

module _ (h : Host) where
  open h use {
    World, pool_alloc, pool_free, delay_us, control_add, control_kick, control_get, control_queued,
    response_at,
  }

  -- ViosndFreeControlMessage, at a message that is not NULL
  unfoldable pub free_control_message : ControlMessage → M World (Unit {0})
  free_control_message m = do
    free_dma_buffer h m.request_va
    free_dma_buffer h m.response_va
    tell (pool_free m.address)

  -- The wait of up to `n` rounds for a header that is not 0; it ends at once for a response that is
  -- too short to hold one.
  unfoldable pub settle_response : ℕ → ControlMessage → World → World
  settle_response zero m w = w
  settle_response (suc n) m w =
      let later = settle_response n m (delay_us 10 w) in
      if ltb m.response_length 4 || not ((response_at m w).code == 0) then w else later

  -- The do loop of ViosndControlCommand, from the elapsed microseconds on. A completion of an older
  -- message is freed, and does not count as a round.
  unfoldable pub poll_control : ℕ → ControlMessage → ℕ → M World Polled
  poll_control zero m elapsed d w = (starved, d, w)
  poll_control (suc fuel) m elapsed d w =
      let (used, w1) = control_get w in
      elim used [
        | none ↦
            let elapsed' = u32 (elapsed + control_poll_delay_us) in
            let w2 = delay_us control_poll_delay_us w1 in
            let w3 = if elapsed' % control_renotify_us == 0 then control_kick w2 else w2 in
            elim (ltb elapsed' control_timeout_us) [
              | true ↦ poll_control fuel m elapsed' d w3
              | false ↦ (timed_out, d, w3)
            ]
        | some other ↦ elim (other.address == m.address) [
          | true ↦
              let w2 = settle_response 100 m w1 in
              let (_, d', w3) = free_control_message m d w2 in
              (completed (response_at m w2), d', w3)
          | false ↦
              let (_, d', w2) = free_control_message other d w1 in
              elim (ltb elapsed control_timeout_us) [
                | true ↦ poll_control fuel m elapsed d' w2
                | false ↦ (timed_out, d', w2)
              ]
        ]
      ]

  -- Enough rounds for the poll: one for each message on the queue and one for each millisecond.
  abbrev pub poll_fuel : World → ℕ
  poll_fuel w = control_queued w + 5001

  -- ViosndControlCommand between the two uses of the mutex: the status, the response if it was
  -- copied out, and whether the message is left to be freed. A timed-out message stays on the queue.
  unfoldable pub run_message : ControlMessage → M World (NtStatus × Option Response × Bool)
  run_message m d w = elim (control_add m w) [
    | none ↦ ((status_device_busy, none, true), d, w)
    | some w1 ↦
        let w2 = control_kick w1 in
        let (polled, d', w') = poll_control (poll_fuel w2) m 0 d w2 in
        elim polled [
          | completed r ↦ ((status_success, some r, false), d', w')
          | timed_out ↦ ((status_io_timeout, none, false), d', w')
          | starved ↦ ((status_io_timeout, none, false), d', w')
        ]
  ]

  -- ViosndControlCommand with the message's pool block at `address`: the buffers, the lock around
  -- the exchange, and the cleanup.
  unfoldable pub exchange : Request → ℕ → ℕ → M World (NtStatus × Option Response)
  unfolding free_control_message run_message
  exchange request response_length address d w =
      let (req, d1, w1) = allocate_dma_buffer h (request_size request) d w in
      let (resp, d2, w2) = allocate_dma_buffer h response_length d1 w1 in
      let m : ControlMessage = record {
        address = address;
        request = request;
        request_va = va_of req;
        request_pa = pa_of req;
        request_length = request_size request;
        response_va = va_of resp;
        response_pa = pa_of resp;
        response_length = response_length;
      } in
      if va_of req == 0 || va_of resp == 0
      then (let (_, d', w') = free_control_message m d2 w2 in
          ((status_insufficient_resources, none), d', w'))
      else (let (outcome, d3, w3) =
            run_message m (record d2 { control_mutex = d2.control_mutex + 1 }) w2 in
          let d4 = record d3 { control_mutex = d3.control_mutex - 1 } in
          let (_, d', w') = if outcome.2 then free_control_message m d4 w3 else (tt, d4, w3) in
          ((outcome.0, outcome.1), d', w'))

  -- ViosndControlCommand: the status, and the response if it was copied out
  unfoldable pub control_command : Request → ℕ → M World (NtStatus × Option Response)
  unfolding exchange
  control_command request response_length d w =
      if not d.control_queue
      then ((status_device_not_ready, none), d, w)
      else let (block, w') = pool_alloc control_message_size w in
        elim block [
          | none ↦ ((status_insufficient_resources, none), d, w')
          | some address ↦ exchange request response_length address d w'
        ]

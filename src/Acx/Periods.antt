-- ===== src/Acx/Periods.antt =====
-- The periods of a stream of viosnd/sys/ViosndAcxCircuit.cpp: one DMA buffer set for each packet that
-- can be on a virtqueue.
pub mod Pump
use viosnd.Base.{
  ℕ, zero, suc, ◌+◌, ◌*◌, ◌%◌, Bool, true, false, ◌&&◌, ◌||◌, not, Option, none, some, ltb, ◌==◌,
  if◌then◌else◌, u32, take, [],
}
use viosnd.Status.{
  NtStatus, status_success, status_device_not_ready, status_insufficient_resources,
  status_device_busy, status_invalid_parameter, nt_success,
}
use viosnd.Virtio.Io.{xfer_size, pcm_status_size}
use viosnd.Acx.Host.{AcxHost, Period}
use viosnd.Acx.Stream.{AcxStream, AcxQueues, set_at, count_xrun}
use viosnd.Acx.Ready.{peek_render_packet, pop_render_packet}
use viosnd.Pcm.{default_period_bytes}

-- ViosndClampPeriodCount
unfoldable pub clamp_period_count : ℕ → ℕ
clamp_period_count n = if ltb n 2 then 4 else if ltb 64 n then 64 else n

-- ViosndGetPacketVa: the index of the packet's buffer, if there is one
unfoldable pub get_packet_va : AcxStream → ℕ → Option ℕ
get_packet_va s packet =
    let index = packet % s.packet_count in
    if s.packet_buffers_va == 0 || s.packet_count == 0 || s.packet_size == 0
    then none
    else if s.packet_buffers index == 0
    then none
    else some index

-- sizeof(VIOSND_ACX_PERIOD), as the x64 compiler lays it out
abbrev pub period_size : ℕ
period_size = 88

abbrev pub zero_period : Period
zero_period = record {
  packet_number = 0;
  period_length = 0;
  request_va = 0;
  request_length = 0;
  audio_va = 0;
  status_va = 0;
  header_stream_id = 0;
  payload = [];
  in_flight = false;
}

-- The first of `n` periods, from index `i` on, that is not in flight.
unfoldable pub free_period : ℕ → ℕ → (ℕ → Period) → Option ℕ
free_period zero i periods = none
free_period (suc n) i periods =
    let later = free_period n (i + 1) periods in if not (periods i).in_flight then some i else later

-- ViosndStreamHasInFlight's loop
unfoldable pub any_in_flight : ℕ → ℕ → (ℕ → Period) → Bool
any_in_flight zero i periods = false
any_in_flight (suc n) i periods =
    let later = any_in_flight n (i + 1) periods in if (periods i).in_flight then true else later

unfoldable pub has_in_flight : AcxStream → Bool
unfolding any_in_flight
has_in_flight s =
    let found = any_in_flight s.period_count 0 s.periods in
    if s.periods_va == 0 then false else found

-- The address of an allocation, NULL if it failed.
abbrev pub address_of : Option ℕ → ℕ
address_of none = 0
address_of (some va) = va

module _ (h : AcxHost) where
  open h use {World, pool_alloc, pool_free, dma_alloc, dma_free, queue_add, queue_kick}

  -- ViosndAcxAllocDma: the address, NULL if there is no memory
  unfoldable pub acx_alloc_dma : ℕ → World → ℕ × World
  acx_alloc_dma size w = let (va, w') = dma_alloc size w in (address_of va, w')

  -- ViosndAcxFreeDma
  unfoldable pub acx_free_dma : ℕ → World → World
  acx_free_dma va w = if not (va == 0) then dma_free va w else w

  -- The loop of ViosndFreeStreamPeriods, over `n` periods from index `i` on
  unfoldable pub free_periods : ℕ → ℕ → (ℕ → Period) → World → World
  unfolding acx_free_dma
  free_periods zero i periods w = w
  free_periods (suc n) i periods w =
      let p = periods i in
      let w1 = acx_free_dma p.request_va w in
      let w2 = acx_free_dma p.audio_va w1 in
      free_periods n (i + 1) periods (acx_free_dma p.status_va w2)

  -- ViosndFreeStreamPeriods
  unfoldable pub free_stream_periods : AcxStream → World → AcxStream × World
  unfolding free_periods
  free_stream_periods s w =
      let w' = pool_free s.periods_va (free_periods s.period_count 0 s.periods w) in
      if s.periods_va == 0
      then (s, w)
      else (record s { periods_va = 0; period_count = 0; period_bytes = 0; buffer_bytes = 0 }, w')

  -- The allocations of one period: the period, and whether it has all it needs.
  unfoldable pub prepare_period : AcxStream → World → (Period × Bool) × World
  unfolding acx_alloc_dma
  prepare_period s w =
      let size = if s.capture then xfer_size else u32 (xfer_size + s.period_bytes) in
      let (request, w1) = acx_alloc_dma size w in
      let (status, w2) = acx_alloc_dma pcm_status_size w1 in
      let (audio, w3) = if s.capture then acx_alloc_dma s.period_bytes w2 else (0, w2) in
      let p = record zero_period {
        period_length = s.period_bytes;
        request_length = size;
        request_va = request;
        status_va = status;
        audio_va = audio;
      } in
      ((p, not (request == 0 || status == 0 || (s.capture && audio == 0))), w3)

  -- The loop of ViosndPrepareStreamPeriods, over `n` periods from index `i` on
  unfoldable pub prepare_periods : ℕ → ℕ → AcxStream → World → NtStatus × AcxStream × World
  unfolding prepare_period free_stream_periods
  prepare_periods zero i s w = (status_success, s, w)
  prepare_periods (suc n) i s w =
      let ((p, complete), w1) = prepare_period s w in
      let s1 = record s { periods = set_at i p s.periods } in
      let rest = prepare_periods n (i + 1) s1 w1 in
      let (s2, w2) = free_stream_periods s1 w1 in
      if not complete then (status_insufficient_resources, s2, w2) else rest

  -- ViosndPrepareStreamPeriods
  unfoldable pub prepare_stream_periods : AcxStream → World → NtStatus × AcxStream × World
  unfolding prepare_periods clamp_period_count
  prepare_stream_periods s w =
      let count = clamp_period_count s.packet_count in
      let bytes = if not (s.packet_size == 0) then s.packet_size else default_period_bytes in
      if not (s.periods_va == 0)
      then (status_success, s, w)
      else if bytes == 0 || ltb 262144 bytes
      then (status_invalid_parameter, s, w)
      else let (block, w1) = pool_alloc (count * period_size) w in
        elim block [
          | none ↦ (status_insufficient_resources, s, w1)
          | some va ↦
              prepare_periods count 0
                (record s {
                  periods_va = va;
                  periods = λ i. zero_period;
                  period_count = count;
                  period_bytes = bytes;
                  buffer_bytes = bytes * count;
                })
                w1
        ]

  -- Puts a period on its queue: the status, the stream and the world.
  unfoldable pub place_period : ℕ → Period → AcxStream → World → NtStatus × AcxStream × World
  place_period i p s w = elim (queue_add s.capture i p w) [
    | none ↦ (status_device_busy, record s { periods = set_at i p s.periods }, w)
    | some w1 ↦
        let placed = record p { in_flight = true } in
        (status_success, record s { periods = set_at i placed s.periods }, queue_kick s.capture w1)
  ]

  -- ViosndSubmitRenderPacket
  unfoldable pub acx_submit_render_packet :
      AcxQueues → ℕ → AcxStream → World → NtStatus × AcxStream × World
  unfolding get_packet_va free_period place_period
  acx_submit_render_packet d packet s w =
      if s.capture
        || s.periods_va == 0
        || s.period_count == 0
        || s.packet_count == 0
        || not d.tx_queue
      then (status_device_not_ready, s, w)
      else elim (get_packet_va s packet) [
        | none ↦ (status_device_not_ready, s, w)
        | some index ↦ elim (free_period s.period_count 0 s.periods) [
          | none ↦ (status_device_busy, s, w)
          | some i ↦
              let p = record (s.periods i) {
                header_stream_id = s.stream_id;
                payload = take s.period_bytes (s.contents index);
                packet_number = packet;
                period_length = s.period_bytes;
              } in
              place_period i p s w
        ]
      ]

  -- The loop of ViosndPumpRenderQueue, for `fuel` rounds
  unfoldable pub pump_loop : ℕ → AcxQueues → AcxStream → World → AcxStream × World
  unfolding peek_render_packet pop_render_packet acx_submit_render_packet
  pump_loop zero d s w = (s, w)
  pump_loop (suc fuel) d s w = elim (peek_render_packet s) [
    | none ↦ (s, w)
    | some packet ↦
        let (status, s1, w1) = acx_submit_render_packet d packet s w in
        let rest = pump_loop fuel d (pop_render_packet s1) w1 in
        if status == status_device_busy
        then (s1, w1)
        else if not (nt_success status)
        then (pop_render_packet (count_xrun s1), w1)
        else rest
  ]

  -- ViosndPumpRenderQueue; each round but the last takes a packet from the ring.
  unfoldable pub pump_render_queue : AcxQueues → AcxStream → World → AcxStream × World
  unfolding pump_loop
  pump_render_queue d s w =
      let (t, w') = pump_loop s.ready_count d (record s { render_pump_active = true }) w in
      if s.capture || not s.prepared || s.render_pump_active
      then (s, w)
      else (record t { render_pump_active = false }, w')

  -- ViosndSubmitCapturePeriod, of the period of index `i`
  unfoldable pub submit_capture_period :
      AcxQueues → ℕ → ℕ → AcxStream → World → NtStatus × AcxStream × World
  unfolding place_period
  submit_capture_period d i packet s w =
      if not s.capture || not d.rx_queue
      then (status_device_not_ready, s, w)
      else if (s.periods i).in_flight
      then (status_device_busy, s, w)
      else let p = record (s.periods i) {
        header_stream_id = s.stream_id;
        packet_number = packet;
        period_length = s.period_bytes;
      } in
        place_period i p s w

-- ===== src/Acx/Device/Ready.antt =====
-- Which state of the ACX device its power callbacks leave, viosnd/sys/ViosndAcxDriver.cpp.
use viosnd.Base.{
  ℕ, zero, suc, ◌+◌, ◌*◌, ◌≡◌, ◌∙◌, ◌⊎◌, inr, subst, refl, sym, true, false, not, ◌==◌, arith,
  branches, choices, if◌then◌else◌,
}
use viosnd.Status.{NtStatus, nt_success}
use viosnd.Acx.Host.{AcxHost}
use viosnd.Acx.Drain.{acx_post_event}
use viosnd.Acx.Periods.{acx_alloc_dma}
use viosnd.Acx.Control.{acx_query_pcm_streams}
use viosnd.Pcm.{has_bit}
use viosnd.Acx.Stream.{AcxQueues}
use viosnd.Acx.Device.{
  AcxDevice, AcxBus, no_queues, post_buffers, acx_initialize_event_queue, initialize_virtio,
  query_streams,
}

module _ (h : AcxHost) (bus : AcxBus h) where
  open h use {World}

  -- Queue pointers of a device without queues: none, or those that a failed call of
  -- VirtIOWdfInitQueues wrote.
  abbrev pub IsLeft : AcxQueues → Type 0
  IsLeft q =
      (q ≡ no_queues)
      ⊎ ((w : World) × (nt_success (bus.init_queues w).0.0 ≡ false) × (q ≡ (bus.init_queues w).0.1))

  -- The interrupt's flag VirtioReady is set only with queues, and a device without queues has no
  -- pointer to one but what a failed call left, and no pool of event buffers, nor any counted.
  pub record IsUp (d : AcxDevice) : Type 0 where
    pub serves : d.virtio_ready ≡ true → d.queues_ready ≡ true
    pub pointers : d.queues_ready ≡ false → IsLeft d.queues
    pub pool : d.queues_ready ≡ false → d.event_pool_va ≡ 0
    pub counted : d.queues_ready ≡ false → d.event_buffer_count ≡ 0

  -- The same, as what is left when the device is stopped
  pub record IsDown (d : AcxDevice) : Type 0 where
    pub idle : d.virtio_ready ≡ false
    pub closed : d.queues_ready ≡ false
    pub left : IsLeft d.queues
    pub no_pool : d.event_pool_va ≡ 0
    pub none_counted : d.event_buffer_count ≡ 0

  -- The fields of the invariant are the same.
  pub record IsSame (d : AcxDevice) (e : AcxDevice) : Type 0 where
    pub virtio : e.virtio_ready ≡ d.virtio_ready
    pub ready : e.queues_ready ≡ d.queues_ready
    pub pointers : e.queues ≡ d.queues
    pub pool : e.event_pool_va ≡ d.event_pool_va
    pub count : e.event_buffer_count ≡ d.event_buffer_count

  pub alike : {d : AcxDevice} (e : AcxDevice) → IsSame d e → IsUp d → IsUp e
  alike e same v = record {
    serves = λ up. same.ready ∙ v.serves (sym same.virtio ∙ up);
    pointers = λ down. subst IsLeft (sym same.pointers) (v.pointers (sym same.ready ∙ down));
    pool = λ down. same.pool ∙ v.pool (sym same.ready ∙ down);
    counted = λ down. same.count ∙ v.counted (sym same.ready ∙ down);
  }

  pub record Rises (r : NtStatus × AcxDevice × World) : Type 0 where
    pub up : IsUp r.1

  pub IsDown-IsUp : (d : AcxDevice) → IsDown d → IsUp d
  IsDown-IsUp d v = record {
    serves = λ up. absurd (ground (arith, up, v.idle));
    pointers = λ _. v.left;
    pool = λ _. v.no_pool;
    counted = λ _. v.none_counted;
  }

  -- A device with queues
  pub open_lem : (d : AcxDevice) → d.queues_ready ≡ true → IsUp d
  open_lem d e = record {
    serves = λ _. e;
    pointers = λ f. absurd (ground (arith, e, f));
    pool = λ f. absurd (ground (arith, e, f));
    counted = λ f. absurd (ground (arith, e, f));
  }

  -- The same, and with queues after a success
  pub record Opens (r : NtStatus × AcxDevice × World) : Type 0 where
    pub up : IsUp r.1
    pub opens : nt_success r.0 ≡ true → r.1.queues_ready ≡ true

  failed :
      (status : NtStatus) (d : AcxDevice) (w : World)
      → IsUp d
      → not (nt_success status) ≡ true
      → Opens (status, d, w)
  failed status d w v e = record { up = v; opens = λ good. absurd (ground (arith, e, good)) }

  post_buffers-open :
      (n i : ℕ) (d : AcxDevice) (w : World)
      → d.queues_ready ≡ true
      → Opens (post_buffers h bus n i d w)
  unfolding post_buffers
  post_buffers-open zero i d w e = record { up = open_lem d e; opens = λ _. e }
  post_buffers-open (suc n) i d w e =
      let (status, w1) = acx_post_event h d.queues i (not (d.event_pool_va + i * 8 == 0)) w in
      branches Opens (not (nt_success status)) (λ _. record { up = open_lem d e; opens = λ _. e })
        (λ _.
          post_buffers-open n (i + 1) (record d { event_buffer_count = d.event_buffer_count + 1 })
            w1 e)

  events-open :
      (d : AcxDevice) (w : World)
      → d.queues_ready ≡ true
      → Opens (acx_initialize_event_queue h bus d w)
  unfolding acx_initialize_event_queue
  events-open d w e =
      let (va, w1) = acx_alloc_dma h 4096 w in
      branches Opens (not d.queues.event_queue) (λ _. record { up = open_lem d e; opens = λ _. e })
        (λ _.
          branches Opens (va == 0) (λ _. record { up = open_lem _ e; opens = λ _. e })
            (λ _.
              let posted = post_buffers-open 8 0 (record d { event_pool_va = va }) w1 e in
              record { up = posted.up; opens = posted.opens }))

  pub initialize_virtio-IsUp :
      (d : AcxDevice) (w : World) → IsUp d → Opens (initialize_virtio h bus d w)
  unfolding initialize_virtio
  initialize_virtio-IsUp d w v =
      let (features, w1) = bus.device_features w in
      let wanted = if has_bit features 4294967296 then 4294967296 else 0 in
      let (accepted, w2) = bus.set_driver_features wanted w1 in
      let ((status, queues), w3) = bus.init_queues w2 in
      let (streams, w4) = bus.get_streams w3 in
      let opened = record d { queues = queues; queues_ready = true; config_streams = streams } in
      branches Opens (not (nt_success accepted)) (failed accepted d w2 v) (λ _.
        branches Opens (not (nt_success status))
          (λ bad.
            let written : IsUp (record d { queues = queues }) = record {
              serves = v.serves;
              pointers = λ _. inr (w2, ground (arith, bad), refl);
              pool = v.pool;
              counted = v.counted;
            } in
            failed status (record d { queues = queues }) w3 written bad)
          (λ _. events-open opened w4 refl))

  pub query_streams-IsUp : (d : AcxDevice) (w : World) → IsUp d → Rises (query_streams h bus d w)
  unfolding query_streams
  query_streams-IsUp d w v =
      choices Rises (acx_query_pcm_streams h d.queues d.config_streams w).0.1
        (λ _. record { up = v })
        (λ p _. record {
          up =
              alike (record d { pair = p })
                (record { virtio = refl; ready = refl; pointers = refl; pool = refl; count = refl })
                v;
        })

-- ===== src/Acx/Device/Power.antt =====
-- The power and interrupt callbacks of viosnd/sys/ViosndAcxDriver.cpp, in any order.
use viosnd.Base.{
  ◌≡◌, ◌∙◌, inl, subst, refl, sym, true, false, ◌&&◌, not, List, [], ◌∷◌, arith, branches, choices,
  if◌then◌else◌,
}
use viosnd.Status.{NtStatus, nt_success, status_success, status_device_not_ready}
use viosnd.Acx.Host.{AcxHost}
use viosnd.Acx.Control.{acx_query_pcm_streams}
use viosnd.Acx.Device.{
  AcxDevice, AcxBus, free_event_buffers, stop_device, close_queues, acx_destroy_device,
  initialize_virtio, query_streams, give_up, add_static_circuits, remove_static_circuits, add_one,
  prepare_circuits, device_prepare_hardware, device_release_hardware, d0_entry, d0_exit,
  interrupt_dpc,
}
use viosnd.Acx.Device.Ready.{
  IsLeft, IsUp, IsDown, alike, Rises, IsDown-IsUp, open_lem, initialize_virtio-IsUp,
  query_streams-IsUp,
}

-- What PnP, power and the interrupt do
pub data Power : Type 0 where
  prepares : Power
  releases : Power
  wakes : Power
  sleeps : Power
  interrupts : Power

module _ (h : AcxHost) (bus : AcxBus h) where
  open h use {World}

  -- The callbacks of viosnd/sys/ViosndAcxDriver.cpp
  unfoldable pub power : Power → AcxDevice → World → AcxDevice × World
  power prepares d w = let (status, d', w') = device_prepare_hardware h bus d w in (d', w')
  power releases d w = device_release_hardware h bus d w
  power wakes d w = let (status, d', w') = d0_entry h bus d w in (d', w')
  power sleeps d w = d0_exit h bus d w
  power interrupts d w = interrupt_dpc h bus d w

  unfoldable pub power_all : List Power → AcxDevice → World → AcxDevice × World
  power_all [] d w = (d, w)
  power_all (event ∷ rest) d w = let (d', w') = power event d w in power_all rest d' w'

  -- Stopping the streams leaves the rest.
  record Idles (d : AcxDevice) (r : AcxDevice × World) : Type 0 where
    idle : r.0.virtio_ready ≡ false
    ready : r.0.queues_ready ≡ d.queues_ready
    pointers : r.0.queues ≡ d.queues
    pool : r.0.event_pool_va ≡ d.event_pool_va
    count : r.0.event_buffer_count ≡ d.event_buffer_count

  stop_device-Idles : (d : AcxDevice) (w : World) → Idles d (stop_device h bus d w)
  unfolding stop_device
  stop_device-Idles d w =
      branches (Idles d) d.virtio_ready
        (λ _. record { idle = refl; ready = refl; pointers = refl; pool = refl; count = refl })
        (λ e. record { idle = e; ready = refl; pointers = refl; pool = refl; count = refl })

  -- A device whose streams are stopped has its queues closed.
  record Closes (r : AcxDevice × World) : Type 0 where
    idle : r.0.virtio_ready ≡ false
    closed : r.0.queues_ready ≡ false
    left : IsLeft h bus r.0.queues

  close_queues-Closes :
      (d : AcxDevice) (w : World)
      → d.virtio_ready ≡ false
      → IsUp h bus d
      → Closes (close_queues h bus d w)
  unfolding close_queues
  close_queues-Closes d w e v =
      branches Closes d.queues_ready (λ _. record { idle = e; closed = refl; left = inl refl })
        (λ shut. record { idle = e; closed = shut; left = v.pointers shut })

  stopped-IsUp : (d : AcxDevice) (w : World) → IsUp h bus d → IsUp h bus (stop_device h bus d w).0
  stopped-IsUp d w v =
      let s = stop_device-Idles d w in
      record {
        serves = λ up. absurd (ground (arith, up, s.idle));
        pointers = λ down. subst (IsLeft h bus) (sym s.pointers) (v.pointers (sym s.ready ∙ down));
        pool = λ down. s.pool ∙ v.pool (sym s.ready ∙ down);
        counted = λ down. s.count ∙ v.counted (sym s.ready ∙ down);
      }

  acx_destroy_device-IsDown :
      (d : AcxDevice) (w : World) → IsUp h bus d → IsDown h bus (acx_destroy_device h bus d w).0
  unfolding acx_destroy_device free_event_buffers
  acx_destroy_device-IsDown d w v =
      let (d1, w1) = stop_device h bus d w in
      let c = close_queues-Closes d1 w1 (stop_device-Idles d w).idle (stopped-IsUp d w v) in
      record {
        idle = c.idle;
        closed = c.closed;
        left = c.left;
        no_pool = refl;
        none_counted = refl;
      }

  give_up-IsUp :
      (status : NtStatus) (d : AcxDevice) (w : World)
      → IsUp h bus d
      → Rises h bus (give_up h bus status d w)
  unfolding give_up
  give_up-IsUp status d w v = record {
    up = IsDown-IsUp h bus _ (acx_destroy_device-IsDown d (bus.set_driver_failed w) v);
  }

  -- Another record of the circuits, or of the streams
  recorded :
      {d : AcxDevice} (e : AcxDevice)
      → e.virtio_ready ≡ d.virtio_ready
      → e.queues_ready ≡ d.queues_ready
      → e.queues ≡ d.queues
      → e.event_pool_va ≡ d.event_pool_va
      → e.event_buffer_count ≡ d.event_buffer_count
      → IsUp h bus d × (d.queues_ready ≡ true)
      → IsUp h bus e × (e.queues_ready ≡ true)
  recorded e a b p q n (v, o) =
      (alike h bus e (record { virtio = a; ready = b; pointers = p; pool = q; count = n }) v, b ∙ o)

  -- Adding circuits to a device with queues
  record Stays (r : NtStatus × AcxDevice × World) : Type 0 where
    up : IsUp h bus r.1 × (r.1.queues_ready ≡ true)

  add_static_circuits-Stays :
      (d : AcxDevice) (w : World)
      → IsUp h bus d × (d.queues_ready ≡ true)
      → Stays (add_static_circuits h bus d w)
  unfolding add_static_circuits
  add_static_circuits-Stays d w v =
      let Up : AcxDevice → Type 0 = λ e. IsUp h bus e × (e.queues_ready ≡ true) in
      let renders = d.pair.has_render && not d.render_circuit_added in
      let (status, w1) =
        if renders then add_one h bus false d.render_circuit w else (status_success, w) in
      let d1 = if renders then record d { render_circuit_added = true } else d in
      let records = d.pair.has_capture && not d.capture_circuit_added in
      let (later, w2) = if records then add_one h bus true d.capture_circuit w1 else (status, w1) in
      let d2 = if records then record d1 { capture_circuit_added = true } else d1 in
      let v1 : Up d1 = branches Up renders (λ _. recorded _ refl refl refl refl refl v) (λ _. v) in
      let v2 : Up d2 =
        branches Up records (λ _. recorded _ refl refl refl refl refl v1) (λ _. v1) in
      branches Stays (not (nt_success status)) (λ _. record { up = v })
        (λ _.
          branches Stays (not (nt_success later)) (λ _. record { up = v1 })
            (λ _. record { up = v2 }))

  remove_static_circuits-IsUp :
      (d : AcxDevice) (w : World) → IsUp h bus d → IsUp h bus (remove_static_circuits h bus d w).0
  unfolding remove_static_circuits
  remove_static_circuits-IsUp d w v =
      let captures = d.capture_circuit_added && d.capture_circuit in
      let (status, w1) =
        if captures then bus.remove_circuit true w else (status_device_not_ready, w) in
      let d1 = if nt_success status then record d { capture_circuit_added = false } else d in
      let renders = d.render_circuit_added && d.render_circuit in
      let (later, w2) =
        if renders then bus.remove_circuit false w1 else (status_device_not_ready, w1) in
      let v1 : IsUp h bus d1 =
        branches (IsUp h bus) (nt_success status)
          (λ _.
            alike h bus _
              (record { virtio = refl; ready = refl; pointers = refl; pool = refl; count = refl })
              v)
          (λ _. v) in
      branches (IsUp h bus) (nt_success later)
        (λ _.
          alike h bus _
            (record { virtio = refl; ready = refl; pointers = refl; pool = refl; count = refl }) v1)
        (λ _. v1)

  prepare_circuits-IsUp :
      (d : AcxDevice) (w : World)
      → IsUp h bus d
      → d.queues_ready ≡ true
      → Rises h bus (prepare_circuits h bus d w)
  unfolding prepare_circuits
  prepare_circuits-IsUp d w v o =
      let (status, d1, w1) = add_static_circuits h bus d w in
      let (d2, w2) = remove_static_circuits h bus d1 w1 in
      let (v1, o1) = (add_static_circuits-Stays d w (v, o)).up in
      branches (Rises h bus) (nt_success status)
        (λ _. record { up = open_lem h bus (record d1 { virtio_ready = true }) o1 })
        (λ _. give_up-IsUp status d2 w2 (remove_static_circuits-IsUp d1 w1 v1))

  query_streams-open :
      (d : AcxDevice) (w : World) → (query_streams h bus d w).1.queues_ready ≡ d.queues_ready
  unfolding query_streams
  query_streams-open d w =
      choices (λ (r : NtStatus × AcxDevice × World). r.1.queues_ready ≡ d.queues_ready)
        (acx_query_pcm_streams h d.queues d.config_streams w).0.1 (λ _. refl) (λ _ _. refl)

  device_prepare_hardware-IsUp :
      (d : AcxDevice) (w : World) → IsUp h bus d → Rises h bus (device_prepare_hardware h bus d w)
  unfolding device_prepare_hardware
  device_prepare_hardware-IsUp d w v =
      let (found, w1) = bus.initialize w in
      let (status, d2, w2) = initialize_virtio h bus d w1 in
      let (queried, d3, w3) = query_streams h bus d2 w2 in
      let o2 = initialize_virtio-IsUp h bus d w1 v in
      let v3 = query_streams-IsUp h bus d2 w2 o2.up in
      branches (Rises h bus) (not (nt_success found)) (λ _. record { up = v })
        (λ _.
          branches (Rises h bus) (not (nt_success status)) (λ _. give_up-IsUp status d2 w2 o2.up)
            (λ good.
              branches (Rises h bus) (not (nt_success queried))
                (λ _. give_up-IsUp queried d3 w3 v3.up)
                (λ _.
                  prepare_circuits-IsUp d3 w3 v3.up
                    (query_streams-open d2 w2 ∙ o2.opens (ground (arith, good))))))

  d0_entry-IsUp : (d : AcxDevice) (w : World) → IsUp h bus d → Rises h bus (d0_entry h bus d w)
  unfolding d0_entry
  d0_entry-IsUp d w v =
      let (status, d1, w1) = initialize_virtio h bus d w in
      let (queried, d2, w2) = query_streams h bus d1 w1 in
      let o1 = initialize_virtio-IsUp h bus d w v in
      branches (Rises h bus) d.queues_ready (λ _. record { up = v })
        (λ _.
          branches (Rises h bus) (not (nt_success status)) (λ _. give_up-IsUp status d1 w1 o1.up)
            (λ good.
              branches (Rises h bus) (not (nt_success queried))
                (λ _. give_up-IsUp queried d2 w2 (query_streams-IsUp h bus d1 w1 o1.up).up)
                (λ _. record {
                  up =
                      open_lem h bus (record d2 { virtio_ready = true })
                        (query_streams-open d1 w1 ∙ o1.opens (ground (arith, good)));
                })))

  d0_exit-IsUp : (d : AcxDevice) (w : World) → IsUp h bus d → IsUp h bus (d0_exit h bus d w).0
  unfolding d0_exit free_event_buffers
  d0_exit-IsUp d w v =
      let (d1, w1) = stop_device h bus d w in
      let s = stop_device-Idles d w in
      branches (λ (r : AcxDevice × World). IsUp h bus r.0) d1.queues_ready
        (λ _. record {
          serves = λ up. absurd (ground (arith, up, s.idle));
          pointers = λ _. inl refl;
          pool = λ _. refl;
          counted = λ _. refl;
        })
        (λ _. stopped-IsUp d w v)

  interrupt_dpc-IsUp :
      (d : AcxDevice) (w : World) → IsUp h bus d → IsUp h bus (interrupt_dpc h bus d w).0
  unfolding interrupt_dpc
  interrupt_dpc-IsUp d w v =
      branches (λ (r : AcxDevice × World). IsUp h bus r.0) d.virtio_ready
        (λ _.
          alike h bus _
            (record { virtio = refl; ready = refl; pointers = refl; pool = refl; count = refl }) v)
        (λ _. v)

  -- Whatever order the PnP and power manager prepares, wakes, interrupts, puts to sleep and releases
  -- the device in, and whichever of its calls fail, VirtioReady is set only while QueuesReady is; and
  -- without QueuesReady there is no pool of event buffers and none is counted, and the pointers to
  -- the virtqueues are NULL, or are what a failed VirtIOWdfInitQueues wrote; if that held before.
  pub power_all-IsUp :
      (events : List Power) (d : AcxDevice) (w : World)
      → IsUp h bus d
      → IsUp h bus (power_all events d w).0
  unfolding power_all power device_release_hardware
  power_all-IsUp [] d w v = v
  power_all-IsUp (prepares ∷ rest) d w v =
      power_all-IsUp rest _ _ (device_prepare_hardware-IsUp d w v).up
  power_all-IsUp (releases ∷ rest) d w v =
      power_all-IsUp rest _ _
        (IsDown-IsUp h bus _ (acx_destroy_device-IsDown _ _ (remove_static_circuits-IsUp d w v)))
  power_all-IsUp (wakes ∷ rest) d w v = power_all-IsUp rest _ _ (d0_entry-IsUp d w v).up
  power_all-IsUp (sleeps ∷ rest) d w v = power_all-IsUp rest _ _ (d0_exit-IsUp d w v)
  power_all-IsUp (interrupts ∷ rest) d w v = power_all-IsUp rest _ _ (interrupt_dpc-IsUp d w v)

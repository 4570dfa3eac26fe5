-- ===== src/Acx/Periods/Pump.antt =====
-- The pump of the render queue of viosnd/sys/ViosndAcxCircuit.cpp ends.
use viosnd.Base.{
  ℕ, zero, suc, ◌≤◌, ◌≡◌, refl, ap, not, ◌||◌, ◌==◌, none, some, inl, inr, arith, if◌then◌else◌,
  branches, choices, Option-cases,
}
use viosnd.Status.{NtStatus, nt_success, status_device_busy}
use viosnd.Acx.Host.{AcxHost, Period}
use viosnd.Acx.Stream.{AcxStream, AcxQueues, count_xrun}
use viosnd.Acx.Ready.{peek_render_packet, pop_render_packet}
use viosnd.Acx.Periods.{
  get_packet_va, free_period, place_period, acx_submit_render_packet, pump_loop,
}

module _ (h : AcxHost) where
  open h use {World, queue_add}

  place-ready_count :
      (i : ℕ) (p : Period) (s : AcxStream) (w : World)
      → (place_period h i p s w).1.ready_count ≡ s.ready_count
  unfolding place_period
  place-ready_count i p s w =
      choices (λ (r : NtStatus × AcxStream × World). r.1.ready_count ≡ s.ready_count)
        (queue_add s.capture i p w) (λ _. refl) (λ _ _. refl)

  submit-ready_count :
      (d : AcxQueues) (packet : ℕ) (s : AcxStream) (w : World)
      → (acx_submit_render_packet h d packet s w).1.ready_count ≡ s.ready_count
  unfolding acx_submit_render_packet
  submit-ready_count d packet s w =
      let Same : NtStatus × AcxStream × World → Type 0 = λ r. r.1.ready_count ≡ s.ready_count in
      branches Same
        (s.capture
          || s.periods_va == 0
          || s.period_count == 0
          || s.packet_count == 0
          || not d.tx_queue)
        (λ _. refl)
        (λ _.
          choices Same (get_packet_va s packet) (λ _. refl)
            (λ index _.
              choices Same (free_period s.period_count 0 s.periods) (λ _. refl)
                (λ i _. place-ready_count i _ s w)))

  peek-none : (s : AcxStream) → s.ready_count ≡ 0 → peek_render_packet s ≡ none
  unfolding peek_render_packet
  peek-none s e = ground (arith, e)

  pop-less :
      (n packet : ℕ) (s t : AcxStream)
      → peek_render_packet s ≡ some packet
      → t.ready_count ≡ s.ready_count
      → s.ready_count ≤ suc n
      → (pop_render_packet t).ready_count ≤ n
  unfolding peek_render_packet pop_render_packet
  pop-less n packet s t e same small = ground (arith, e, same, small)

  -- However many rounds the loop of ViosndPumpRenderQueue is allowed, it does what it does in as many
  -- rounds as there are ready packets, or in any other number of rounds that is enough for them: it
  -- ends by itself, since each round but the last takes a packet from the ring.
  pub pump_loop-ends :
      (f g : ℕ) (d : AcxQueues) (s : AcxStream) (w : World)
      → s.ready_count ≤ f
      → s.ready_count ≤ g
      → pump_loop h f d s w ≡ pump_loop h g d s w
  unfolding pump_loop
  pump_loop-ends zero zero d s w a b = refl
  pump_loop-ends zero (suc g) d s w a b = rw (peek-none s (omega (arith, a)), pump_loop) refl
  pump_loop-ends (suc f) zero d s w a b = rw (peek-none s (omega (arith, b)), pump_loop) refl
  pump_loop-ends (suc f) (suc g) d s w a b = elim (Option-cases (peek_render_packet s)) [
    | inl e ↦ rw (e, pump_loop) refl
    | inr (packet, e) ↦
        let (status, s1, w1) = acx_submit_render_packet h d packet s w in
        let same = submit-ready_count d packet s w in
        rw (e, pump_loop)
          (ap
            (λ rest.
              if status == status_device_busy
              then (s1, w1)
              else if not (nt_success status)
              then (pop_render_packet (count_xrun s1), w1)
              else rest)
            (pump_loop-ends f g d (pop_render_packet s1) w1 (pop-less f packet s s1 e same a)
              (pop-less g packet s s1 e same b)))
  ]

-- ===== src/Acx/Tracked/Runs.antt =====
-- The life of a prepared stream of viosnd/sys/ViosndAcxCircuit.cpp as a sequence of calls.
use viosnd.Base.{
  ℕ, zero, suc, ◌+◌, ◌≡◌, refl, sym, ◌∙◌, Bool, true, false, ◌||◌, not, List, [], ◌∷◌, ◌==◌, subst,
  branches, choices, arith, leb,
}
use viosnd.Status.{NtStatus, nt_success, status_device_busy}
use viosnd.Protocol.{r_pcm_start}
use viosnd.Acx.Host.{AcxHost, Period}
use viosnd.Acx.Stream.{AcxStream, AcxQueues}
use viosnd.Acx.Ready.{queue_render_packet, make_room, append_ready}
use viosnd.Acx.Periods.{pump_render_queue, submit_capture_period, place_period}
use viosnd.Acx.Drain.{drain_stream_queue, stop_stream}
use viosnd.Acx.Calls.{submit_all, feed_stream, start_stream, set_render_packet}
use viosnd.Acx.Control.{acx_pcm_command}
use viosnd.Acx.Control.Quiet.{Quiet, acx_pcm_command-view}
use viosnd.Acx.Tracked.{
  QueueLaws, IsTracked, Leaves, Gives, untouched, pump_render_queue-IsTracked,
  submit_capture-IsTracked,
}
use viosnd.Acx.Tracked.Drained.{drain_stream_queue-IsTracked, stop_stream-IsTracked}

-- What happens to a prepared stream: an interrupt, a packet of the audio stack, a start, and a stop
-- that releases the stream or does not.
pub data Call : Type 0 where
  interrupts : Call
  sets : ℕ → Call
  starts : Call
  stops : Bool → Call

module _ (h : AcxHost) where
  open h use {World}

  -- The code of a call
  unfoldable pub answer : Call → AcxQueues → AcxStream → World → AcxStream × World
  answer interrupts d s w = drain_stream_queue h d s w
  answer (sets packet) d s w = let (status, s', w') = set_render_packet h d packet s w in (s', w')
  answer starts d s w = let (status, s', w') = start_stream h d s w in (s', w')
  answer (stops release) d s w = stop_stream h release d s w

  unfoldable pub answer_all : List Call → AcxQueues → AcxStream → World → AcxStream × World
  answer_all [] d s w = (s, w)
  answer_all (call ∷ rest) d s w = let (s', w') = answer call d s w in answer_all rest d s' w'

module _ (h : AcxHost) (on_queue : Bool → ℕ → h.World → ℕ) (laws : QueueLaws h on_queue)
    (quiet : (c : Bool) (j : ℕ) → Quiet h (on_queue c j)) where
  open h use {World, queue_add}

  abbrev Tracks : Bool → AcxStream → World → Type 0
  Tracks = IsTracked h on_queue

  place-period_count :
      (i : ℕ) (p : Period) (s : AcxStream) (w : World)
      → (place_period h i p s w).1.period_count ≡ s.period_count
  unfolding place_period
  place-period_count i p s w =
      choices (λ (r : NtStatus × AcxStream × World). r.1.period_count ≡ s.period_count)
        (queue_add s.capture i p w) (λ _. refl) (λ _ _. refl)

  submit-period_count :
      (d : AcxQueues) (i packet : ℕ) (s : AcxStream) (w : World)
      → (submit_capture_period h d i packet s w).1.period_count ≡ s.period_count
  unfolding submit_capture_period
  submit-period_count d i packet s w =
      branches (λ (r : NtStatus × AcxStream × World). r.1.period_count ≡ s.period_count)
        (not s.capture || not d.rx_queue) (λ _. refl)
        (λ _.
          branches (λ (r : NtStatus × AcxStream × World). r.1.period_count ≡ s.period_count)
            (s.periods i).in_flight (λ _. refl) (λ _. place-period_count i _ s w))

  submit_all-IsTracked :
      (n i : ℕ) (d : AcxQueues) (s : AcxStream) (w : World)
      → Tracks true s w
      → n + i ≡ s.period_count
      → Gives h on_queue true (submit_all h n i d s w)
  unfolding submit_all
  submit_all-IsTracked zero i d s w v e = record { tracked = v }
  submit_all-IsTracked (suc n) i d s w v e =
      let (status, s1, w1) = submit_capture_period h d i s.next_capture_packet s w in
      let v1 : Tracks true s1 w1 =
        (submit_capture-IsTracked h on_queue laws d i s.next_capture_packet s w v
          (omega (arith, e))).tracked in
      let e1 : n + (i + 1) ≡ s1.period_count =
        omega (arith, e, submit-period_count d i s.next_capture_packet s w) in
      branches (Gives h on_queue true) (status == status_device_busy)
        (λ _. submit_all-IsTracked n (i + 1) d s1 w1 v1 e1)
        (λ _.
          branches (Gives h on_queue true) (not (nt_success status)) (λ _. record { tracked = v1 })
            (λ _.
              submit_all-IsTracked n (i + 1) d _ w1 (untouched h on_queue laws _ refl refl refl v1)
                e1))

  pump-IsTracked :
      (c : Bool) (d : AcxQueues) (s : AcxStream) (w : World)
      → s.capture ≡ false
      → Tracks c s w
      → Leaves h on_queue c (pump_render_queue h d s w)
  pump-IsTracked c d s w e v =
      let renders : false ≡ c = sym e ∙ v.direction in
      subst (λ b. Leaves h on_queue b (pump_render_queue h d s w)) renders
        (pump_render_queue-IsTracked h on_queue laws d s w
          (subst (λ b. Tracks b s w) (sym renders) v))

  feed_stream-IsTracked :
      (c : Bool) (d : AcxQueues) (s : AcxStream) (w : World)
      → Tracks c s w
      → Gives h on_queue c (feed_stream h d s w)
  unfolding feed_stream
  feed_stream-IsTracked c d s w v =
      branches (Gives h on_queue c) s.capture
        (λ e.
          let records : true ≡ c = sym e ∙ v.direction in
          subst (λ b. Gives h on_queue b (submit_all h s.period_count 0 d s w)) records
            (submit_all-IsTracked s.period_count 0 d s w (subst (λ b. Tracks b s w) (sym records) v)
              (omega arith)))
        (λ e. record { tracked = (pump-IsTracked c d s w e v).tracked })

  start_stream-IsTracked :
      (c : Bool) (d : AcxQueues) (s : AcxStream) (w : World)
      → Tracks c s w
      → Gives h on_queue c (start_stream h d s w)
  unfolding start_stream
  start_stream-IsTracked c d s w v =
      let (submitted, s1, w1) = feed_stream h d s w in
      let v1 : Tracks c s1 w1 = (feed_stream-IsTracked c d s w v).tracked in
      let (status, w2) = acx_pcm_command h d s.stream_id r_pcm_start w1 in
      let v2 : Tracks c s1 w2 = record {
        direction = v1.direction;
        held = λ j.
            acx_pcm_command-view h (on_queue c j) (quiet c j) d s.stream_id r_pcm_start w1
            ∙ v1.held j;
      } in
      let s2 = record s1 { running = true } in
      let v3 : Tracks c s2 w2 = untouched h on_queue laws s2 refl refl refl v2 in
      branches (Gives h on_queue c) (not (nt_success submitted)) (λ _. record { tracked = v1 })
        (λ _.
          branches (Gives h on_queue c) (not (nt_success status))
            (λ _. record { tracked = untouched h on_queue laws _ refl refl refl v2 })
            (λ _. record {
              tracked =
                  (branches (Leaves h on_queue c) s1.capture (λ _. record { tracked = v3 })
                    (λ e. pump-IsTracked c d s2 w2 e v3)).tracked;
            }))

  queued-IsTracked :
      (c : Bool) (packet : ℕ) (s : AcxStream) (w : World)
      → Tracks c s w
      → Tracks c (queue_render_packet packet s).1 w
  unfolding queue_render_packet make_room append_ready
  queued-IsTracked c packet s w v =
      let roomy : Tracks c (make_room s) w =
        branches (λ t. Tracks c t w) (leb s.ready_capacity s.ready_count)
          (λ _. untouched h on_queue laws _ refl refl refl v) (λ _. v) in
      branches (λ (r : NtStatus × AcxStream). Tracks c r.1 w)
        (s.ready_queue_va == 0 || s.ready_capacity == 0) (λ _. v)
        (λ _. untouched h on_queue laws _ refl refl refl roomy)

  set_render_packet-IsTracked :
      (c : Bool) (d : AcxQueues) (packet : ℕ) (s : AcxStream) (w : World)
      → Tracks c s w
      → Gives h on_queue c (set_render_packet h d packet s w)
  unfolding set_render_packet
  set_render_packet-IsTracked c d packet s w v =
      let (status, s1) = queue_render_packet packet s in
      let v1 : Tracks c s1 w = queued-IsTracked c packet s w v in
      branches (Gives h on_queue c) s.capture (λ _. record { tracked = v })
        (λ e.
          branches (Gives h on_queue c) (s.ready_queue_va == 0 || s.ready_capacity == 0)
            (λ _. record { tracked = v })
            (λ _.
              branches (Gives h on_queue c) (not (nt_success status)) (λ _. record { tracked = v1 })
                (λ _.
                  branches (Gives h on_queue c) (not s1.running) (λ _. record { tracked = v1 })
                    (λ _. record {
                      tracked =
                          (pump-IsTracked c d s1 w (v1.direction ∙ sym v.direction ∙ e) v1).tracked;
                    }))))

  -- Whatever sequence of interrupts, packets, starts and stops a prepared stream sees, its virtqueue
  -- holds each of its periods that is marked as in flight exactly once, and no other period, if it
  -- did so before: no DMA buffer is put on the queue twice, and none that the device owns is taken
  -- for free. The virtqueues do as their laws say, and control commands, delays and allocations
  -- leave them.
  pub answer_all-IsTracked :
      (calls : List Call) (c : Bool) (d : AcxQueues) (s : AcxStream) (w : World)
      → IsTracked h on_queue c s w
      → (let (s', w') = answer_all h calls d s w in IsTracked h on_queue c s' w')
  unfolding answer_all answer
  answer_all-IsTracked [] c d s w v = v
  answer_all-IsTracked (interrupts ∷ rest) c d s w v =
      answer_all-IsTracked rest c d _ _
        (drain_stream_queue-IsTracked h on_queue laws quiet c d s w v).tracked
  answer_all-IsTracked (sets packet ∷ rest) c d s w v =
      answer_all-IsTracked rest c d _ _ (set_render_packet-IsTracked c d packet s w v).tracked
  answer_all-IsTracked (starts ∷ rest) c d s w v =
      answer_all-IsTracked rest c d _ _ (start_stream-IsTracked c d s w v).tracked
  answer_all-IsTracked (stops release ∷ rest) c d s w v =
      answer_all-IsTracked rest c d _ _
        (stop_stream-IsTracked h on_queue laws quiet release c d s w v).tracked

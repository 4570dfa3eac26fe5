-- ===== src/Acx/Tracked/Drained.antt =====
-- The drains of viosnd/sys/ViosndAcxCircuit.cpp and the virtqueue of the stream.
use viosnd.Base.{
  ℕ, zero, suc, ◌<◌, ◌≡◌, refl, sym, ◌∙◌, Bool, true, false, not, some, arith, leb, ◌==◌, ◌%◌, ◌+◌,
  branches, choices, if◌then◌else◌, subst,
}
use viosnd.Protocol.{s_ok, r_pcm_stop, r_pcm_release}
use viosnd.Status.{nt_success, status_device_busy}
use viosnd.Acx.Host.{AcxHost, Completed}
use viosnd.Acx.Stream.{AcxStream, AcxQueues, count_xrun}
use viosnd.Acx.Ready.{clear_render_queue}
use viosnd.Acx.Periods.{get_packet_va, submit_capture_period, has_in_flight}
use viosnd.Acx.Drain.{
  retire_period, account_period, store_audio, render_loop, drain_render_queue, resubmit_period,
  capture_loop, drain_capture_queue, drain_stream_queue, idle_loop, wait_for_stream_idle,
  stop_stream,
}
use viosnd.Acx.Tracked.{
  QueueLaws, IsTracked, Leaves, is_flying, retired_lem, untouched, pump_render_queue-IsTracked,
  submit_capture-IsTracked,
}
use viosnd.Acx.Control.{acx_pcm_command}
use viosnd.Acx.Control.Quiet.{Quiet, acx_pcm_command-view}

module _ (h : AcxHost) (on_queue : Bool → ℕ → h.World → ℕ) (laws : QueueLaws h on_queue)
    (quiet : (c : Bool) (j : ℕ) → Quiet h (on_queue c j)) where
  open h use {World, queue_get, packet_complete, used_count, delay_ms}

  abbrev Tracks : Bool → AcxStream → World → Type 0
  Tracks = IsTracked h on_queue

  -- A call that leaves the queue
  moved :
      {c : Bool} {s : AcxStream} {w : World} (w' : World)
      → ((j : ℕ) → on_queue c j w' ≡ on_queue c j w)
      → Tracks c s w
      → Tracks c s w'
  moved w' same v = record { direction = v.direction; held = λ j. same j ∙ v.held j }

  -- What virtqueue_get_buf gives was in flight, and is not any more.
  taken-IsTracked :
      (c : Bool) (k : Completed) (s : AcxStream) (w : World)
      → Tracks c s w
      → (queue_get c w).0 ≡ some k
      → Tracks c (retire_period k.index s) (queue_get c w).1
  unfolding retire_period
  taken-IsTracked c k s w v e =
      let up : is_flying s k.index ≡ true =
        ground (arith, v.held k.index, laws.get_lem c w k e k.index) in
      record {
        direction = v.direction;
        held = λ j.
            let less = sym (laws.get_lem c w k e j) ∙ v.held j ∙ retired_lem s k.index j up in
            omega (arith, less);
      }

  account-IsTracked :
      (c : Bool) (k : Completed) (s : AcxStream) (w : World)
      → Tracks c s w
      → Tracks c (account_period k s) w
  unfolding account_period
  account-IsTracked c k s w v =
      let counted : Tracks c (if not (k.status == s_ok) then count_xrun s else s) w =
        branches (λ t. Tracks c t w) (not (k.status == s_ok))
          (λ _. untouched h on_queue laws _ refl refl refl v) (λ _. v) in
      untouched h on_queue laws _ refl refl refl counted

  store-IsTracked :
      (c : Bool) (k : Completed) (s : AcxStream) (w : World)
      → Tracks c s w
      → Tracks c (store_audio k s) w
  unfolding store_audio
  store-IsTracked c k s w v =
      choices (λ t. Tracks c t w) (get_packet_va s ((s.periods k.index).packet_number % 4294967296))
        (λ _. v) (λ i _. untouched h on_queue laws _ refl refl refl v)

  -- What virtqueue_get_buf gives is a period of the stream, after it is accounted for, too.
  taken-inside :
      (c : Bool) (k : Completed) (s : AcxStream) (w : World)
      → Tracks c s w
      → (queue_get c w).0 ≡ some k
      → k.index < (account_period k (store_audio k (retire_period k.index s))).period_count
  unfolding account_period store_audio retire_period
  taken-inside c k s w v e =
      let t = retire_period k.index s in
      let inside : k.index < s.period_count =
        ground (arith, v.held k.index, laws.get_lem c w k e k.index) in
      let stored : k.index < (store_audio k t).period_count =
        choices (λ (u : AcxStream). k.index < u.period_count)
          (get_packet_va t ((t.periods k.index).packet_number % 4294967296)) (λ _. inside)
          (λ _ _. inside) in
      branches (λ (u : AcxStream). k.index < u.period_count) (not (k.status == s_ok)) (λ _. stored)
        (λ _. stored)

  render_loop-IsTracked :
      (fuel : ℕ) (s : AcxStream) (w : World)
      → Tracks false s w
      → Leaves h on_queue false (render_loop h fuel s w)
  unfolding render_loop
  render_loop-IsTracked zero s w v = record { tracked = v }
  render_loop-IsTracked (suc fuel) s w v =
      choices (Leaves h on_queue false) (queue_get false w).0
        (λ e. record { tracked = moved _ (laws.none_lem false w e) v })
        (λ k e. render_loop-IsTracked fuel _ _ (
          moved _ (laws.notify_lem false _ _)
            (account-IsTracked false k _ _ (taken-IsTracked false k s w v e))))

  resubmit-IsTracked :
      (d : AcxQueues) (i : ℕ) (s : AcxStream) (w : World)
      → Tracks true s w
      → i < s.period_count
      → Leaves h on_queue true (resubmit_period h d i s w)
  unfolding resubmit_period
  resubmit-IsTracked d i s w v inside =
      let (status, s', w') = submit_capture_period h d i s.next_capture_packet s w in
      let v' : Tracks true s' w' =
        (submit_capture-IsTracked h on_queue laws d i s.next_capture_packet s w v inside).tracked in
      branches (Leaves h on_queue true) (not s.running) (λ _. record { tracked = v })
        (λ _.
          branches (Leaves h on_queue true) (nt_success status)
            (λ _. record { tracked = untouched h on_queue laws _ refl refl refl v' })
            (λ _.
              branches (Leaves h on_queue true) (not (status == status_device_busy))
                (λ _. record { tracked = untouched h on_queue laws _ refl refl refl v' })
                (λ _. record { tracked = v' })))

  capture_loop-IsTracked :
      (fuel : ℕ) (d : AcxQueues) (s : AcxStream) (w : World)
      → Tracks true s w
      → Leaves h on_queue true (capture_loop h fuel d s w)
  unfolding capture_loop
  capture_loop-IsTracked zero d s w v = record { tracked = v }
  capture_loop-IsTracked (suc fuel) d s w v =
      choices (Leaves h on_queue true) (queue_get true w).0
        (λ e. record { tracked = moved _ (laws.none_lem true w e) v })
        (λ k e.
          let s1 = account_period k (store_audio k (retire_period k.index s)) in
          let v1 =
            account-IsTracked true k _ _
              (store-IsTracked true k _ _ (taken-IsTracked true k s w v e)) in
          capture_loop-IsTracked fuel d _ _
            (resubmit-IsTracked d k.index s1 _ (moved _ (laws.notify_lem true _ _) v1)
              (taken-inside true k s w v e)).tracked)

  from : {b c : Bool} {s : AcxStream} {w : World} → b ≡ c → Tracks c s w → Tracks b s w
  from {s = s} {w = w} e v = subst (λ a. Tracks a s w) (sym e) v

  pub drain_stream_queue-IsTracked :
      (c : Bool) (d : AcxQueues) (s : AcxStream) (w : World)
      → Tracks c s w
      → Leaves h on_queue c (drain_stream_queue h d s w)
  unfolding drain_stream_queue drain_render_queue drain_capture_queue
  drain_stream_queue-IsTracked c d s w v =
      branches (Leaves h on_queue c) s.capture
        (λ e.
          let records : true ≡ c = sym e ∙ v.direction in
          subst (λ b. Leaves h on_queue b (drain_capture_queue h d s w)) records
            (branches (Leaves h on_queue true) (not d.rx_queue)
              (λ _. record { tracked = from records v })
              (λ _. capture_loop-IsTracked (used_count true w) d s w (from records v))))
        (λ e.
          let renders : false ≡ c = sym e ∙ v.direction in
          subst (λ b. Leaves h on_queue b (drain_render_queue h d s w)) renders
            (branches (Leaves h on_queue false) (not d.tx_queue)
              (λ _. record { tracked = from renders v })
              (λ _.
                pump_render_queue-IsTracked h on_queue laws d _ _
                  (render_loop-IsTracked (used_count false w) s w (from renders v)).tracked)))

  idle_loop-IsTracked :
      (fuel elapsed timeout : ℕ) (c : Bool) (d : AcxQueues) (s : AcxStream) (w : World)
      → Tracks c s w
      → Leaves h on_queue c (idle_loop h fuel elapsed timeout d s w)
  unfolding idle_loop
  idle_loop-IsTracked zero elapsed timeout c d s w v = record { tracked = v }
  idle_loop-IsTracked (suc fuel) elapsed timeout c d s w v =
      let (s1, w1) = drain_stream_queue h d s w in
      let v1 : Tracks c s1 w1 = (drain_stream_queue-IsTracked c d s w v).tracked in
      branches (Leaves h on_queue c) (not (has_in_flight s1)) (λ _. record { tracked = v1 })
        (λ _.
          branches (Leaves h on_queue c) (leb timeout elapsed)
            (λ _. record { tracked = untouched h on_queue laws _ refl refl refl v1 })
            (λ _.
              idle_loop-IsTracked fuel (elapsed + 1) timeout c d s1 (delay_ms w1)
                (moved _ (λ j. (quiet c j).still.delay_lem w1) v1)))

  pub stop_stream-IsTracked :
      (release : Bool) (c : Bool) (d : AcxQueues) (s : AcxStream) (w : World)
      → Tracks c s w
      → Leaves h on_queue c (stop_stream h release d s w)
  unfolding stop_stream wait_for_stream_idle clear_render_queue
  stop_stream-IsTracked release c d s w v =
      let s1 = record s { running = false } in
      let w1 = (acx_pcm_command h d s.stream_id r_pcm_stop w).1 in
      let w2 = (acx_pcm_command h d s.stream_id r_pcm_release w1).1 in
      let stopped : Tracks c s1 w1 =
        moved w1 (λ j. acx_pcm_command-view h (on_queue c j) (quiet c j) d s.stream_id r_pcm_stop w)
          (untouched h on_queue laws s1 refl refl refl v) in
      let cleared : Tracks c (clear_render_queue s1) w1 =
        branches (λ t. Tracks c t w1) s.capture (λ _. stopped)
          (λ _. untouched h on_queue laws _ refl refl refl stopped) in
      branches (Leaves h on_queue c) (not s.prepared)
        (λ _. record { tracked = untouched h on_queue laws s1 refl refl refl v })
        (λ _.
          branches (Leaves h on_queue c) release
            (λ _. record {
              tracked =
                  untouched h on_queue laws _ refl refl refl
                    (idle_loop-IsTracked 1001 0 1000 c d _ w2 (
                      moved w2
                        (λ j.
                          acx_pcm_command-view h (on_queue c j) (quiet c j) d s.stream_id
                            r_pcm_release w1)
                        cleared)).tracked;
            })
            (λ _. idle_loop-IsTracked 21 0 20 c d _ w1 cleared))

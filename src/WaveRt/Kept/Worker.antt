-- ===== src/WaveRt/Kept/Worker.antt =====
-- What the rounds of the worker of viosnd/sys/ViosndWaveRT.cpp leave alone.
use viosnd.Base.{
  ℕ, zero, suc, ◌≡◌, refl, inl, inr, true, List, [], ◌∷◌, arith, not, ◌||◌, Bool-cases, max_ulong,
}
use viosnd.Status.{NtStatus, nt_success}
use viosnd.Virtio.Host.{Host}
use viosnd.Virtio.Device.{Device}
use viosnd.Virtio.Pcm.{stop_pcm, release_pcm, configure_fallback_pcm}
use viosnd.Virtio.Events.{poll_events}
use viosnd.WaveRt.Stream.{Stream, target_outstanding}
use viosnd.WaveRt.Geometry.{fallback_initial_phase}
use viosnd.WaveRt.Render.{
  submit_render_silence_packet, cancel_render_writes, reclaim_render_packets,
}
use viosnd.WaveRt.Capture.{submit_capture_packet, reclaim_capture_packets}
use viosnd.WaveRt.Worker.{
  Choice, packet, silence, cyclic, not_ready, choose, submit_choice, fill_loop, fill_queue, preroll,
  start_fallback, switch_render_to_fallback, maybe_switch_render_fallback, verdict, Verdict, idle,
  start_monitor, passed, stable, switch, render_start_preroll_packets,
}
use viosnd.WaveRt.Thread.{
  Moment, Wait, note_progress, render_round, capture_fill, capture_round, worker_round,
  worker_rounds, final_polls, finish_worker, capture_stop_reclaim_polls,
}
use viosnd.WaveRt.Kept.{Keeps, Keeps-refl, Keeps-trans}
use viosnd.WaveRt.Kept.Render.{
  submit_render_packet-Keeps, submit_render_silence_packet-Keeps, reclaim_render_packets-Keeps,
  cancel_render_writes-Keeps,
}
use viosnd.WaveRt.Kept.Capture.{submit_capture_packet-Keeps, reclaim_capture_packets-Keeps}

module _ (h : Host) where
  open h use {World}

  choice-Keeps :
      (c : Choice) (s : Stream) (d : Device) (w : World) → Keeps s (submit_choice h c s d w).1
  unfolding submit_choice
  choice-Keeps (packet size) s d w = submit_render_packet-Keeps h s.next_submit_packet size s d w
  choice-Keeps silence s d w =
      ground (arith, submit_render_silence_packet-Keeps h s.next_submit_packet s d w)
  choice-Keeps cyclic s d w = submit_render_packet-Keeps h s.next_submit_packet s.packet_size s d w
  choice-Keeps not_ready s d w = Keeps-refl s

  fill_loop-Keeps :
      (fuel target : ℕ) (s : Stream) (d : Device) (w : World)
      → Keeps s (fill_loop h fuel target s d w).1
  unfolding fill_loop
  fill_loop-Keeps zero target s d w = Keeps-refl s
  fill_loop-Keeps (suc fuel) target s d w =
      let (status, t, d', w') = submit_choice h (choose s) s d w in
      ground (
        arith,
        Keeps-refl s,
        choice-Keeps (choose s) s d w,
        Keeps-trans s t (fill_loop h fuel target t d' w').1 (choice-Keeps (choose s) s d w)
            (fill_loop-Keeps fuel target t d' w'),
      )

  fill_queue-Keeps : (s : Stream) (d : Device) (w : World) → Keeps s (fill_queue h s d w).1
  unfolding fill_queue
  fill_queue-Keeps s d w =
      ground
        (arith, Keeps-refl s, fill_loop-Keeps (target_outstanding s) (target_outstanding s) s d w)

  pub preroll-Keeps :
      (left : ℕ) (status : NtStatus) (s : Stream) (d : Device) (w : World)
      → Keeps s (preroll h left status s d w).1
  unfolding preroll
  preroll-Keeps zero status s d w = Keeps-refl s
  preroll-Keeps (suc left) status s d w =
      let (sent, t, d', w') = submit_render_silence_packet h max_ulong s d w in
      let kept = submit_render_silence_packet-Keeps h max_ulong s d w in
      ground (
        arith,
        Keeps-refl s,
        kept,
        Keeps-trans s t (preroll h left sent t d' w').1 kept (preroll-Keeps left sent t d' w'),
      )

  start_fallback-Keeps : (s : Stream) (d : Device) (w : World) → Keeps s (start_fallback h s d w).1
  unfolding start_fallback
  start_fallback-Keeps s d w =
      let (configured, d1, w1) = configure_fallback_pcm h s.stream_id d w in
      ground (arith, Keeps-refl s, preroll-Keeps render_start_preroll_packets configured s d1 w1)

  switch-Keeps :
      (qpc frequency : ℕ) (s : Stream) (d : Device) (w : World)
      → Keeps s (switch_render_to_fallback h qpc frequency s d w).1
  unfolding switch_render_to_fallback
  switch-Keeps qpc frequency s d w =
      let (stopped, d1, w1) = stop_pcm h s.stream_id d w in
      let (released, d2, w2) = release_pcm h s.stream_id d1 w1 in
      let s0 = record s { fallback_attempted = true } in
      let (_, s3, d3, w3) = cancel_render_writes h s0 d2 w2 in
      let s3' = record s3 {
        fallback_active = true;
        render_fallback_phase = fallback_initial_phase;
      } in
      let kept = Keeps-trans s s0 s3 (ground arith) (cancel_render_writes-Keeps h s0 d2 w2) in
      let (status, s4, d4, w4) = start_fallback h s3' d3 w3 in
      let kept' =
        Keeps-trans s s3' s4 (Keeps-trans s s3 s3' kept (ground arith))
          (start_fallback-Keeps s3' d3 w3) in
      elim (Bool-cases (not (nt_success stopped) || not (nt_success released))) [
        | inl failed ↦ rw (failed, switch_render_to_fallback) kept
        | inr fine ↦
            rw (fine, switch_render_to_fallback)
              (elim (Bool-cases (nt_success status)) [
                | inl started ↦
                    rw (started, switch_render_to_fallback)
                      (Keeps-trans s s4 _ kept' (ground arith))
                | inr refused ↦
                    rw (refused, switch_render_to_fallback)
                      (Keeps-trans s s4 _ kept' (ground arith))
              ])
      ]

  act-Keeps :
      (v : Verdict) (qpc later frequency : ℕ) (s : Stream) (d : Device) (w : World)
      → verdict qpc s ≡ v
      → Keeps s (maybe_switch_render_fallback h qpc later frequency s d w).1
  unfolding maybe_switch_render_fallback
  act-Keeps idle qpc later frequency s d w e = rw (e, maybe_switch_render_fallback) (Keeps-refl s)
  act-Keeps start_monitor qpc later frequency s d w e =
      rw (e, maybe_switch_render_fallback) (ground arith)
  act-Keeps passed qpc later frequency s d w e = rw (e, maybe_switch_render_fallback) (ground arith)
  act-Keeps stable qpc later frequency s d w e = rw (e, maybe_switch_render_fallback) (ground arith)
  act-Keeps switch qpc later frequency s d w e =
      rw (e, maybe_switch_render_fallback) (switch-Keeps later frequency s d w)

  note-Keeps : (s : Stream) (d : Device) (w : World) → Keeps s (note_progress h s d w).1
  unfolding note_progress
  note-Keeps s d w = ground arith

  render_round-Keeps :
      (m : Moment) (s : Stream) (d : Device) (w : World) → Keeps s (render_round h m s d w).1
  unfolding render_round
  render_round-Keeps m s d w =
      let (_, d1, w1) = poll_events h d w in
      let (_, s2, d2, w2) = reclaim_render_packets h s d1 w1 in
      let (_, s3, d3, w3) = maybe_switch_render_fallback h m.qpc m.later m.frequency s2 d2 w2 in
      let (_, s4, d4, w4) = note_progress h s3 d3 w3 in
      Keeps-trans s s2 _ (reclaim_render_packets-Keeps h s d1 w1) (
        Keeps-trans s2 s3 _ (act-Keeps _ m.qpc m.later m.frequency s2 d2 w2 refl)
          (Keeps-trans s3 s4 _ (note-Keeps s3 d3 w3) (fill_queue-Keeps s4 d4 w4)))

  capture_fill-Keeps :
      (fuel : ℕ) (s : Stream) (d : Device) (w : World) → Keeps s (capture_fill h fuel s d w).1
  unfolding capture_fill
  capture_fill-Keeps zero s d w = Keeps-refl s
  capture_fill-Keeps (suc fuel) s d w =
      let (status, t, d', w') = submit_capture_packet h s d w in
      let kept = submit_capture_packet-Keeps h s d w in
      ground (
        arith,
        Keeps-refl s,
        kept,
        Keeps-trans s t (capture_fill h fuel t d' w').1 kept (capture_fill-Keeps fuel t d' w'),
      )

  capture_round-Keeps : (s : Stream) (d : Device) (w : World) → Keeps s (capture_round h s d w).1
  unfolding capture_round
  capture_round-Keeps s d w =
      let (_, s1, d1, w1) = reclaim_capture_packets h s d w in
      let s2 = record s1 { last_completed = s1.packet_number } in
      let kept = Keeps-trans s s1 s2 (reclaim_capture_packets-Keeps h s d w) (ground arith) in
      ground (
        arith,
        Keeps-refl s,
        kept,
        Keeps-trans s s2 (capture_fill h s2.capture_target s2 d1 w1).1 kept
            (capture_fill-Keeps s2.capture_target s2 d1 w1),
      )

  pub worker_round-Keeps :
      (m : Moment) (s : Stream) (d : Device) (w : World) → Keeps s (worker_round h m s d w).1
  unfolding worker_round
  worker_round-Keeps m s d w = ground (arith, capture_round-Keeps s d w, render_round-Keeps m s d w)

  pub worker_rounds-Keeps :
      (rounds : List Moment) (s : Stream) (d : Device) (w : World)
      → Keeps s (worker_rounds h rounds s d w).1
  unfolding worker_rounds
  worker_rounds-Keeps [] s d w = Keeps-refl s
  worker_rounds-Keeps (m ∷ rest) s d w =
      let (_, t, d', w') = worker_round h m s d w in
      Keeps-trans s t (worker_rounds h rest t d' w').1 (worker_round-Keeps m s d w)
        (worker_rounds-Keeps rest t d' w')

  final_polls-Keeps :
      (n : ℕ) (s : Stream) (d : Device) (w : World) → Keeps s (final_polls h n s d w).1
  unfolding final_polls
  final_polls-Keeps zero s d w = Keeps-refl s
  final_polls-Keeps (suc n) s d w =
      let (_, t, d', w') = reclaim_capture_packets h s d w in
      ground (
        arith,
        Keeps-refl s,
        Keeps-trans s t (final_polls h n t d' w').1 (reclaim_capture_packets-Keeps h s d w)
            (final_polls-Keeps n t d' w'),
      )

  pub finish_worker-Keeps :
      (wait : Wait) (s : Stream) (d : Device) (w : World) → Keeps s (finish_worker h wait s d w).1
  unfolding finish_worker
  finish_worker-Keeps wait s d w =
      let (_, s1, d1, w1) = worker_rounds h wait.rounds s d w in
      let kept = worker_rounds-Keeps wait.rounds s d w in
      ground (
        arith,
        kept,
        Keeps-trans s s1 (final_polls h capture_stop_reclaim_polls s1 d1 w1).1 kept
            (final_polls-Keeps capture_stop_reclaim_polls s1 d1 w1),
      )

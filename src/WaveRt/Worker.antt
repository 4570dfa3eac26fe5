-- ===== src/WaveRt/Worker.antt =====
-- The render worker of CViosndMiniportWaveRTStream in viosnd/sys/ViosndWaveRT.cpp: keeping the
-- transmit queue filled, and switching a device that is too slow to the fallback format.
pub mod Fill
use viosnd.Base.{
  ℕ, zero, suc, ◌+◌, ◌-◌, ◌*◌, ◌/◌, Bool, true, false, ◌&&◌, ◌||◌, not, List, [], ◌∷◌, leb, ltb,
  ◌==◌, if◌then◌else◌, u64, max_ulong,
}
use viosnd.Base.Int.{ℤ, pos, negsuc, sub_ℕ}
use viosnd.Base.{sub64}
use viosnd.Status.{NtStatus, nt_success, status_success, status_device_not_ready}
use viosnd.Virtio.Host.{Host}
use viosnd.Virtio.Device.{Device}
use viosnd.Virtio.Pcm.{stop_pcm, release_pcm, start_pcm, configure_fallback_pcm}
use viosnd.WaveRt.Packet.{has_writable_render_packet}
use viosnd.WaveRt.Geometry.{fallback_initial_phase}
use viosnd.WaveRt.Clock.{bytes_per_second}
use viosnd.WaveRt.Stream.{Stream, is_run, target_outstanding}
use viosnd.WaveRt.Render.{
  R, submit_render_packet, submit_render_silence_packet, cancel_render_writes,
}

abbrev pub render_start_preroll_packets : ℕ
render_start_preroll_packets = 2

abbrev pub fallback_monitor_ms : ℕ
fallback_monitor_ms = 2000

abbrev pub fallback_trigger_percent : ℕ
fallback_trigger_percent = 65

-- What the fill loop submits next.
pub data Choice : Type 0 where
  packet : ℕ → Choice
  silence : Choice
  cyclic : Choice
  not_ready : Choice

unfoldable pub choose : Stream → Choice
choose s =
    if has_writable_render_packet s.next_submit_packet s.last_os_write_packet
    then packet
        (if s.eos_packet_number == s.next_submit_packet then s.eos_packet_length else s.packet_size)
    else if s.last_os_write_packet == max_ulong
    then (if s.render_preroll_packets == 0 then cyclic else silence)
    else not_ready

-- What MaybeSwitchRenderFallback decides.
pub data Verdict : Type 0 where
  idle start_monitor passed stable switch : Verdict

-- The comparison of MaybeSwitchRenderFallback, at an elapsed counter and a frequency that are
-- positive. The products are ULONGLONGs, and wrap.
unfoldable pub judge : ℕ → ℕ → ℕ → Bool → Verdict
judge elapsed frequency completed active =
    let expected = u64 (elapsed * bytes_per_second) / frequency in
    if ltb (u64 (elapsed * 1000) / frequency) fallback_monitor_ms || expected == 0
    then idle
    else if leb (u64 (expected * fallback_trigger_percent)) (u64 (completed * 100))
    then (if active then stable else passed)
    else switch

unfoldable pub judge_elapsed : ℤ → ℕ → ℕ → Bool → Verdict
unfolding judge
judge_elapsed (negsuc n) frequency completed active = idle
judge_elapsed (pos zero) frequency completed active = idle
judge_elapsed (pos elapsed) frequency completed active = judge elapsed frequency completed active

-- MaybeSwitchRenderFallback up to what it does, at the counter `qpc`
unfoldable pub verdict : ℕ → Stream → Verdict
unfolding judge_elapsed
verdict qpc s =
    if s.capture || (s.fallback_attempted || (not (is_run s.state) || s.qpc_frequency == 0))
    then idle
    else if s.fallback_monitor_start_qpc == 0
    then start_monitor
    else judge_elapsed (sub_ℕ qpc s.fallback_monitor_start_qpc) s.qpc_frequency
        (sub64 s.position s.fallback_monitor_start_position) s.fallback_active

abbrev pub restart_monitor : ℕ → Stream → Stream
restart_monitor qpc s = record s {
  fallback_monitor_start_qpc = qpc;
  fallback_monitor_start_position = s.position;
}

module _ (h : Host) where
  open h use {World}

  -- One round of the fill loop; where the loop breaks without a submission, an error stands for it.
  unfoldable pub submit_choice : Choice → R World NtStatus
  submit_choice (packet size) s d w = submit_render_packet h s.next_submit_packet size s d w
  submit_choice silence s d w =
      let (status, s', d', w') = submit_render_silence_packet h s.next_submit_packet s d w in
      (
        status,
        (if nt_success status
            then record s' { render_preroll_packets = s'.render_preroll_packets - 1 }
            else s'),
        d',
        w',
      )
  submit_choice cyclic s d w = submit_render_packet h s.next_submit_packet s.packet_size s d w
  submit_choice not_ready s d w = (status_device_not_ready, s, d, w)

  -- The fill loop of RenderWorkerLoop. A round that goes on adds one to m_OutstandingWrites.
  unfoldable pub fill_loop : ℕ → ℕ → R World (Unit {0})
  unfolding submit_choice choose
  fill_loop zero target s d w = (tt, s, d, w)
  fill_loop (suc fuel) target s d w =
      let (status, s', d', w') = submit_choice (choose s) s d w in
      let rest = fill_loop fuel target s' d' w' in
      if not (is_run s.state) || leb target s.outstanding_writes
      then (tt, s, d, w)
      else if nt_success status
      then rest
      else (tt, s', d', w')

  -- RenderWorkerLoop from its tests of the state on
  unfoldable pub fill_queue : R World (Unit {0})
  unfolding fill_loop
  fill_queue s d w =
      if not (is_run s.state) || (not s.has_buffer || s.packet_size == 0)
      then (tt, s, d, w)
      else fill_loop (target_outstanding s) (target_outstanding s) s d w

  -- The preroll loop, with `left` packets of silence to submit.
  unfoldable pub preroll : ℕ → NtStatus → R World NtStatus
  preroll zero status s d w = (status, s, d, w)
  preroll (suc left) status s d w =
      let (sent, s', d', w') = submit_render_silence_packet h max_ulong s d w in
      let rest = preroll left sent s' d' w' in
      if leb render_start_preroll_packets s.outstanding_writes
      then (status, s, d, w)
      else if nt_success sent
      then rest
      else (sent, s', d', w')

  -- The start of SwitchRenderToFallback in the fallback format: configure, preroll and start.
  unfoldable pub start_fallback : R World NtStatus
  unfolding preroll
  start_fallback s d w =
      let (configured, d1, w1) = configure_fallback_pcm h s.stream_id d w in
      if not (nt_success configured)
      then (configured, s, d1, w1)
      else let (status, s2, d2, w2) = preroll render_start_preroll_packets configured s d1 w1 in
        if not (nt_success status)
        then (status, s2, d2, w2)
        else let (started, d3, w3) = start_pcm h s.stream_id d2 w2 in (started, s2, d3, w3)

  -- SwitchRenderToFallback, at the counter and the frequency that it reads
  unfoldable pub switch_render_to_fallback : ℕ → ℕ → R World NtStatus
  unfolding start_fallback
  switch_render_to_fallback qpc frequency s d w =
      let (stopped, d1, w1) = stop_pcm h s.stream_id d w in
      let (released, d2, w2) = release_pcm h s.stream_id d1 w1 in
      let (_, s3, d3, w3) = cancel_render_writes h (record s { fallback_attempted = true }) d2 w2 in
      if not (nt_success stopped) || not (nt_success released)
      then ((if nt_success stopped then released else stopped), s3, d3, w3)
      else let (status, s4, d4, w4) =
          start_fallback
            (record s3 { fallback_active = true; render_fallback_phase = fallback_initial_phase })
            d3 w3 in
        if nt_success status
        then (
          status_success,
          record s4 {
            run_start_position = s4.position;
            run_start_qpc = qpc;
            qpc_frequency = frequency;
            fallback_monitor_start_qpc = 0;
            fallback_monitor_start_position = 0;
          },
          d4,
          w4,
        )
        else (status, record s4 { fallback_active = false }, d4, w4)

  -- MaybeSwitchRenderFallback, at the counter `qpc`; `later` and `frequency` are what
  -- SwitchRenderToFallback reads.
  unfoldable pub maybe_switch_render_fallback : ℕ → ℕ → ℕ → R World (Unit {0})
  unfolding verdict switch_render_to_fallback
  maybe_switch_render_fallback qpc later frequency s d w = elim (verdict qpc s) [
    | idle ↦ (tt, s, d, w)
    | start_monitor ↦ (tt, restart_monitor qpc s, d, w)
    | passed ↦ (tt, record s { fallback_attempted = true }, d, w)
    | stable ↦ (tt, restart_monitor qpc s, d, w)
    | switch ↦
        let (_, s', d', w') = switch_render_to_fallback later frequency s d w in (tt, s', d', w')
  ]

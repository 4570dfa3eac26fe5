-- ===== src/WaveRt/Worker/Fill.antt =====
-- The fill loop of the render worker of viosnd/sys/ViosndWaveRT.cpp, its end and its target.
use viosnd.Base.{
  ℕ, zero, suc, ◌+◌, ◌≤◌, ◌≡◌, refl, inl, inr, true, false, List, [], ◌∷◌, arith, ltb, leb, ◌==◌,
  not, ◌||◌, Bool-cases, if◌then◌else◌, u32, max, max_ulong, replicate, length,
}
use viosnd.Status.{NtStatus, nt_success}
use viosnd.Pcm.{fallback_period_bytes, default_period_bytes}
use viosnd.Virtio.Host.{Host, PcmIo}
use viosnd.Virtio.Device.{Device}
use viosnd.WaveRt.Stream.{Stream, is_run, target_outstanding}
use viosnd.WaveRt.Render.{
  Prepared, ready, refused, submit_from_pool, submit_batch, submit_render_packet,
  submit_render_silence_packet, prepare_batch, cut_packet,
}
use viosnd.WaveRt.Worker.{
  Choice, packet, silence, cyclic, not_ready, choose, submit_choice, fill_loop, fill_queue,
}

-- A status that counts one more transfer exactly if it is a success.
abbrev Counts : NtStatus → ℕ → ℕ → Type 0
Counts status before after = after ≡ (if nt_success status then suc before else before)

-- The statuses with which the preparation of a packet gives up are errors.
abbrev RefusesWithError : Prepared → Type 0
RefusesWithError (ready b) = Unit
RefusesWithError (refused status) = nt_success status ≡ false

prepare_refuses : (number : ℕ) (s : Stream) → RefusesWithError (prepare_batch number s)
unfolding prepare_batch
prepare_refuses number s = ground arith

module _ (h : Host) where
  open h use {World}

  from_pool-Counts :
      (pool : List PcmIo) (bytes : List ℕ) (source number : ℕ) (advance : Stream → Stream)
      (s : Stream) (d : Device) (w : World)
      → ((t : Stream) → (advance t).outstanding_writes ≡ t.outstanding_writes)
      → let (status, s', d', w') = submit_from_pool h pool bytes source number advance s d w in
        Counts status s.outstanding_writes s'.outstanding_writes
  unfolding submit_from_pool
  from_pool-Counts [] bytes source number advance s d w keeps = refl
  from_pool-Counts (io ∷ rest) bytes source number advance s d w keeps = ground (
    arith,
    keeps (record s { render_io_pool = rest; outstanding_writes = s.outstanding_writes + 1 }),
  )

  batch-Counts :
      (number : ℕ) (p : Prepared) (s : Stream) (d : Device) (w : World)
      → RefusesWithError p
      → let (status, s', d', w') = submit_batch h number p s d w in
        Counts status s.outstanding_writes s'.outstanding_writes
  unfolding submit_batch
  batch-Counts number (refused status) s d w bad = rw bad refl
  batch-Counts number (ready b) s d w bad =
      from_pool-Counts s.render_io_pool b.bytes b.source_length number
        (λ t. record t { next_submit_packet = u32 (number + b.source_packets) })
        (record s { render_fallback_phase = b.phase }) d w (λ t. refl)

  render_packet-Counts :
      (number size : ℕ) (s : Stream) (d : Device) (w : World)
      → let (status, s', d', w') = submit_render_packet h number size s d w in
        Counts status s.outstanding_writes s'.outstanding_writes
  unfolding submit_render_packet
  render_packet-Counts number size s d w =
      elim (Bool-cases (s.capture || (not s.has_buffer || s.packet_size == 0))) [
        | inl no_buffer ↦ rw no_buffer refl
        | inr go ↦ rw go (elim (Bool-cases (length s.render_io_pool == 0)) [
          | inl no_io ↦ rw no_io refl
          | inr go2 ↦ rw go2 (elim (Bool-cases (ltb size s.packet_size)) [
            | inl short ↦ rw short (
                let cut = cut_packet number s size in
                batch-Counts number (prepare_batch number cut) cut d w (prepare_refuses number cut))
            | inr whole ↦
                rw whole
                  (batch-Counts number (prepare_batch number s) s d w (prepare_refuses number s))
          ])
        ])
      ]

  silence-Counts :
      (number : ℕ) (s : Stream) (d : Device) (w : World)
      → let (status, s', d', w') = submit_render_silence_packet h number s d w in
        Counts status s.outstanding_writes s'.outstanding_writes
  unfolding submit_render_silence_packet
  silence-Counts number s d w =
      let size = if s.fallback_active then fallback_period_bytes else s.packet_size in
      elim (Bool-cases (s.capture || (not s.has_buffer || s.packet_size == 0))) [
        | inl no_buffer ↦ rw no_buffer refl
        | inr go ↦ rw go (elim (Bool-cases (length s.render_io_pool == 0)) [
          | inl no_io ↦ rw no_io refl
          | inr go2 ↦ rw go2 (elim (Bool-cases (ltb default_period_bytes size)) [
            | inl big ↦ rw big refl
            | inr fits ↦ rw fits (
                from_pool-Counts s.render_io_pool (replicate size 0) size number
                  (λ t.
                    if number == max_ulong
                    then t
                    else record t { next_submit_packet = u32 (number + 1) })
                  s d w (λ t. (ground arith)))
          ])
        ])
      ]

  choice-Counts :
      (c : Choice) (s : Stream) (d : Device) (w : World)
      → let (status, s', d', w') = submit_choice h c s d w in
        Counts status s.outstanding_writes s'.outstanding_writes
  unfolding submit_choice
  choice-Counts (packet size) s d w = render_packet-Counts s.next_submit_packet size s d w
  choice-Counts silence s d w =
      let counts = silence-Counts s.next_submit_packet s d w in ground arith
  choice-Counts cyclic s d w = render_packet-Counts s.next_submit_packet s.packet_size s d w
  choice-Counts not_ready s d w = refl

  -- At its target the loop does nothing, whatever its fuel.
  fill_loop-stops :
      (fuel target : ℕ) (s : Stream) (d : Device) (w : World)
      → target ≤ s.outstanding_writes
      → fill_loop h fuel target s d w ≡ (tt, s, d, w)
  unfolding fill_loop
  fill_loop-stops zero target s d w full = refl
  fill_loop-stops (suc fuel) target s d w full =
      let stop : (not (is_run s.state) || leb target s.outstanding_writes) ≡ true = ground arith in
      rw (stop, fill_loop) refl

  fill_loop-lem :
      (fuel more target : ℕ) (s : Stream) (d : Device) (w : World)
      → target ≤ s.outstanding_writes + fuel
      → fuel ≤ more
      → (fill_loop h more target s d w ≡ fill_loop h fuel target s d w)
        × ((fill_loop h fuel target s d w).1.outstanding_writes ≤ max s.outstanding_writes target)
  unfolding fill_loop
  fill_loop-lem zero more target s d w enough le =
      (fill_loop-stops more target s d w (omega arith), omega arith)
  fill_loop-lem (suc fuel) zero target s d w enough le = absurd (omega arith)
  fill_loop-lem (suc fuel) (suc more) target s d w enough le =
      let (status, s', d', w') = submit_choice h (choose s) s d w in
      let counts = choice-Counts (choose s) s d w in
      elim (Bool-cases (not (is_run s.state) || leb target s.outstanding_writes)) [
        | inl done ↦ rw (done, fill_loop) (refl, omega arith)
        | inr going ↦
            rw (going, fill_loop)
              (elim (Bool-cases (nt_success status)) [
                | inl sent ↦
                    rw (sent, fill_loop)
                      (let one : s'.outstanding_writes ≡ suc s.outstanding_writes = ground arith in
                        let rest =
                          fill_loop-lem fuel more target s' d' w' (omega arith) (omega arith) in
                        (rest.0, ground arith))
                | inr failed ↦ rw (failed, fill_loop) (refl, ground arith)
              ])
      ]

  -- The fill loop stops by its own tests: more fuel than the target changes nothing. It leaves at
  -- most as many transfers outstanding as there were before, or as the target asks for.
  pub fill_queue-ends :
      (fuel : ℕ) (s : Stream) (d : Device) (w : World)
      → target_outstanding s ≤ fuel
      → let target = target_outstanding s in
        (fill_loop h fuel target s d w ≡ fill_loop h target target s d w)
        × ((fill_queue h s d w).1.outstanding_writes ≤ max s.outstanding_writes target)
  unfolding fill_queue
  fill_queue-ends fuel s d w enough =
      let target = target_outstanding s in
      let rest = fill_loop-lem target fuel target s d w (omega arith) enough in
      elim (Bool-cases (not (is_run s.state) || (not s.has_buffer || s.packet_size == 0))) [
        | inl off ↦ rw off (rest.0, omega arith)
        | inr on ↦ rw on rest
      ]

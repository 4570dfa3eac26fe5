-- ===== src/WaveRt/Kept/Render.antt =====
-- What the render transfers of viosnd/sys/ViosndWaveRT.cpp leave alone.
use viosnd.Base.{
  ℕ, zero, suc, ◌+◌, ◌≤◌, ◌≡◌, refl, ap, inl, inr, List, [], ◌∷◌, length, arith, ltb, ◌==◌, not,
  ◌||◌, Bool-cases, Option-cases, if◌then◌else◌, u32, max, max_ulong, replicate,
}
use viosnd.Pcm.{fallback_period_bytes}
use viosnd.Virtio.Host.{Host, PcmIo}
use viosnd.Virtio.Device.{Device}
use viosnd.Virtio.Io.{
  Reclaimed, reclaim_prepared_write_pcm, detach_unused_write_pcm, allocate_write_pcm_io,
}
use viosnd.WaveRt.Stream.{Stream}
use viosnd.WaveRt.Render.{
  Prepared, ready, refused, submit_from_pool, submit_batch, submit_render_packet,
  submit_render_silence_packet, prepare_batch, cut_packet, account_completion, return_render_io,
  reclaim_render_loop, reclaim_render_packets, detach_writes, cancel_render_writes,
  render_io_pool_size,
}
use viosnd.WaveRt.Render.Pool.{
  free_render_io_pool, fill_render_pool, ensure_fallback_buffer, allocate_render_io_pool,
}
use viosnd.WaveRt.Kept.{Keeps, Keeps-refl, Keeps-trans}

cut-Keeps : (number : ℕ) (s : Stream) (size : ℕ) → Keeps s (cut_packet number s size)
cut-Keeps number s size = ground arith

account-Keeps : (r : Reclaimed) (io : PcmIo) (s : Stream) → Keeps s (account_completion r io s)
unfolding account_completion
account-Keeps r io s = ground arith

module _ (h : Host) where
  open h use {World}

  from_pool-Keeps :
      (pool : List PcmIo) (bytes : List ℕ) (source number : ℕ) (advance : Stream → Stream)
      (s : Stream) (d : Device) (w : World)
      → ((t : Stream) → Keeps t (advance t))
      → s.render_io_pool ≡ pool
      → Keeps s (submit_from_pool h pool bytes source number advance s d w).1
  unfolding submit_from_pool
  from_pool-Keeps [] bytes source number advance s d w keeps e = Keeps-refl s
  from_pool-Keeps (io ∷ rest) bytes source number advance s d w keeps e =
      let taken = record s {
        render_io_pool = rest;
        outstanding_writes = s.outstanding_writes + 1;
      } in
      ground (
        arith,
        ap length e,
        Keeps-trans s taken (advance taken) (ground (arith, ap length e)) (keeps taken),
      )

  batch-Keeps :
      (number : ℕ) (p : Prepared) (s : Stream) (d : Device) (w : World)
      → Keeps s (submit_batch h number p s d w).1
  unfolding submit_batch
  batch-Keeps number (refused status) s d w = Keeps-refl s
  batch-Keeps number (ready b) s d w =
      let phased = record s { render_fallback_phase = b.phase } in
      let advance : Stream → Stream =
        λ t. record t { next_submit_packet = u32 (number + b.source_packets) } in
      Keeps-trans s phased
        (submit_from_pool h s.render_io_pool b.bytes b.source_length number advance phased d w).1
        (ground arith)
        (from_pool-Keeps s.render_io_pool b.bytes b.source_length number advance phased d w
          (λ t. (ground arith)) refl)

  -- SubmitRenderPacket keeps the state, the worker, the geometry and the pools' bounds.
  pub submit_render_packet-Keeps :
      (number size : ℕ) (s : Stream) (d : Device) (w : World)
      → Keeps s (submit_render_packet h number size s d w).1
  unfolding submit_render_packet
  submit_render_packet-Keeps number size s d w =
      let cut = if ltb size s.packet_size then cut_packet number s size else s in
      ground (
        arith,
        Keeps-refl s,
        Keeps-trans s cut (submit_batch h number (prepare_batch number cut) cut d w).1
            (ground (arith, cut-Keeps number s size))
            (batch-Keeps number (prepare_batch number cut) cut d w),
      )

  pub submit_render_silence_packet-Keeps :
      (number : ℕ) (s : Stream) (d : Device) (w : World)
      → Keeps s (submit_render_silence_packet h number s d w).1
  unfolding submit_render_silence_packet
  submit_render_silence_packet-Keeps number s d w =
      let size = if s.fallback_active then fallback_period_bytes else s.packet_size in
      let advance : Stream → Stream = λ t.
        if number == max_ulong then t else record t { next_submit_packet = u32 (number + 1) } in
      ground (
        arith,
        Keeps-refl s,
        from_pool-Keeps s.render_io_pool (replicate size 0) size number advance s d w
            (λ t. (ground arith)) refl,
      )

  return-Keeps :
      (io : PcmIo) (s : Stream) (d : Device) (w : World) → Keeps s (return_render_io h io s d w).1
  unfolding return_render_io
  return-Keeps io s d w = ground arith

  reclaim_loop-Keeps :
      (fuel : ℕ) (s : Stream) (d : Device) (w : World)
      → Keeps s (reclaim_render_loop h fuel s d w).1
  unfolding reclaim_render_loop
  reclaim_loop-Keeps zero s d w = Keeps-refl s
  reclaim_loop-Keeps (suc fuel) s d w =
      let (r, d1, w1) = reclaim_prepared_write_pcm h d w in
      elim (Option-cases r.io) [
        | inl e ↦ rw (e, reclaim_render_loop) (Keeps-refl s)
        | inr (io, e) ↦
            let t = account_completion r io s in
            let (_, s2, d2, w2) = return_render_io h io t d1 w1 in
            rw (e, reclaim_render_loop)
              (Keeps-trans s t _ (account-Keeps r io s)
                (Keeps-trans t s2 _ (return-Keeps io t d1 w1) (reclaim_loop-Keeps fuel s2 d2 w2)))
      ]

  pub reclaim_render_packets-Keeps :
      (s : Stream) (d : Device) (w : World) → Keeps s (reclaim_render_packets h s d w).1
  unfolding reclaim_render_packets
  reclaim_render_packets-Keeps s d w = reclaim_loop-Keeps _ s d w

  detach-Keeps : (n : ℕ) (s : Stream) (d : Device) (w : World) → Keeps s (detach_writes h n s d w).1
  unfolding detach_writes
  detach-Keeps zero s d w = Keeps-refl s
  detach-Keeps (suc n) s d w =
      let (result, d1, w1) = detach_unused_write_pcm h d w in
      elim (Option-cases result.1) [
        | inl e ↦ rw (e, detach_writes) (Keeps-refl s)
        | inr (io, e) ↦
            let t = record s { outstanding_writes = n } in
            let (_, s2, d2, w2) = return_render_io h io t d1 w1 in
            rw (e, detach_writes)
              (Keeps-trans s t _ (ground arith)
                (Keeps-trans t s2 _ (return-Keeps io t d1 w1) (detach-Keeps n s2 d2 w2)))
      ]

  pub cancel_render_writes-Keeps :
      (s : Stream) (d : Device) (w : World) → Keeps s (cancel_render_writes h s d w).1
  unfolding cancel_render_writes
  cancel_render_writes-Keeps s d w =
      let (_, s1, d1, w1) = reclaim_render_packets h s d w in
      ground (
        arith,
        Keeps-refl s,
        Keeps-trans s s1 (detach_writes h s1.outstanding_writes s1 d1 w1).1
            (reclaim_render_packets-Keeps s d w) (detach-Keeps s1.outstanding_writes s1 d1 w1),
      )

  pub free_render_io_pool-Keeps :
      (s : Stream) (d : Device) (w : World) → Keeps s (free_render_io_pool h s d w).1
  unfolding free_render_io_pool
  free_render_io_pool-Keeps s d w = ground arith

  -- The pool grows by one in each round, or is freed.
  fill_pool-Keeps :
      (n : ℕ) (s : Stream) (d : Device) (w : World)
      → n + length s.render_io_pool ≤ render_io_pool_size
      → Keeps s (fill_render_pool h n s d w).1
  unfolding fill_render_pool
  fill_pool-Keeps zero s d w room = Keeps-refl s
  fill_pool-Keeps (suc n) s d w room =
      let (result, d1, w1) =
        allocate_write_pcm_io h (max s.packet_size fallback_period_bytes) d w in
      elim (Option-cases result.1) [
        | inl e ↦ rw (e, fill_render_pool) (free_render_io_pool-Keeps s d1 w1)
        | inr (io, e) ↦
            let t = record s { render_io_pool = io ∷ s.render_io_pool } in
            rw (e, fill_render_pool)
              (Keeps-trans s t _ (ground arith) (fill_pool-Keeps n t d1 w1 (omega arith)))
      ]

  ensure-Keeps :
      (s : Stream) (d : Device) (w : World)
      → let (_, t, d', w') = ensure_fallback_buffer h s d w in
        Keeps s t × (t.render_io_pool ≡ s.render_io_pool)
  unfolding ensure_fallback_buffer
  ensure-Keeps s d w = ground arith

  pub allocate_render_io_pool-Keeps :
      (s : Stream) (d : Device) (w : World) → Keeps s (allocate_render_io_pool h s d w).1
  unfolding allocate_render_io_pool
  allocate_render_io_pool-Keeps s d w =
      let (got, t, d', w') = ensure_fallback_buffer h s d w in
      let (kept, same) = ensure-Keeps s d w in
      elim (Bool-cases (s.capture || not (length s.render_io_pool == 0))) [
        | inl filled ↦ ground (arith, Keeps-refl s)
        | inr empty ↦ ground (
          arith,
          Keeps-refl s,
          kept,
          Keeps-trans s t (fill_render_pool h render_io_pool_size t d' w').1 kept
              (fill_pool-Keeps render_io_pool_size t d' w' (ground (arith, ap length same))),
        )
      ]

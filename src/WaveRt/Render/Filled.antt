-- ===== src/WaveRt/Render/Filled.antt =====
-- What AllocateRenderIoPool in viosnd/sys/ViosndWaveRT.cpp leaves in the pool.
use viosnd.Base.{
  ℕ, zero, suc, ◌+◌, ◌≡◌, ◌∙◌, refl, ◌⊎◌, inl, inr, false, [], ◌∷◌, none, length, arith, ◌==◌, ◌||◌,
  not, max, Bool-cases, Option-cases,
}
use viosnd.Status.{NtStatus, nt_success, status_success}
use viosnd.Pcm.{fallback_period_bytes}
use viosnd.Virtio.Host.{Host}
use viosnd.Virtio.Device.{Device}
use viosnd.Virtio.Io.{allocate_write_pcm_io, fill_write_io}
use viosnd.WaveRt.Stream.{Stream}
use viosnd.WaveRt.Render.{render_io_pool_size}
use viosnd.WaveRt.Render.Pool.{
  free_render_io_pool, fill_render_pool, ensure_fallback_buffer, allocate_render_io_pool,
}

-- The pool holds `n` transfers and the status is a success, or it is empty and the status an error.
abbrev pub IsFilled : ℕ → NtStatus → Stream → Type 0
IsFilled n status s =
    (status ≡ status_success) × (length s.render_io_pool ≡ n)
    ⊎ (nt_success status ≡ false) × (s.render_io_pool ≡ [])

module _ (h : Host) where
  open h use {World, pool_alloc}

  fill_write_none :
      (size address : ℕ) (d : Device) (w : World)
      → (fill_write_io h size address d w).0.1 ≡ none
      → nt_success (fill_write_io h size address d w).0.0 ≡ false
  unfolding fill_write_io
  fill_write_none size address d w e = ground arith

  write_io_none :
      (size : ℕ) (d : Device) (w : World)
      → (allocate_write_pcm_io h size d w).0.1 ≡ none
      → nt_success (allocate_write_pcm_io h size d w).0.0 ≡ false
  unfolding allocate_write_pcm_io
  write_io_none size d w = elim (Option-cases (pool_alloc 88 w).0) [
    | inl e ↦ rw (e, allocate_write_pcm_io) (λ got. refl)
    | inr (address, e) ↦
        rw (e, allocate_write_pcm_io) (fill_write_none size address d (pool_alloc 88 w).1)
  ]

  freed_empty :
      (s : Stream) (d : Device) (w : World)
      → s.capture ≡ false
      → s.outstanding_writes ≡ 0
      → (free_render_io_pool h s d w).1.render_io_pool ≡ []
  unfolding free_render_io_pool
  freed_empty s d w render idle = rw render (rw idle refl)

  fill_loop-IsFilled :
      (n total : ℕ) (s : Stream) (d : Device) (w : World)
      → n + length s.render_io_pool ≡ total
      → s.capture ≡ false
      → s.outstanding_writes ≡ 0
      → let (status, s', d', w') = fill_render_pool h n s d w in IsFilled total status s'
  unfolding fill_render_pool
  fill_loop-IsFilled zero total s d w sum render idle = inl (refl, omega arith)
  fill_loop-IsFilled (suc n) total s d w sum render idle =
      let size = max s.packet_size fallback_period_bytes in
      let (result, d1, w1) = allocate_write_pcm_io h size d w in
      elim (Option-cases result.1) [
        | inl e ↦
            rw (e, fill_render_pool)
              (inr (write_io_none size d w e, freed_empty s d1 w1 render idle))
        | inr (io, e) ↦
            rw (e, fill_render_pool)
              (fill_loop-IsFilled n total (record s { render_io_pool = io ∷ s.render_io_pool }) d1
                w1 (omega arith) render idle)
      ]

  -- What the fallback buffer's allocation leaves alone.
  ensured :
      (s : Stream) (d : Device) (w : World)
      → let s' = (ensure_fallback_buffer h s d w).1 in
        (s'.capture ≡ s.capture)
        × (s'.outstanding_writes ≡ s.outstanding_writes)
        × (s'.render_io_pool ≡ s.render_io_pool)
  unfolding ensure_fallback_buffer
  ensured s d w = elim (Bool-cases (not (s.fallback_buffer == 0))) [
    | inl have ↦ rw have (refl, refl, refl)
    | inr need ↦
        rw need (elim (Option-cases (pool_alloc (max fallback_period_bytes s.packet_size) w).0) [
          | inl e ↦ rw (e, ensure_fallback_buffer) (refl, refl, refl)
          | inr (address, e) ↦ rw (e, ensure_fallback_buffer) (refl, refl, refl)
        ])
  ]

  -- On a render stream with an empty pool and nothing outstanding, AllocateRenderIoPool succeeds with
  -- all twelve transfers in the pool, or fails with an empty pool.
  pub allocate_render_io_pool-IsFilled :
      (s : Stream) (d : Device) (w : World)
      → s.capture ≡ false
      → s.outstanding_writes ≡ 0
      → s.render_io_pool ≡ []
      → let (status, s', d', w') = allocate_render_io_pool h s d w in
        IsFilled render_io_pool_size status s'
  unfolding allocate_render_io_pool
  allocate_render_io_pool-IsFilled s d w render idle none_yet =
      let (got, s1, d1, w1) = ensure_fallback_buffer h s d w in
      let kept = ensured s d w in
      let empty = kept.2 ∙ none_yet in
      let start : (s.capture || not (length s.render_io_pool == 0)) ≡ false =
        rw render (rw none_yet refl) in
      rw start (elim (Bool-cases (s.packet_size == 0)) [
        | inl unsized ↦ rw unsized (inr (refl, none_yet))
        | inr sized ↦ rw sized (elim (Bool-cases got) [
          | inl made ↦ rw made (
              fill_loop-IsFilled render_io_pool_size render_io_pool_size s1 d1 w1 (rw empty refl)
                (kept.0 ∙ render) (kept.1 ∙ idle))
          | inr failed ↦ rw failed (inr (refl, empty))
        ])
      ])

-- ===== src/WaveRt/Render/Pool.antt =====
-- The pool of render transfers of CViosndMiniportWaveRTStream in viosnd/sys/ViosndWaveRT.cpp: its
-- allocation and its release.
use viosnd.Base.{
  ℕ, zero, suc, ◌==◌, ◌||◌, Bool, true, false, not, List, [], ◌∷◌, none, some, if◌then◌else◌, max,
  length,
}
use viosnd.Status.{NtStatus, status_success, status_device_not_ready, status_insufficient_resources}
use viosnd.Pcm.{fallback_period_bytes}
use viosnd.Virtio.Host.{Host, PcmIo}
use viosnd.Virtio.Device.{Device}
use viosnd.Virtio.Io.{allocate_write_pcm_io, free_write_pcm_io}
use viosnd.WaveRt.Render.{R, render_io_pool_size}

module _ (h : Host) where
  open h use {World, pool_alloc, pool_free}

  unfoldable pub free_ios : List PcmIo → Device → World → Device × World
  free_ios [] d w = (d, w)
  free_ios (io ∷ rest) d w = let (_, d', w') = free_write_pcm_io h io d w in free_ios rest d' w'

  -- FreeRenderIoPool
  unfoldable pub free_render_io_pool : R World (Unit {0})
  unfolding free_ios
  free_render_io_pool s d w =
      if s.capture || not (s.outstanding_writes == 0)
      then (tt, s, d, w)
      else let (d', w') = free_ios s.render_io_pool d w in
        (
          tt,
          record s { render_io_pool = []; fallback_buffer = 0; fallback_buffer_size = 0 },
          d',
          (if s.fallback_buffer == 0 then w' else pool_free s.fallback_buffer w'),
        )

  -- The loop of AllocateRenderIoPool, with `n` transfers left to allocate.
  unfoldable pub fill_render_pool : ℕ → R World NtStatus
  unfolding free_render_io_pool
  fill_render_pool zero s d w = (status_success, s, d, w)
  fill_render_pool (suc n) s d w =
      let (result, d1, w1) =
        allocate_write_pcm_io h (max s.packet_size fallback_period_bytes) d w in
      elim result.1 [
        | none ↦ let (_, s2, d2, w2) = free_render_io_pool s d1 w1 in (result.0, s2, d2, w2)
        | some io ↦ fill_render_pool n (record s { render_io_pool = io ∷ s.render_io_pool }) d1 w1
      ]

  -- The fallback buffer of AllocateRenderIoPool: whether there is one.
  unfoldable pub ensure_fallback_buffer : R World Bool
  ensure_fallback_buffer s d w =
      if not (s.fallback_buffer == 0)
      then (true, s, d, w)
      else let size = max fallback_period_bytes s.packet_size in
        let (block, w') = pool_alloc size w in
        elim block [
          | none ↦ (false, record s { fallback_buffer_size = 0 }, d, w')
          | some address ↦
              (true, record s { fallback_buffer = address; fallback_buffer_size = size }, d, w')
        ]

  -- AllocateRenderIoPool
  unfoldable pub allocate_render_io_pool : R World NtStatus
  unfolding ensure_fallback_buffer fill_render_pool
  allocate_render_io_pool s d w =
      if s.capture || not (length s.render_io_pool == 0)
      then (status_success, s, d, w)
      else if s.packet_size == 0
      then (status_device_not_ready, s, d, w)
      else let (got, s', d', w') = ensure_fallback_buffer s d w in
        if got
        then fill_render_pool render_io_pool_size s' d' w'
        else (status_insufficient_resources, s', d', w')

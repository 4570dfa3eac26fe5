-- ===== src/WaveRt/Capture/Drain.antt =====
-- The end of the loop of ReclaimCapturePackets in viosnd/sys/ViosndWaveRT.cpp.
use viosnd.Base.{
  ◌∙◌, ◌⊎◌, ℕ, zero, suc, ◌+◌, ◌<◌, ◌≡◌, refl, inl, inr, Bool, true, false, Option, none, some,
  arith, ◌==◌, Bool-cases, Option-cases,
}
use viosnd.Status.{status_not_found}
use viosnd.Virtio.Host.{Host, PcmIo, Used}
use viosnd.Virtio.Device.{Device, DmaBlock}
use viosnd.Virtio.Dma.{free_dma_buffer, release_block, unlink_block}
use viosnd.Virtio.Io.Read.{complete_read, reclaim_prepared_read_pcm, free_read_pcm_io}
use viosnd.WaveRt.Stream.{Stream}
use viosnd.WaveRt.Capture.{
  account_reclaimed, return_capture_io, reclaim_capture_loop, reclaim_capture_packets,
}

-- What the receive queue is relied on for: getting a transfer makes its length one less, and freeing
-- memory does not change it.
pub record RxLaws (h : Host) : Type 0 where
  pub got :
      (w : h.World) (u : Used)
      → (h.rx_get w).0 ≡ some u
      → h.rx_queued w ≡ suc (h.rx_queued (h.rx_get w).1)
  pub unpool : (a : ℕ) (w : h.World) → h.rx_queued (h.pool_free a w) ≡ h.rx_queued w
  pub uncommon :
      (size pa va : ℕ) (w : h.World) → h.rx_queued (h.common_free size pa va w) ≡ h.rx_queued w

module _ (h : Host) (laws : RxLaws h) where
  open h use {World, rx_queued, rx_get}

  -- The queue is there, and is as long as in an earlier world.
  abbrev SameQueue : Device → World → Device → World → Type 0
  SameQueue d w d' w' = (d'.rx_queue ≡ d.rx_queue) × (rx_queued w' ≡ rx_queued w)

  released :
      (b : Option DmaBlock) (adapter : Bool) (w : World)
      → rx_queued (release_block h b adapter w) ≡ rx_queued w
  unfolding release_block
  released none adapter w = refl
  released (some b) true w =
      laws.unpool b.address (h.common_free b.size b.logical_address b.va w)
      ∙ laws.uncommon b.size b.logical_address b.va w
  released (some b) false w = laws.unpool b.address w

  freed_dma :
      (va : ℕ) (d : Device) (w : World)
      → SameQueue d w (free_dma_buffer h va d w).1 (free_dma_buffer h va d w).2
  unfolding free_dma_buffer
  freed_dma va d w = ground (arith, released (unlink_block d.dma_blocks va).0 d.dma_adapter w)

  freed_io :
      (io : PcmIo) (d : Device) (w : World)
      → SameQueue d w (free_read_pcm_io h io d w).1 (free_read_pcm_io h io d w).2
  unfolding free_read_pcm_io
  freed_io io d w =
      let (_, d1, w1) = free_dma_buffer h io.request_va d w in
      let (_, d2, w2) = free_dma_buffer h io.audio_va d1 w1 in
      let first = freed_dma io.request_va d w in
      let second = freed_dma io.audio_va d1 w1 in
      (second.0 ∙ first.0, laws.unpool io.address w2 ∙ second.1 ∙ first.1)

  returned :
      (io : Option PcmIo) (s : Stream) (d : Device) (w : World)
      → let (_, s', d', w') = return_capture_io h io s d w in SameQueue d w d' w'
  unfolding return_capture_io
  returned none s d w = (refl, refl)
  returned (some io) s d w = ground (arith, freed_io io d w)

  reclaimed :
      (d : Device) (w : World)
      → d.rx_queue ≡ true
      → let (r, d', w') = reclaim_prepared_read_pcm h d w in
        (d'.rx_queue ≡ true)
        × (((r.status == status_not_found) ≡ true) ⊎ (rx_queued w ≡ suc (rx_queued w')))
  unfolding reclaim_prepared_read_pcm complete_read
  reclaimed d w up = elim (Option-cases (rx_get w).0) [
    | inl e ↦ rw (up, reclaim_prepared_read_pcm) (ground (arith, e))
    | inr (u, e) ↦ rw (up, reclaim_prepared_read_pcm) (ground (arith, laws.got w u e))
  ]

  loop_ends :
      (fuel : ℕ) (s : Stream) (d : Device) (w : World)
      → d.rx_queue ≡ true
      → rx_queued w < fuel
      → (reclaim_capture_loop h fuel s d w).0 ≡ true
  unfolding reclaim_capture_loop
  loop_ends zero s d w up enough = absurd (omega arith)
  loop_ends (suc fuel) s d w up enough =
      let (r, d1, w1) = reclaim_prepared_read_pcm h d w in
      let (_, s2, d2, w2) = return_capture_io h r.io (account_reclaimed h r s) d1 w1 in
      let back = returned r.io (account_reclaimed h r s) d1 w1 in
      let (up1, step) = reclaimed d w up in
      elim (Bool-cases (r.status == status_not_found)) [
        | inl none_left ↦ rw (none_left, reclaim_capture_loop) refl
        | inr some_left ↦
            rw (some_left, reclaim_capture_loop)
              (loop_ends fuel s2 d2 w2 (back.0 ∙ up1) (ground arith))
      ]

  -- With a receive queue, ReclaimCapturePackets ends before the model's fuel does.
  pub reclaim_capture_packets-ends :
      (s : Stream) (d : Device) (w : World)
      → d.rx_queue ≡ true
      → (reclaim_capture_packets h s d w).0 ≡ true
  unfolding reclaim_capture_packets
  reclaim_capture_packets-ends s d w up = loop_ends (rx_queued w + 1) s d w up (omega arith)

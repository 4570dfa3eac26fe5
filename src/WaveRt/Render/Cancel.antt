-- ===== src/WaveRt/Render/Cancel.antt =====
-- The transfers that CancelRenderWrites of viosnd/sys/ViosndWaveRT.cpp takes back.
use viosnd.Base.{
  ◌∙◌, ℕ, zero, suc, ◌<◌, ◌≡◌, refl, sym, inl, inr, Bool, true, false, none, some, length, arith,
  Option-cases, if◌then◌else◌,
}
use viosnd.Virtio.Host.{Host, PcmIo}
use viosnd.Virtio.Device.{Device}
use viosnd.Virtio.Io.{detach_unused_write_pcm, acquire_tx_queue}
use viosnd.WaveRt.Stream.{Stream}
use viosnd.WaveRt.Render.{
  render_io_pool_size, return_render_io, detach_writes, cancel_render_writes,
  reclaim_render_packets,
}
use viosnd.WaveRt.Render.Conservation.{TxLaws, IsConserved, reclaim_render_packets-IsConserved}

-- What detaching is relied on for: a buffer that is detached is one less on the queue, and where none
-- is found the queue's length stays.
pub record DetachLaws (h : Host) : Type 0 where
  pub detached :
      (w : h.World) (io : PcmIo)
      → (h.tx_detach w).0 ≡ some io
      → h.tx_queued w ≡ suc (h.tx_queued (h.tx_detach w).1)
  pub undetached :
      (w : h.World) → (h.tx_detach w).0 ≡ none → h.tx_queued (h.tx_detach w).1 ≡ h.tx_queued w

module _ (h : Host) (laws : TxLaws h) (detach : DetachLaws h) where
  open h use {World, tx_queued, tx_detach, wait_tx}

  acquired : (d : Device) (w : World) → tx_queued (acquire_tx_queue h d w).2 ≡ tx_queued w
  unfolding acquire_tx_queue
  acquired d w = ground (arith, laws.wait w)

  detach_some :
      (d : Device) (w : World) (io : PcmIo)
      → (detach_unused_write_pcm h d w).0.1 ≡ some io
      → tx_queued w ≡ suc (tx_queued (detach_unused_write_pcm h d w).2)
  unfolding detach_unused_write_pcm
  detach_some d w io =
      let w1 = (acquire_tx_queue h d w).2 in
      elim (Option-cases (tx_detach w1).0) [
        | inl e ↦ rw (e, detach_unused_write_pcm) (λ got. absurd (ground arith))
        | inr (b, e) ↦
            rw (e, detach_unused_write_pcm)
              (λ got. ground (arith, acquired d w, detach.detached w1 b e))
      ]

  detach_none :
      (d : Device) (w : World)
      → (detach_unused_write_pcm h d w).0.1 ≡ none
      → tx_queued (detach_unused_write_pcm h d w).2 ≡ tx_queued w
  unfolding detach_unused_write_pcm
  detach_none d w =
      let w1 = (acquire_tx_queue h d w).2 in
      elim (Option-cases (tx_detach w1).0) [
        | inl e ↦ λ got. ground (arith, acquired d w, detach.undetached w1 e)
        | inr (b, e) ↦ λ got. ground (arith, acquired d w, e)
      ]

  returned_queued :
      (io : PcmIo) (s : Stream) (d : Device) (w : World)
      → length s.render_io_pool < render_io_pool_size
      → let (_, s', d', w') = return_render_io h io s d w in
        (tx_queued w' ≡ tx_queued w)
        × (length s'.render_io_pool ≡ suc (length s.render_io_pool))
        × (s'.outstanding_writes ≡ s.outstanding_writes)
  unfolding return_render_io
  returned_queued io s d w room = ground arith

  detach_writes-IsConserved :
      (n : ℕ) (s : Stream) (d : Device) (w : World)
      → s.outstanding_writes ≡ n
      → IsConserved h laws s w
      → let (_, s', d', w') = detach_writes h n s d w in IsConserved h laws s' w'
  unfolding detach_writes
  detach_writes-IsConserved zero s d w e v = v
  detach_writes-IsConserved (suc n) s d w left v =
      let (result, d1, w1) = detach_unused_write_pcm h d w in
      elim (Option-cases result.1) [
        | inl e ↦
            rw (e, detach_writes)
              (record { counted = v.counted ∙ sym (detach_none d w e); all_there = v.all_there })
        | inr (io, e) ↦
            rw (e, detach_writes)
              (let one = detach_some d w io e in
                let s1 : Stream = record s { outstanding_writes = n } in
                let back = returned_queued io s1 d1 w1 (ground arith) in
                let (_, s2, d2, w2) = return_render_io h io s1 d1 w1 in
                detach_writes-IsConserved n s2 d2 w2 back.2
                  (record { counted = ground arith; all_there = ground arith }))
      ]

  either-IsConserved :
      (b : Bool) (x y : Unit {0} × Stream × Device × World)
      → IsConserved h laws x.1 x.3
      → IsConserved h laws y.1 y.3
      → let result = if b then x else y in IsConserved h laws result.1 result.3
  either-IsConserved true x y v u = v
  either-IsConserved false x y v u = u

  -- Where the twelve transfers are in the pool or on the queue, and counted, they still are after
  -- CancelRenderWrites, however far it comes.
  pub cancel_render_writes-IsConserved :
      (s : Stream) (d : Device) (w : World)
      → IsConserved h laws s w
      → let (_, s', d', w') = cancel_render_writes h s d w in IsConserved h laws s' w'
  unfolding cancel_render_writes
  cancel_render_writes-IsConserved s d w v =
      let (ended, s1, d1, w1) = reclaim_render_packets h s d w in
      either-IsConserved s.capture (tt, s, d, w) (detach_writes h s1.outstanding_writes s1 d1 w1) v
        (detach_writes-IsConserved s1.outstanding_writes s1 d1 w1 refl
          (reclaim_render_packets-IsConserved h laws s d w v).1)

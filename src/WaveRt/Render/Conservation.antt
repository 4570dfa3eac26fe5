-- ===== src/WaveRt/Render/Conservation.antt =====
-- Where the transfers of the render side are, in viosnd/sys/ViosndWaveRT.cpp: in the pool or on the
-- transmit queue.
use viosnd.Base.{
  ◌∙◌, ℕ, zero, suc, ◌+◌, ◌<◌, ◌≡◌, refl, ap, inl, inr, true, List, [], ◌∷◌, none, some, length,
  arith, ltb, ◌==◌, not, ◌||◌, Bool-cases, Option-cases, if◌then◌else◌, u32, max, max_ulong,
  replicate,
}
use viosnd.Virtio.Host.{Host, PcmIo, Lengths, Used}
use viosnd.Virtio.Device.{Device}
use viosnd.Pcm.{fallback_period_bytes, default_period_bytes}
use viosnd.Virtio.Io.{
  Reclaimed, acquire_tx_queue, enqueue_write, submit_prepared_write_pcm, reclaim_prepared_write_pcm,
  complete_write, write_lengths, prepare_write, io_found,
}
use viosnd.Status.{nt_success, status_invalid_buffer_size}
use viosnd.WaveRt.Stream.{Stream}
use viosnd.WaveRt.Render.{
  Prepared, ready, refused, submit_from_pool, submit_batch, submit_render_packet,
  submit_render_silence_packet, account_completion, return_render_io, reclaim_render_loop,
  reclaim_render_packets, render_io_pool_size, prepare_batch, cut_packet,
}

-- What the transmit queue is relied on for: adding a transfer makes its length one more, getting a
-- completed one makes it one less, and nothing else changes it.
pub record TxLaws (h : Host) : Type 0 where
  pub add :
      (io : PcmIo) (l : Lengths) (w w' : h.World)
      → h.tx_add io l w ≡ some w'
      → h.tx_queued w' ≡ suc (h.tx_queued w)
  pub got :
      (w : h.World) (u : Used)
      → (h.tx_get w).0 ≡ some u
      → h.tx_queued w ≡ suc (h.tx_queued (h.tx_get w).1)
  pub empty : (w : h.World) → (h.tx_get w).0 ≡ none → h.tx_queued (h.tx_get w).1 ≡ h.tx_queued w
  pub kick : (w : h.World) → h.tx_queued (h.tx_kick w) ≡ h.tx_queued w
  pub wait : (w : h.World) → h.tx_queued (h.wait_tx w).1 ≡ h.tx_queued w

module _ (h : Host) (laws : TxLaws h) where
  open h use {World, tx_queued, tx_add, tx_get, wait_tx, tx_kick}

  -- All twelve transfers are in the pool or on the queue, and the driver's count is the queue's.
  pub record IsConserved (s : Stream) (w : World) : Type 0 where
    pub counted : s.outstanding_writes ≡ tx_queued w
    pub all_there : length s.render_io_pool + s.outstanding_writes ≡ render_io_pool_size

  acquire_queued : (d : Device) (w : World) → tx_queued (acquire_tx_queue h d w).2 ≡ tx_queued w
  unfolding acquire_tx_queue
  acquire_queued d w = ground (arith, laws.wait w)

  enqueue_queued :
      (io : PcmIo) (buffer : List ℕ) (d : Device) (w : World)
      → tx_queued (enqueue_write h io buffer d w).2
        ≡ (if nt_success (enqueue_write h io buffer d w).0 then suc (tx_queued w) else tx_queued w)
  unfolding enqueue_write
  enqueue_queued io buffer d w =
      let w1 = (acquire_tx_queue h d w).2 in
      let same = acquire_queued d w in
      elim (Option-cases (tx_add io (write_lengths h buffer) w1)) [
        | inl full ↦ rw full (ground arith)
        | inr (w2, added) ↦
            rw added
              (ground (arith, laws.add io (write_lengths h buffer) w1 w2 added, laws.kick w2))
      ]

  -- A submission that succeeds puts one transfer on the queue, and one that fails puts none.
  submit_queued :
      (stream : ℕ) (bytes : List ℕ) (source packet : ℕ) (io : PcmIo) (d : Device) (w : World)
      → tx_queued (submit_prepared_write_pcm h stream bytes source packet io d w).2 ≡ (
          if nt_success (submit_prepared_write_pcm h stream bytes source packet io d w).0.0
          then suc (tx_queued w)
          else tx_queued w)
  unfolding submit_prepared_write_pcm
  submit_queued stream bytes source packet io d w =
      ground (arith, enqueue_queued (prepare_write h stream bytes source packet io) bytes d w)

  -- The updates that submissions apply on success leave the transfers alone.
  Keeps : (Stream → Stream) → Type 0
  Keeps advance =
      (s : Stream)
      → ((advance s).outstanding_writes ≡ s.outstanding_writes)
        × ((advance s).render_io_pool ≡ s.render_io_pool)

  submit_from_pool-IsConserved :
      (pool : List PcmIo) (bytes : List ℕ) (source number : ℕ) (advance : Stream → Stream)
      (s : Stream) (d : Device) (w : World)
      → Keeps advance
      → s.render_io_pool ≡ pool
      → IsConserved s w
      → let (_, s', d', w') = submit_from_pool h pool bytes source number advance s d w in
        IsConserved s' w'
  unfolding submit_from_pool Keeps
  submit_from_pool-IsConserved [] bytes source number advance s d w keeps e v = v
  submit_from_pool-IsConserved (io ∷ rest) bytes source number advance s d w keeps e v = ground (
    arith,
    ap length e,
    submit_queued s.stream_id bytes source number io d w,
    keeps (record s { render_io_pool = rest; outstanding_writes = s.outstanding_writes + 1 }),
  )

  submit_batch-IsConserved :
      (number : ℕ) (p : Prepared) (s : Stream) (d : Device) (w : World)
      → IsConserved s w
      → let (_, s', d', w') = submit_batch h number p s d w in IsConserved s' w'
  unfolding submit_batch Keeps
  submit_batch-IsConserved number (refused status) s d w v = v
  submit_batch-IsConserved number (ready b) s d w v =
      submit_from_pool-IsConserved s.render_io_pool b.bytes b.source_length number
        (λ t. record t { next_submit_packet = u32 (number + b.source_packets) })
        (record s { render_fallback_phase = b.phase }) d w (λ t. (refl, refl)) refl
        (record { counted = v.counted; all_there = v.all_there })

  -- Where the twelve transfers are in the pool or on the queue, and counted, they still are after
  -- SubmitRenderPacket, on each of its branches.
  pub submit_render_packet-IsConserved :
      (number size : ℕ) (s : Stream) (d : Device) (w : World)
      → IsConserved s w
      → let (_, s', d', w') = submit_render_packet h number size s d w in IsConserved s' w'
  unfolding submit_render_packet
  submit_render_packet-IsConserved number size s d w v =
      elim (Bool-cases (s.capture || (not s.has_buffer || s.packet_size == 0))) [
        | inl no_buffer ↦ rw no_buffer v
        | inr go ↦ rw go (elim (Bool-cases (length s.render_io_pool == 0)) [
          | inl no_io ↦ rw no_io v
          | inr go2 ↦ rw go2 (elim (Bool-cases (ltb size s.packet_size)) [
            | inl short ↦ rw short (
                submit_batch-IsConserved number (prepare_batch number (cut_packet number s size))
                  (cut_packet number s size) d w
                  (record { counted = v.counted; all_there = v.all_there }))
            | inr whole ↦
                rw whole (submit_batch-IsConserved number (prepare_batch number s) s d w v)
          ])
        ])
      ]

  account-counts :
      (r : Reclaimed) (io : PcmIo) (s : Stream)
      → (suc (account_completion r io s).outstanding_writes ≡ max s.outstanding_writes 1)
        × ((account_completion r io s).render_io_pool ≡ s.render_io_pool)
  unfolding account_completion
  account-counts r io s = ground arith

  -- One round of the reclaim loop that finds a completed transfer.
  round-IsConserved :
      (r : Reclaimed) (io : PcmIo) (s : Stream) (d : Device) (w w1 : World)
      → IsConserved s w
      → tx_queued w ≡ suc (tx_queued w1)
      → let (_, s', d', w') = return_render_io h io (account_completion r io s) d w1 in
        IsConserved s' w'
  unfolding return_render_io
  round-IsConserved r io s d w w1 v one =
      ground (arith, account-counts r io s, ap length (account-counts r io s).1)

  -- A reclaim that finds a transfer takes it off the queue; one that finds none leaves the queue.
  reclaim_queued :
      (d : Device) (w : World)
      → let (r, _, w') = reclaim_prepared_write_pcm h d w in
        tx_queued w ≡ (if io_found r.io then suc (tx_queued w') else tx_queued w')
  unfolding reclaim_prepared_write_pcm complete_write
  reclaim_queued d w =
      let w1 = (acquire_tx_queue h d w).2 in
      elim (Option-cases (tx_get w1).0) [
        | inl e ↦ ground (arith, acquire_queued d w, laws.empty w1 e)
        | inr (u, e) ↦ ground (arith, acquire_queued d w, laws.got w1 u e)
      ]

  reclaim_none :
      (d : Device) (w : World)
      → (reclaim_prepared_write_pcm h d w).0.io ≡ none
      → tx_queued w ≡ tx_queued (reclaim_prepared_write_pcm h d w).2
  reclaim_none d w e = ground (arith, reclaim_queued d w, ap io_found e)

  reclaim_some :
      (d : Device) (w : World) (io : PcmIo)
      → (reclaim_prepared_write_pcm h d w).0.io ≡ some io
      → tx_queued w ≡ suc (tx_queued (reclaim_prepared_write_pcm h d w).2)
  reclaim_some d w io e = ground (arith, reclaim_queued d w, ap io_found e)

  return_queued :
      (io : PcmIo) (s : Stream) (d : Device) (w : World)
      → length s.render_io_pool < render_io_pool_size
      → tx_queued (return_render_io h io s d w).3 ≡ tx_queued w
  unfolding return_render_io
  return_queued io s d w room = ground arith

  round_room :
      (r : Reclaimed) (io : PcmIo) (s : Stream) (w w1 : World)
      → IsConserved s w
      → tx_queued w ≡ suc (tx_queued w1)
      → length (account_completion r io s).render_io_pool < render_io_pool_size
  round_room r io s w w1 v one = rw (account-counts r io s).1 (ground arith)

  reclaim_render_loop-IsConserved :
      (fuel : ℕ) (s : Stream) (d : Device) (w : World)
      → IsConserved s w
      → tx_queued w < fuel
      → let (ended, s', d', w') = reclaim_render_loop h fuel s d w in
        (ended ≡ true) × IsConserved s' w'
  unfolding reclaim_render_loop
  reclaim_render_loop-IsConserved zero s d w v enough = absurd (omega arith)
  reclaim_render_loop-IsConserved (suc fuel) s d w v enough =
      let r = (reclaim_prepared_write_pcm h d w).0 in
      let w1 = (reclaim_prepared_write_pcm h d w).2 in
      let d1 = (reclaim_prepared_write_pcm h d w).1 in
      elim (Option-cases r.io) [
        | inl e ↦
            rw (e, reclaim_render_loop)
              (refl, record { counted = v.counted ∙ reclaim_none d w e; all_there = v.all_there })
        | inr (io, e) ↦
            let one = reclaim_some d w io e in
            let s1 = account_completion r io s in
            let back = return_queued io s1 d1 w1 (round_room r io s w w1 v one) in
            let (_, s2, d2, w2) = return_render_io h io s1 d1 w1 in
            rw (e, reclaim_render_loop)
              (reclaim_render_loop-IsConserved fuel s2 d2 w2
                (round-IsConserved r io s d1 w w1 v one) (omega arith))
      ]

  -- From a stream whose twelve transfers are all in the pool or on the queue, ReclaimRenderPackets
  -- ends before the model's fuel does, and they still are.
  pub reclaim_render_packets-IsConserved :
      (s : Stream) (d : Device) (w : World)
      → IsConserved s w
      → let (ended, s', d', w') = reclaim_render_packets h s d w in
        (ended ≡ true) × IsConserved s' w'
  unfolding reclaim_render_packets
  reclaim_render_packets-IsConserved s d w v =
      reclaim_render_loop-IsConserved (tx_queued w + 1) s d w v (omega arith)

  silence_sent :
      (number : ℕ) (s : Stream) (d : Device) (w : World)
      → IsConserved s w
      → let size = if s.fallback_active then fallback_period_bytes else s.packet_size in
        let (_, s', d', w') =
          if ltb default_period_bytes size
          then (status_invalid_buffer_size, s, d, w)
          else submit_from_pool h s.render_io_pool
              (replicate size 0)
              size
              number
              (λ t.
                if number == max_ulong
                then t
                else record t { next_submit_packet = u32 (number + 1) })
              s
              d
              w in
        IsConserved s' w'
  unfolding Keeps
  silence_sent number s d w v =
      let size = if s.fallback_active then fallback_period_bytes else s.packet_size in
      elim (Bool-cases (ltb default_period_bytes size)) [
        | inl big ↦ rw big v
        | inr fits ↦ rw fits (
            submit_from_pool-IsConserved s.render_io_pool (replicate size 0) size number
              (λ t.
                if number == max_ulong
                then t
                else record t { next_submit_packet = u32 (number + 1) })
              s d w (λ t. (ground arith)) refl v)
      ]

  -- Where the twelve transfers are in the pool or on the queue, and counted, they still are after
  -- SubmitRenderSilencePacket, on each of its branches.
  pub submit_render_silence_packet-IsConserved :
      (number : ℕ) (s : Stream) (d : Device) (w : World)
      → IsConserved s w
      → let (_, s', d', w') = submit_render_silence_packet h number s d w in IsConserved s' w'
  unfolding submit_render_silence_packet Keeps
  submit_render_silence_packet-IsConserved number s d w v =
      elim (Bool-cases (s.capture || (not s.has_buffer || s.packet_size == 0))) [
        | inl no_buffer ↦ rw no_buffer v
        | inr go ↦ rw go (elim (Bool-cases (length s.render_io_pool == 0)) [
          | inl no_io ↦ rw no_io v
          | inr go2 ↦ rw go2 (silence_sent number s d w v)
        ])
      ]

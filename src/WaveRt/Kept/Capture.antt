-- ===== src/WaveRt/Kept/Capture.antt =====
-- What the capture transfers of viosnd/sys/ViosndWaveRT.cpp leave alone.
use viosnd.Base.{
  ℕ, zero, suc, ◌+◌, ◌≤◌, ◌≡◌, refl, ap, inl, inr, List, [], ◌∷◌, none, some, Option, length, arith,
  ◌==◌, not, ◌||◌, Bool-cases, Option-cases,
}
use viosnd.Virtio.Host.{Host, PcmIo}
use viosnd.Virtio.Device.{Device}
use viosnd.Virtio.Io.{Reclaimed}
use viosnd.Virtio.Io.Read.{reclaim_prepared_read_pcm, allocate_read_pcm_io}
use viosnd.WaveRt.Stream.{Stream}
use viosnd.WaveRt.Capture.{
  account_capture, advance_window, one_less_in_flight, account_reclaimed, submit_from_capture_pool,
  submit_capture_packet, return_capture_io, reclaim_capture_loop, reclaim_capture_packets,
  free_capture_io_pool, fill_capture_pool, allocate_capture_io_pool, capture_io_pool_size,
}
use viosnd.WaveRt.Kept.{Keeps, Keeps-refl, Keeps-trans}

window-Keeps : (packet : ℕ) (s : Stream) → Keeps s (advance_window packet s)
unfolding advance_window
window-Keeps packet s = ground arith

account_capture-Keeps : (r : Reclaimed) (io : PcmIo) (s : Stream) → Keeps s (account_capture r io s)
unfolding account_capture
account_capture-Keeps r io s = ground arith

one_less-Keeps : (s : Stream) → Keeps s (one_less_in_flight s)
one_less-Keeps s = ground arith

module _ (h : Host) where
  open h use {World}

  account_reclaimed-Keeps : (r : Reclaimed) (s : Stream) → Keeps s (account_reclaimed h r s)
  unfolding account_reclaimed
  account_reclaimed-Keeps r s = elim (Option-cases r.io) [
    | inl e ↦ rw (e, account_reclaimed) (one_less-Keeps s)
    | inr (io, e) ↦
        rw (e, account_reclaimed)
          (ground (
            arith,
            one_less-Keeps s,
            Keeps-trans s (one_less_in_flight s) (account_capture r io (one_less_in_flight s))
                (one_less-Keeps s) (account_capture-Keeps r io (one_less_in_flight s)),
          ))
  ]

  from_capture_pool-Keeps :
      (pool : List PcmIo) (s : Stream) (d : Device) (w : World)
      → s.capture_io_pool ≡ pool
      → Keeps s (submit_from_capture_pool h pool s d w).1
  unfolding submit_from_capture_pool
  from_capture_pool-Keeps [] s d w e = Keeps-refl s
  from_capture_pool-Keeps (io ∷ rest) s d w e = ground (arith, Keeps-refl s, ap length e)

  pub submit_capture_packet-Keeps :
      (s : Stream) (d : Device) (w : World) → Keeps s (submit_capture_packet h s d w).1
  unfolding submit_capture_packet
  submit_capture_packet-Keeps s d w =
      ground (arith, Keeps-refl s, from_capture_pool-Keeps s.capture_io_pool s d w refl)

  return_capture-Keeps :
      (io : Option PcmIo) (s : Stream) (d : Device) (w : World)
      → Keeps s (return_capture_io h io s d w).1
  unfolding return_capture_io
  return_capture-Keeps none s d w = Keeps-refl s
  return_capture-Keeps (some io) s d w = ground arith

  capture_loop-Keeps :
      (fuel : ℕ) (s : Stream) (d : Device) (w : World)
      → Keeps s (reclaim_capture_loop h fuel s d w).1
  unfolding reclaim_capture_loop
  capture_loop-Keeps zero s d w = Keeps-refl s
  capture_loop-Keeps (suc fuel) s d w =
      let (r, d1, w1) = reclaim_prepared_read_pcm h d w in
      let t = account_reclaimed h r s in
      let (_, s2, d2, w2) = return_capture_io h r.io t d1 w1 in
      ground (
        arith,
        Keeps-refl s,
        Keeps-trans s t (reclaim_capture_loop h fuel s2 d2 w2).1 (account_reclaimed-Keeps r s) (
            Keeps-trans t s2 (reclaim_capture_loop h fuel s2 d2 w2).1
              (return_capture-Keeps r.io t d1 w1) (capture_loop-Keeps fuel s2 d2 w2)),
      )

  pub reclaim_capture_packets-Keeps :
      (s : Stream) (d : Device) (w : World) → Keeps s (reclaim_capture_packets h s d w).1
  unfolding reclaim_capture_packets
  reclaim_capture_packets-Keeps s d w = capture_loop-Keeps _ s d w

  pub free_capture_io_pool-Keeps :
      (s : Stream) (d : Device) (w : World) → Keeps s (free_capture_io_pool h s d w).1
  unfolding free_capture_io_pool
  free_capture_io_pool-Keeps s d w = ground arith

  fill_capture-Keeps :
      (n : ℕ) (s : Stream) (d : Device) (w : World)
      → n + length s.capture_io_pool ≤ capture_io_pool_size
      → Keeps s (fill_capture_pool h n s d w).1
  unfolding fill_capture_pool
  fill_capture-Keeps zero s d w room = Keeps-refl s
  fill_capture-Keeps (suc n) s d w room =
      let (result, d1, w1) = allocate_read_pcm_io h s.packet_size d w in
      elim (Option-cases result.1) [
        | inl e ↦ rw (e, fill_capture_pool) (free_capture_io_pool-Keeps s d1 w1)
        | inr (io, e) ↦
            let t = record s { capture_io_pool = io ∷ s.capture_io_pool } in
            rw (e, fill_capture_pool)
              (Keeps-trans s t _ (ground arith) (fill_capture-Keeps n t d1 w1 (omega arith)))
      ]

  pub allocate_capture_io_pool-Keeps :
      (s : Stream) (d : Device) (w : World) → Keeps s (allocate_capture_io_pool h s d w).1
  unfolding allocate_capture_io_pool
  allocate_capture_io_pool-Keeps s d w =
      elim (Bool-cases (not s.capture || not (length s.capture_io_pool == 0))) [
        | inl filled ↦ ground (arith, Keeps-refl s)
        | inr empty ↦
            ground
              (arith, Keeps-refl s, fill_capture-Keeps capture_io_pool_size s d w (ground arith))
      ]

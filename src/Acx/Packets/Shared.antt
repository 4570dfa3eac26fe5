-- ===== src/Acx/Packets/Shared.antt =====
-- What an allocation of packets of viosnd/sys/ViosndAcxCircuit.cpp leaves.
use viosnd.Base.{
  Bool, true, false, ap, ◌∙◌, ℕ, ◌+◌, ◌-◌, ◌*◌, ◌≤◌, ◌<◌, ◌≡◌, ◌≢◌, refl, ◌⊎◌, inl, inr, ◌&&◌, ◌||◌,
  not, ◌==◌, ltb, arith, if◌then◌else◌, branches,
}
use viosnd.Status.{
  NtStatus, status_success, status_insufficient_resources, status_invalid_parameter,
}
use viosnd.Acx.Host.{AcxHost}
use viosnd.Acx.Stream.{AcxStream}
use viosnd.Acx.Control.Counted.{given}
use viosnd.Acx.Packets.Owned.{Blocks, owned, held-zeros, held-none, storage-live}
use viosnd.Acx.Packets.Filling.{IsBare, IsFilling, storage-IsBare, fill_packets-Fills}
use viosnd.Acx.Packets.{
  page_round, alloc_pool, free_rt_packet_storage, fill_packets, share_packets, allocate_rt_packets,
}

-- A stream with `count` packets of `size` bytes, each inside the block that is its buffer
pub record IsShared (count size : ℕ) (size_at : ℕ → ℕ) (s : AcxStream) : Type 0 where
  pub counted : s.packet_count ≡ count
  pub sized : s.packet_size ≡ size
  pub buffers : (i : ℕ) → i < count → s.packet_buffers i ≢ 0
  pub mdls : (i : ℕ) → i < count → s.packet_mdls i ≢ 0
  pub inside : (i : ℕ) → i < count → s.packet_offsets i + size ≤ size_at (s.packet_buffers i)
  pub empty_ring : s.ready_count ≡ 0

module _ (h : AcxHost) (blocks : Blocks h) where
  open h use {World, mdl_alloc}
  open blocks use {live, size_at}

  -- What a call gives: packets, no packets, or the stream and the memory as they were
  record Allocates (count size base : ℕ) (s : AcxStream) (w : World)
      (r : NtStatus × AcxStream × World) : Type 0 where
    outcome :
        ((r.0 ≡ status_success) × IsShared count size (λ va. size_at va r.2) r.1)
        ⊎ ((r.0 ≡ status_insufficient_resources) × IsBare r.1)
        ⊎ ((r.0 ≡ status_invalid_parameter) × (r.1 ≡ s) × (r.2 ≡ w))
    balanced : live r.2 ≡ base + owned r.1

  IsBare-owned : (s : AcxStream) → IsBare s → owned s ≡ 0
  IsBare-owned s v = ground (arith, v.no_packets, v.no_buffers, v.no_mdls, v.no_ring)

  the_count : (count : ℕ) → 0 + (count + 0) ≡ count
  the_count count = omega arith

  share_packets-Allocates :
      (count size base : ℕ) (s0 : AcxStream) (w0 : World) (s : AcxStream) (w : World)
      → 0 < size
      → size ≤ 4096
      → s.packet_buffers_va ≢ 0
      → s.packet_mdls_va ≢ 0
      → s.packet_count ≡ 0
      → live w ≡ base + owned s
      → Allocates count size base s0 w0 (share_packets h count size s w)
  unfolding share_packets
  share_packets-Allocates count size base s0 w0 s w some small buffers mdls none balanced =
      let bytes = page_round size in
      let cleared = record s {
        packet_buffers = λ i. 0;
        packet_mdls = λ i. 0;
        packet_offsets = λ i. 0;
        ready_queue = λ i. 0;
        packet_count = count;
      } in
      let fresh : IsFilling h blocks count 0 bytes (bytes - size) base cleared w = record {
        filled = record {
          buffers = λ i below. absurd (omega (arith, below));
          mdls = λ i below. absurd (omega (arith, below));
          offsets = λ i below. absurd (omega (arith, below));
        };
        sized = λ i below. absurd (omega (arith, below));
        no_buffers = λ j _. refl;
        no_mdls = λ j _. refl;
        buffers_array = buffers;
        mdls_array = mdls;
        counted = omega arith;
        balanced = omega (
          arith,
          balanced,
          held-none s.packet_mdls_va s.packet_count s.packet_mdls none,
          held-none s.packet_buffers_va s.packet_count s.packet_buffers none,
          held-zeros s.packet_mdls_va count,
          held-zeros s.packet_buffers_va count,
        );
      } in
      let (status, t, w') = fill_packets h count 0 bytes (bytes - size) cleared w in
      let fills =
        fill_packets-Fills h blocks count 0 bytes (bytes - size) base cleared w
          (omega (arith, some)) fresh in
      elim fills.outcome [
        | inl (e, v) ↦
            branches (Allocates count size base s0 w0) (status == status_success)
              (λ _. record {
                outcome = inl (
                  e,
                  record {
                    counted = refl;
                    sized = refl;
                    buffers = λ i below. v.filled.buffers i (omega (arith, below));
                    mdls = λ i below. v.filled.mdls i (omega (arith, below));
                    inside = λ i below.
                        let early = v.filled.offsets i (omega (arith, below)) in
                        let whole = v.sized i (omega (arith, below)) in
                        omega (arith, early, whole, small, some);
                    empty_ring = refl;
                  },
                );
                balanced =
                    v.balanced
                    ∙ ap (λ k. base + owned (record t { packet_count = k }))
                        (v.counted ∙ (the_count count));
              })
              (λ bad. absurd (ground (arith, e, bad)))
        | inr (e, v, b) ↦
            branches (Allocates count size base s0 w0) (status == status_success)
              (λ good. absurd (ground (arith, e, good)))
              (λ _. record {
                outcome = inr (inl (e, v));
                balanced = omega (arith, b, IsBare-owned t v);
              })
      ]

  -- The ring, which only a render stream has
  ring-live :
      (capture : Bool) (n : ℕ) (w : World)
      → let (va, w') = if not capture then alloc_pool h n w else (0, w) in
        live w' ≡ live w + given va
  ring-live true n w = omega arith
  ring-live false n w = blocks.pool_alloc_lem n w

  -- A call of ViosndEvtStreamAllocateRtPackets either succeeds, and the stream then has the packets
  -- asked for, each with an MDL and a buffer of its own that is long enough for the packet at its
  -- offset; or it runs out of memory, and the stream then has no packet, no array and no ring; or it
  -- refuses its arguments, and leaves the stream and the memory as they were. In every case the
  -- blocks and MDLs that are allocated are those that the stream holds, and as many others as there
  -- were before: none is lost, and none is freed twice.
  pub allocate_rt_packets-IsShared :
      (count size base : ℕ) (s : AcxStream) (w : World)
      → live w ≡ base + owned s
      → (let (status, t, w') = allocate_rt_packets h count size s w in
          (((status ≡ status_success) × IsShared count size (λ va. size_at va w') t)
            ⊎ ((status ≡ status_insufficient_resources) × IsBare t)
            ⊎ ((status ≡ status_invalid_parameter) × (t ≡ s) × (w' ≡ w)))
          × (live w' ≡ base + owned t))
  unfolding allocate_rt_packets
  allocate_rt_packets-IsShared count size base s w balanced =
      let (s0, w0) = free_rt_packet_storage h s w in
      let (packets, w1) = alloc_pool h (count * h.rt_packet_size) w0 in
      let (buffers, w2) = alloc_pool h (count * 8) w1 in
      let (mdls, w3) = alloc_pool h (count * 8) w2 in
      let (ready, w4) = if not s.capture then alloc_pool h (count * 4) w3 else (0, w3) in
      let s1 = record s0 {
        packets_va = packets;
        packet_buffers_va = buffers;
        packet_mdls_va = mdls;
        ready_queue_va = ready;
      } in
      let bare = storage-IsBare h blocks s w in
      let freed = storage-live h blocks s w in
      let last : live w4 ≡ live w3 + given ready = ring-live s.capture (count * 4) w3 in
      let balanced1 : live w4 ≡ base + owned s1 = omega (
        arith,
        balanced,
        freed,
        blocks.pool_alloc_lem (count * h.rt_packet_size) w0,
        blocks.pool_alloc_lem (count * 8) w1,
        blocks.pool_alloc_lem (count * 8) w2,
        last,
        held-none buffers s1.packet_count s1.packet_buffers bare.none_counted,
        held-none mdls s1.packet_count s1.packet_mdls bare.none_counted,
      ) in
      let bad = packets == 0 || buffers == 0 || mdls == 0 || (not s.capture && ready == 0) in
      let all : Allocates count size base s w (allocate_rt_packets h count size s w) =
        branches (Allocates count size base s w) (count == 0 || size == 0 || ltb 4096 size)
          (λ _. record { outcome = inr (inr (refl, refl, refl)); balanced = balanced })
          (λ fine.
            branches (Allocates count size base s w) bad
              (λ _. record {
                outcome = inr (inl (refl, storage-IsBare h blocks s1 w4));
                balanced = omega (
                  arith,
                  balanced1,
                  storage-live h blocks s1 w4,
                  IsBare-owned _ (storage-IsBare h blocks s1 w4),
                );
              })
              (λ good.
                share_packets-Allocates count size base s w s1 w4 (ground (arith, fine))
                  (ground (arith, fine)) (ground (arith, good)) (ground (arith, good))
                  bare.none_counted balanced1)) in
      (all.outcome, all.balanced)

-- ===== src/Acx/Packets/Filling.antt =====
-- What the loop that allocates packets leaves, in viosnd/sys/ViosndAcxCircuit.cpp leaves.
use viosnd.Base.{
  sym, ◌∙◌, ℕ, zero, suc, ◌+◌, ◌≤◌, ◌<◌, ◌≡◌, ◌≢◌, refl, subst, ◌⊎◌, inl, inr, ◌==◌, arith,
  if◌then◌else◌, branches,
}
use viosnd.Status.{NtStatus, status_success, status_insufficient_resources}
use viosnd.Acx.Host.{AcxHost}
use viosnd.Acx.Stream.{AcxStream, set_at}
use viosnd.Acx.Periods.{address_of}
use viosnd.Acx.Control.Counted.{given}
use viosnd.Acx.Packets.Owned.{Blocks, owned, held-set, storage-live}
use viosnd.Acx.Packets.{reset_packets, put_packet, alloc_pool, free_rt_packet_storage, fill_packets}

-- The first `n` packets of a stream have a buffer and an MDL, and start at most `first` bytes into it.
pub record IsFilled (n first : ℕ) (s : AcxStream) : Type 0 where
  pub buffers : (i : ℕ) → i < n → s.packet_buffers i ≢ 0
  pub mdls : (i : ℕ) → i < n → s.packet_mdls i ≢ 0
  pub offsets : (i : ℕ) → i < n → s.packet_offsets i ≤ first

-- A stream without packets
pub record IsBare (s : AcxStream) : Type 0 where
  pub no_packets : s.packets_va ≡ 0
  pub no_buffers : s.packet_buffers_va ≡ 0
  pub no_mdls : s.packet_mdls_va ≡ 0
  pub no_ring : s.ready_queue_va ≡ 0
  pub none_counted : s.packet_count ≡ 0

put_packet-IsFilled :
    (i first buffer mdl bytes offset : ℕ) (s : AcxStream)
    → IsFilled i first s
    → buffer ≢ 0
    → mdl ≢ 0
    → offset ≤ first
    → IsFilled (i + 1) first (put_packet i buffer mdl bytes offset s)
unfolding put_packet
put_packet-IsFilled i first buffer mdl bytes offset s v some_buffer some_mdl early = record {
  buffers = λ j below.
      branches (λ x. x ≢ 0) (j == i) (λ _. some_buffer)
        (λ e. v.buffers j (ground (arith, e, below)));
  mdls = λ j below.
      branches (λ x. x ≢ 0) (j == i) (λ _. some_mdl) (λ e. v.mdls j (ground (arith, e, below)));
  offsets = λ j below.
      branches (λ x. x ≤ first) (j == i) (λ _. early) (λ e. v.offsets j (ground (arith, e, below)));
}

module _ (h : AcxHost) (blocks : Blocks h) where
  open h use {World, mdl_alloc}
  open blocks use {live, size_at}

  pub storage-IsBare : (s : AcxStream) (w : World) → IsBare (free_rt_packet_storage h s w).0
  unfolding free_rt_packet_storage reset_packets
  storage-IsBare s w = record {
    no_packets = refl;
    no_buffers = refl;
    no_mdls = refl;
    no_ring = refl;
    none_counted = refl;
  }

  -- The loop before packet `i` with `n` to come, where `base` blocks are not the stream's
  pub record IsFilling (n i bytes first base : ℕ) (s : AcxStream) (w : World) : Type 0 where
    pub filled : IsFilled i first s
    pub sized : (j : ℕ) → j < i → size_at (s.packet_buffers j) w ≡ bytes
    pub no_buffers : (j : ℕ) → i ≤ j → s.packet_buffers j ≡ 0
    pub no_mdls : (j : ℕ) → i ≤ j → s.packet_mdls j ≡ 0
    pub buffers_array : s.packet_buffers_va ≢ 0
    pub mdls_array : s.packet_mdls_va ≢ 0
    pub counted : s.packet_count ≡ n + i
    pub balanced : live w ≡ base + owned s

  -- What the loop gives: all the packets, or none
  pub record Fills (count bytes first base : ℕ) (r : NtStatus × AcxStream × World) : Type 0 where
    pub outcome :
        ((r.0 ≡ status_success) × IsFilling 0 count bytes first base r.1 r.2)
        ⊎ ((r.0 ≡ status_insufficient_resources) × IsBare r.1 × (live r.2 ≡ base))

  -- A failure, once the storage is freed
  spilled :
      (count bytes first base : ℕ) (s : AcxStream) (w : World)
      → live w ≡ base + owned s
      → let (s', w') = free_rt_packet_storage h s w in
        Fills count bytes first base (status_insufficient_resources, s', w')
  spilled count bytes first base s w balanced = record {
    outcome = inr (refl, storage-IsBare s w, omega (arith, balanced, storage-live h blocks s w));
  }

  -- The packet's buffer is there, and its MDL is not yet.
  halfway-owned :
      (n i bytes first base buffer : ℕ) (s : AcxStream) (w : World)
      → IsFilling (suc n) i bytes first base s w
      → buffer ≢ 0
      → owned (record s { packet_buffers = set_at i buffer s.packet_buffers }) ≡ owned s + 1
  halfway-owned n i bytes first base buffer s w v some_buffer =
      let more =
        held-set s.packet_buffers_va s.packet_count i buffer s.packet_buffers v.buffers_array
          (omega (arith, v.counted)) (v.no_buffers i (omega arith)) some_buffer in
      omega (arith, more)

  put_packet-owned :
      (n i bytes first base buffer mdl offset : ℕ) (s : AcxStream) (w : World)
      → IsFilling (suc n) i bytes first base s w
      → buffer ≢ 0
      → mdl ≢ 0
      → owned (put_packet i buffer mdl bytes offset s) ≡ owned s + 2
  unfolding put_packet
  put_packet-owned n i bytes first base buffer mdl offset s w v some_buffer some_mdl =
      let more =
        held-set s.packet_mdls_va s.packet_count i mdl s.packet_mdls v.mdls_array
          (omega (arith, v.counted)) (v.no_mdls i (omega arith)) some_mdl in
      omega (arith, more, halfway-owned n i bytes first base buffer s w v some_buffer)

  put_packet-IsFilling :
      (n i bytes first base : ℕ) (s : AcxStream) (w : World)
      → bytes ≢ 0
      → IsFilling (suc n) i bytes first base s w
      → let (buffer, w1) = alloc_pool h bytes w in
        let (mdl, w2) = mdl_alloc buffer bytes w1 in
        let offset = if i == 0 then first else 0 in
        buffer ≢ 0
        → address_of mdl ≢ 0
        → IsFilling n
            (i + 1)
            bytes
            first
            base
            (put_packet i buffer (address_of mdl) bytes offset s)
            w2
  unfolding put_packet
  put_packet-IsFilling n i bytes first base s w some v some_buffer some_mdl =
      let (buffer, w1) = alloc_pool h bytes w in
      let (mdl, w2) = mdl_alloc buffer bytes w1 in
      let offset = if i == 0 then first else 0 in
      let fresh : size_at buffer w1 ≡ bytes = blocks.sized_lem bytes w some_buffer in
      let own =
        put_packet-owned n i bytes first base buffer (address_of mdl) offset s w v some_buffer
          some_mdl in
      let one : given buffer ≡ 1 = ground (arith, some_buffer) in
      let other : given (address_of mdl) ≡ 1 = ground (arith, some_mdl) in
      record {
        filled =
            put_packet-IsFilled i first buffer (address_of mdl) bytes offset s v.filled some_buffer
              some_mdl (ground arith);
        sized = λ j below.
            branches (λ x. size_at x w2 ≡ bytes) (j == i)
              (λ _. blocks.mdl_kept buffer bytes buffer w1 (λ z. some (sym fresh ∙ z)) ∙ fresh)
              (λ e.
                let old = v.sized j (ground (arith, e, below)) in
                let kept =
                  blocks.pool_kept bytes (s.packet_buffers j) w (λ z. some (sym old ∙ z)) ∙ old in
                blocks.mdl_kept buffer bytes (s.packet_buffers j) w1 (λ z. some (sym kept ∙ z))
                ∙ kept);
        no_buffers = λ j above.
            branches (λ x. x ≡ 0) (j == i) (λ e. absurd (ground (arith, e, above)))
              (λ _. v.no_buffers j (omega (arith, above)));
        no_mdls = λ j above.
            branches (λ x. x ≡ 0) (j == i) (λ e. absurd (ground (arith, e, above)))
              (λ _. v.no_mdls j (omega (arith, above)));
        buffers_array = v.buffers_array;
        mdls_array = v.mdls_array;
        counted = omega (arith, v.counted);
        balanced = omega (
          arith,
          v.balanced,
          own,
          one,
          other,
          blocks.pool_alloc_lem bytes w,
          blocks.mdl_alloc_lem buffer bytes w1,
        );
      }

  pub fill_packets-Fills :
      (n i bytes first base : ℕ) (s : AcxStream) (w : World)
      → bytes ≢ 0
      → IsFilling n i bytes first base s w
      → Fills (n + i) bytes first base (fill_packets h n i bytes first s w)
  unfolding fill_packets
  fill_packets-Fills zero i bytes first base s w some v =
      let whole : 0 + i ≡ i = omega arith in
      record { outcome = inl (refl, subst (λ k. IsFilling 0 k bytes first base s w) (sym whole) v) }
  fill_packets-Fills (suc n) i bytes first base s w some v =
      let (buffer, w1) = alloc_pool h bytes w in
      let (mdl, w2) = mdl_alloc buffer bytes w1 in
      let offset = if i == 0 then first else 0 in
      let s1 = record s { packet_buffers = set_at i buffer s.packet_buffers } in
      let s2 = put_packet i buffer (address_of mdl) bytes offset s in
      let pooled = blocks.pool_alloc_lem bytes w in
      branches (Fills (suc n + i) bytes first base) (buffer == 0)
        (λ e.
          let none : given buffer ≡ 0 = ground (arith, e) in
          spilled (suc n + i) bytes first base s w1 (omega (arith, v.balanced, pooled, none)))
        (λ e.
          let one : given buffer ≡ 1 = ground (arith, e) in
          let there : buffer ≢ 0 = ground (arith, e) in
          branches (Fills (suc n + i) bytes first base) (address_of mdl == 0)
            (λ f.
              let none : given (address_of mdl) ≡ 0 = ground (arith, f) in
              spilled (suc n + i) bytes first base s1 w2 (
                omega (
                  arith,
                  v.balanced,
                  pooled,
                  one,
                  none,
                  blocks.mdl_alloc_lem buffer bytes w1,
                  halfway-owned n i bytes first base buffer s w v there,
                )))
            (λ f.
              subst (λ k. Fills k bytes first base (fill_packets h n (i + 1) bytes first s2 w2))
                (omega arith)
                (fill_packets-Fills n (i + 1) bytes first base s2 w2 some (
                  put_packet-IsFilling n i bytes first base s w some v there (ground (arith, f))))))

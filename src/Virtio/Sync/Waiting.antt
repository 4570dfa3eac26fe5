-- ===== src/Virtio/Sync/Waiting.antt =====
-- The waiting transfers of viosnd/sys/ViosndVirtio.cpp end in time and give their buffers back.
use viosnd.Base.{
  ℕ, zero, suc, ◌+◌, ◌*◌, ◌≤◌, ◌≡◌, ◌≢◌, ◌∙◌, ◌⊎◌, refl, sym, ap, inl, inr, Bool, true, false, List,
  ◌∷◌, Option, some, arith, ◌==◌, ◌||◌, not, Bool-cases, Option-cases, u32, length, if◌then◌else◌,
  subst,
}
use viosnd.Status.{nt_success, status_insufficient_resources}
use viosnd.Virtio.Host.{Host, PcmIo, Used, Lengths}
use viosnd.Virtio.Io.{write_lengths, xfer_size, pcm_status_size}
use viosnd.Virtio.Device.{Device, DmaBlock}
use viosnd.Virtio.Control.{va_of}
use viosnd.Virtio.Dma.{
  alloc_common_block, allocate_dma_buffer, free_dma_buffer, unlink_block, round_to_pages,
  dma_block_size,
}
use viosnd.Virtio.Sync.{
  Waited, got, late, starved, wait_rounds, Transferred, transfer_failed, finish_write, finish_read,
  wait_for_used, send_write, send_read, free_both, with_buffers, write_pcm, read_pcm,
}

abbrev pub is_starved : Waited → Bool
is_starved starved = true
is_starved _ = false

abbrev pushed : DmaBlock → Device → Device
pushed b d = record d { dma_blocks = b ∷ d.dma_blocks }

-- What an allocation leaves: nothing, or a block on the list.
abbrev Allocated : Option (ℕ × ℕ) → Device → Device → Type 0
Allocated result d d' =
    (va_of result ≡ 0) × (d' ≡ d)
    ⊎ ((b : DmaBlock) × (va_of result ≡ b.va) × (b.va ≢ 0) × (d' ≡ pushed b d))

module _ (h : Host) where
  open h use {World, pool_alloc, common_alloc, delay_us}

  wait-ends :
      (get : World → Option Used × World) (opaque fuel elapsed : ℕ) (w : World)
      → elapsed + suc fuel * 1000 ≡ 5000000
      → is_starved (wait_for_used h get opaque (suc fuel) elapsed w).0 ≡ false
  unfolding wait_for_used
  wait-ends get opaque zero elapsed w e = elim (Option-cases (get w).0) [
    | inl empty ↦ rw (empty, wait_for_used) (ground (arith, e))
    | inr (u, used) ↦ rw (used, wait_for_used) (ground (arith, e))
  ]
  wait-ends get opaque (suc fuel) elapsed w e =
      let w' = delay_us 1000 (get w).1 in
      let later = wait-ends get opaque fuel (u32 (elapsed + 1000)) w' (omega (arith, e)) in
      elim (Option-cases (get w).0) [
        | inl empty ↦ rw (empty, wait_for_used) (ground (arith, e, later))
        | inr (u, used) ↦ rw (used, wait_for_used) (ground (arith, e, later))
      ]

  free_pushed :
      (b : DmaBlock) (d : Device) (w : World)
      → b.va ≢ 0
      → (free_dma_buffer h b.va (pushed b d) w).1 ≡ d
  unfolding free_dma_buffer unlink_block
  free_pushed b d w named = ground arith

  free_below :
      (b c : DmaBlock) (d : Device) (w : World)
      → b.va ≢ 0
      → c.va ≢ b.va
      → (free_dma_buffer h b.va (pushed c (pushed b d)) w).1 ≡ pushed c d
  unfolding free_dma_buffer unlink_block
  free_below b c d w named other = ground arith

  free_null : (d : Device) (w : World) → free_dma_buffer h 0 d w ≡ (tt, d, w)
  unfolding free_dma_buffer
  free_null d w = refl

  module _
      (named : (size : ℕ) (w : World) (b : ℕ × ℕ)
        → (common_alloc size w).0 ≡ some b
        → b.0 ≢ 0) where
    block-Allocated :
        (size address : ℕ) (d : Device) (w : World)
        → let (result, d', w') = alloc_common_block h size address d w in Allocated result d d'
    unfolding alloc_common_block
    block-Allocated size address d w = elim (Option-cases (common_alloc size w).0) [
      | inl e ↦ rw (e, alloc_common_block) (inl (refl, refl))
      | inr (b, e) ↦
          rw (e, alloc_common_block)
            (inr (
              record { address = address; va = b.0; logical_address = b.1; size = size },
              refl,
              named size w b e,
              refl,
            ))
    ]

    allocate-Allocated :
        (size : ℕ) (d : Device) (w : World)
        → let (result, d', w') = allocate_dma_buffer h size d w in Allocated result d d'
    unfolding allocate_dma_buffer
    allocate-Allocated size d w = elim (Option-cases (pool_alloc dma_block_size w).0) [
      | inl e ↦ rw (e, allocate_dma_buffer) (ground arith)
      | inr (address, e) ↦
          rw (e, allocate_dma_buffer)
            (ground (
              arith,
              block-Allocated (round_to_pages size) address d (pool_alloc dma_block_size w).1,
            ))
    ]

  freed :
      (result : Option (ℕ × ℕ)) (d d' : Device) (w : World)
      → Allocated result d d'
      → (free_dma_buffer h (va_of result) d' w).1 ≡ d
  freed result d d' w (inl (e, same)) =
      ap (λ v. (free_dma_buffer h v d' w).1) e ∙ ap (λ r. r.1) (free_null d' w) ∙ same
  freed result d d' w (inr (b, e, named, same)) =
      ap (λ v. (free_dma_buffer h v d' w).1) e
      ∙ ap (λ u. (free_dma_buffer h b.va u w).1) same
      ∙ free_pushed b d w named

  free_above :
      (b c : DmaBlock) (d : Device) (w : World)
      → b.va ≢ 0
      → c.va ≡ b.va
      → (free_dma_buffer h b.va (pushed c (pushed b d)) w).1 ≡ pushed b d
  unfolding free_dma_buffer unlink_block
  free_above b c d w named same = ground arith

  -- The older of two buffers is freed first.
  freed_first :
      (first second : Option (ℕ × ℕ)) (d d1 d2 : Device) (w : World)
      → Allocated first d d1
      → Allocated second d1 d2
      → Allocated second d (free_dma_buffer h (va_of first) d2 w).1
  freed_first first second d d1 d2 w (inl (e, same)) a =
      let kept : (free_dma_buffer h (va_of first) d2 w).1 ≡ d2 =
        ap (λ v. (free_dma_buffer h v d2 w).1) e ∙ ap (λ r. r.1) (free_null d2 w) in
      subst (λ u. Allocated second d u) (sym kept) (subst (λ u. Allocated second u d2) same a)
  freed_first first second d d1 d2 w (inr (b, e, named, same)) (inl (e', same')) = inl (
    e',
    ap (λ u. (free_dma_buffer h (va_of first) u w).1) same'
        ∙ freed first d d1 w (inr (b, e, named, same)),
  )
  freed_first first second d d1 d2 w (inr (b, e, named, same)) (inr (c, e', named', same')) =
      let to : (free_dma_buffer h (va_of first) d2 w).1
          ≡ (free_dma_buffer h b.va (pushed c (pushed b d)) w).1 =
        ap (λ v. (free_dma_buffer h v d2 w).1) e
        ∙ ap (λ u. (free_dma_buffer h b.va u w).1) (same' ∙ ap (pushed c) same) in
      elim (Bool-cases (c.va == b.va)) [
        | inl equal ↦ inr (
          b,
          ground (arith, e', equal),
          named,
          to ∙ free_above b c d w named (ground (arith, equal)),
        )
        | inr other ↦
            inr (c, e', named', to ∙ free_below b c d w named (λ z. ground (arith, other, z)))
      ]

  -- What each exchange grants, and the lack of a buffer grants too, a call grants; and it gives the
  -- device back.
  with_buffers-restores :
      (P : Transferred → Type 0)
      → ((size : ℕ) (w : World) (b : ℕ × ℕ) → (common_alloc size w).0 ≡ some b → b.0 ≢ 0)
      → (first_size second_size : ℕ)
        (send : Option (ℕ × ℕ) → Option (ℕ × ℕ) → World → Transferred × World) (d : Device)
        (w : World)
      → P (transfer_failed status_insufficient_resources)
      → ((first second : Option (ℕ × ℕ)) (w : World) → P (send first second w).0)
      → let (t, d', w') = with_buffers h first_size second_size send d w in P t × (d' ≡ d)
  unfolding with_buffers free_both
  with_buffers-restores P named first_size second_size send d w refused granted =
      let (first, d1, w1) = allocate_dma_buffer h first_size d w in
      let (second, d2, w2) = allocate_dma_buffer h second_size d1 w1 in
      let a1 = allocate-Allocated named first_size d w in
      let a2 = allocate-Allocated named second_size d1 w1 in
      let gives : (w3 : World)
          → (free_dma_buffer h (va_of second) (free_dma_buffer h (va_of first) d2 w3).1
              (free_dma_buffer h (va_of first) d2 w3).2).1
            ≡ d =
        λ w3.
          freed second d _ (free_dma_buffer h (va_of first) d2 w3).2
            (freed_first first second d d1 d2 w3 a1 a2) in
      elim (Bool-cases (va_of first == 0 || va_of second == 0)) [
        | inl missing ↦ rw (missing, with_buffers) (refused, gives w2)
        | inr there ↦
            rw (there, with_buffers) (granted first second w2, gives (send first second w2).1)
      ]

-- What a transfer of up to `size` bytes reports.
abbrev pub IsSettled : ℕ → Transferred → Type 0
IsSettled size t = (t.bytes ≤ size) × (nt_success t.status ≡ false → t.bytes ≡ 0)

abbrev pub IsWritten : ℕ → Transferred → Type 0
IsWritten size t = IsSettled size t × (nt_success t.status ≡ true → t.bytes ≡ size)

finish_write-IsWritten : (size : ℕ) (waited : Waited) → IsWritten size (finish_write size waited)
unfolding finish_write
finish_write-IsWritten size late = ground arith
finish_write-IsWritten size starved = ground arith
finish_write-IsWritten size (got u) = ground arith

finish_read-IsSettled : (size : ℕ) (waited : Waited) → IsSettled size (finish_read size waited)
unfolding finish_read
finish_read-IsSettled size late = ground arith
finish_read-IsSettled size starved = ground arith
finish_read-IsSettled size (got u) = ground arith

module _ (h : Host) where
  open h use {World, common_alloc, tx_add, tx_kick, tx_get, rx_add, rx_kick, rx_get}

  send_write-IsWritten :
      (io : PcmIo) (buffer : List ℕ) (w : World)
      → IsWritten (length buffer) (send_write h io buffer w).0
  unfolding send_write
  send_write-IsWritten io buffer w = elim (Option-cases (tx_add io (write_lengths h buffer) w)) [
    | inl full ↦ rw (full, send_write) (ground arith)
    | inr (w1, added) ↦
        rw (added, send_write)
          (finish_write-IsWritten (length buffer)
            (wait_for_used h tx_get io.address wait_rounds 0 (tx_kick w1)).0)
  ]

  send_read-IsSettled :
      (io : PcmIo) (size : ℕ) (w : World) → IsSettled size (send_read h io size w).0
  unfolding send_read
  send_read-IsSettled io size w =
      let lengths : Lengths = record {
        out_length = xfer_size;
        in_length = u32 (size + pcm_status_size);
      } in
      elim (Option-cases (rx_add io lengths w)) [
        | inl full ↦ rw (full, send_read) (ground arith)
        | inr (w1, added) ↦
            rw (added, send_read)
              (finish_read-IsSettled size
                (wait_for_used h rx_get io.address wait_rounds 0 (rx_kick w1)).0)
      ]

  either :
      (P : Transferred → Type 0) (d : Device) (b : Bool) (x y : Transferred × Device × World)
      → P x.0 × (x.1 ≡ d)
      → P y.0 × (y.1 ≡ d)
      → let r = if b then x else y in P r.0 × (r.1 ≡ d)
  either P d true x y p q = p
  either P d false x y p q = q

  -- ViosndWritePcm and ViosndReadPcm give the device back as it was, its DMA buffers included,
  -- however the transfer ends. A write reports all of its bytes if it succeeds, a read no more than
  -- its buffer holds, and either none if it fails. ViosndWaitForUsedBuffer, for any buffer and on any
  -- queue, ends within the 5000 rounds of its timeout. It is assumed that AllocateCommonBuffer does
  -- not succeed with NULL.
  pub sync_transfers_lem :
      ((size : ℕ) (w : World) (b : ℕ × ℕ) → (common_alloc size w).0 ≡ some b → b.0 ≢ 0)
      → (stream size opaque : ℕ) (buffer : List ℕ) (get : World → Option Used × World) (d : Device)
        (w : World)
      → (let (t, d', w') = write_pcm h stream buffer d w in IsWritten (length buffer) t × (d' ≡ d))
        × (let (t, d', w') = read_pcm h stream size d w in IsSettled size t × (d' ≡ d))
        × (is_starved (wait_for_used h get opaque wait_rounds 0 w).0 ≡ false)
  unfolding write_pcm read_pcm
  sync_transfers_lem named stream size opaque buffer get d w = (
    either (IsWritten (length buffer)) d (not d.tx_queue) _ _ (ground arith, refl)
        (with_buffers-restores h (IsWritten (length buffer)) named (u32 (xfer_size + length buffer))
          pcm_status_size _ d w (ground arith) (λ first second w. send_write-IsWritten _ buffer w)),
    either (IsSettled size) d (not d.rx_queue) _ _ (ground arith, refl)
        (with_buffers-restores h (IsSettled size) named xfer_size (u32 (size + pcm_status_size)) _ d
          w (ground arith) (λ first second w. send_read-IsSettled _ size w)),
    wait-ends h get opaque 4999 0 w refl,
  )

-- ===== src/Virtio/Dma/Counted.antt =====
-- The common buffers that viosnd/sys/ViosndVirtio.cpp holds are those on its list.
use viosnd.Base.{
  ℕ, suc, ◌≡◌, refl, ap, sym, ◌∙◌, Bool, true, false, List, [], ◌∷◌, none, some, inl, inr, length,
  arith, ◌==◌, Bool-cases, Option-cases,
}
use viosnd.Virtio.Host.{Host}
use viosnd.Virtio.Device.{Device, DmaBlock}
use viosnd.Virtio.Dma.{
  unlink_block, alloc_common_block, allocate_dma_buffer, release_block, free_dma_buffer,
  round_to_pages, dma_block_size,
}

-- What is relied on for the number `live` of common buffers that are allocated.
pub record CommonLaws (h : Host) (live : h.World → ℕ) : Type 0 where
  pub got :
      (size : ℕ) (w : h.World) (b : ℕ × ℕ)
      → (h.common_alloc size w).0 ≡ some b
      → live (h.common_alloc size w).1 ≡ suc (live w)
  pub refused :
      (size : ℕ) (w : h.World)
      → (h.common_alloc size w).0 ≡ none
      → live (h.common_alloc size w).1 ≡ live w
  pub freed :
      (size pa va n : ℕ) (w : h.World) → live w ≡ suc n → live (h.common_free size pa va w) ≡ n
  pub pool : (size : ℕ) (w : h.World) → live (h.pool_alloc size w).1 ≡ live w
  pub unpool : (a : ℕ) (w : h.World) → live (h.pool_free a w) ≡ live w

-- The device has its adapter, or no buffers, and there are as many common buffers as blocks on its
-- list.
pub record IsCounted {W : Type 0} (live : W → ℕ) (d : Device) (w : W) : Type 0 where
  pub counted : live w ≡ length d.dma_blocks
  pub adapted : d.dma_adapter ≡ false → length d.dma_blocks ≡ 0

length-unlink :
    (l : List DmaBlock) (va : ℕ)
    → ((unlink_block l va).0 ≡ none → length (unlink_block l va).1 ≡ length l)
      × ((b : DmaBlock)
          → (unlink_block l va).0 ≡ some b
          → suc (length (unlink_block l va).1) ≡ length l)
unfolding unlink_block
length-unlink [] va = (λ e. refl, λ b e. cc)
length-unlink (b ∷ rest) va =
    let (kept, cut) = length-unlink rest va in
    elim (Bool-cases (b.va == va)) [
      | inl hit ↦ rw (hit, unlink_block) (λ e. cc, λ c e. refl)
      | inr miss ↦ rw (miss, unlink_block) (λ e. ap suc (kept e), λ c e. ap suc (cut c e))
    ]

module _ (h : Host) (live : h.World → ℕ) (laws : CommonLaws h live) where
  open h use {World, pool_alloc, pool_free, common_alloc, common_free}

  block-IsCounted :
      (size address : ℕ) (d : Device) (w : World)
      → d.dma_adapter ≡ true
      → IsCounted live d w
      → let (_, d', w') = alloc_common_block h size address d w in IsCounted live d' w'
  unfolding alloc_common_block
  block-IsCounted size address d w there c = elim (Option-cases (common_alloc size w).0) [
    | inl e ↦
        rw (e, alloc_common_block)
          (record {
            counted = laws.unpool address _ ∙ laws.refused size w e ∙ c.counted;
            adapted = c.adapted;
          })
    | inr (b, e) ↦
        rw (e, alloc_common_block)
          (record { counted = laws.got size w b e ∙ ap suc c.counted; adapted = λ off. cc })
  ]

  pub allocate_dma_buffer-IsCounted :
      (size : ℕ) (d : Device) (w : World)
      → IsCounted live d w
      → let (_, d', w') = allocate_dma_buffer h size d w in IsCounted live d' w'
  unfolding allocate_dma_buffer
  allocate_dma_buffer-IsCounted size d w c = elim (Bool-cases d.dma_adapter) [
    | inr off ↦ ground (arith, c)
    | inl there ↦ elim (Option-cases (pool_alloc dma_block_size w).0) [
      | inl e ↦ rw (e, allocate_dma_buffer) (ground (arith, c, laws.pool dma_block_size w))
      | inr (address, e) ↦
          let w' = (pool_alloc dma_block_size w).1 in
          let c' : IsCounted live d w' = record {
            counted = laws.pool dma_block_size w ∙ c.counted;
            adapted = c.adapted;
          } in
          rw (e, allocate_dma_buffer)
            (ground (arith, c, block-IsCounted (round_to_pages size) address d w' there c'))
    ]
  ]

  -- A block that is taken off the list is given back.
  pub release-counted :
      (b : DmaBlock) (n : ℕ) (adapter : Bool) (w : World)
      → adapter ≡ true
      → live w ≡ suc n
      → live (release_block h (some b) adapter w) ≡ n
  unfolding release_block
  release-counted b n adapter w there e =
      rw there (laws.unpool b.address _ ∙ laws.freed b.size b.logical_address b.va n w e)

  pub free_dma_buffer-IsCounted :
      (va : ℕ) (d : Device) (w : World)
      → IsCounted live d w
      → let (_, d', w') = free_dma_buffer h va d w in IsCounted live d' w'
  unfolding free_dma_buffer
  free_dma_buffer-IsCounted va d w c =
      let (kept, cut) = length-unlink d.dma_blocks va in
      let rest = (unlink_block d.dma_blocks va).1 in
      elim (Bool-cases (va == 0)) [
        | inl null ↦ rw (null, free_dma_buffer) c
        | inr address ↦
            rw (address, free_dma_buffer)
              (elim (Option-cases (unlink_block d.dma_blocks va).0) [
                | inl e ↦ rw e (record {
                  counted = c.counted ∙ sym (kept e);
                  adapted = λ off. kept e ∙ c.adapted off;
                })
                | inr (b, e) ↦ rw e (record {
                  counted =
                      release-counted b (length rest) d.dma_adapter w
                        (elim (Bool-cases d.dma_adapter) [
                          | inl there ↦ there
                          | inr off ↦ absurd (omega (arith, cut b e, c.adapted off))
                        ])
                        (c.counted ∙ sym (cut b e));
                  adapted = λ off. absurd (omega (arith, cut b e, c.adapted off));
                })
              ])
      ]

-- ===== src/Virtio/Dma/Ranges.antt =====
-- The address ranges of the DMA blocks of viosnd/sys/ViosndVirtio.cpp: lookup, allocation and release.
use viosnd.Base.{
  ℕ, ◌+◌, ◌≤◌, ◌<◌, ◌≡◌, ◌≢◌, ◌⊎◌, inl, inr, List, [], ◌∷◌, some, arith, Option-cases, Bool-cases,
  ltb, ◌||◌, not, max_ulong,
}
use viosnd.Virtio.Host.{Host}
use viosnd.Virtio.Device.{Device, DmaBlock}
use viosnd.Virtio.Dma.{
  dma_address, unlink_block, allocate_dma_buffer, free_dma_buffer, alloc_common_block,
  round_to_pages, get_dma_address,
}

-- Two blocks whose address ranges do not meet.
abbrev pub AreApart : DmaBlock → DmaBlock → Type 0
AreApart b c = (b.va + b.size ≤ c.va) ⊎ (c.va + c.size ≤ b.va)

abbrev pub IsApart : DmaBlock → List DmaBlock → Type 0
IsApart b [] = Unit
IsApart b (c ∷ rest) = AreApart b c × IsApart b rest

-- The blocks' ranges are not empty, do not start at NULL, and do not meet.
abbrev pub AreDisjoint : List DmaBlock → Type 0
AreDisjoint [] = Unit
AreDisjoint (b ∷ rest) = (0 < b.va) × (0 < b.size) × IsApart b rest × AreDisjoint rest

abbrev pub Holds : DmaBlock → List DmaBlock → Type 0
Holds b [] = ⊥
Holds b (c ∷ rest) = (b ≡ c) ⊎ Holds b rest

apart_of_Holds :
    (c b : DmaBlock) (rest : List DmaBlock) → IsApart c rest → Holds b rest → AreApart c b
apart_of_Holds c b [] h m = absurd m
apart_of_Holds c b (x ∷ rest) h (inl e) = rw e h.0
apart_of_Holds c b (x ∷ rest) h (inr m) = apart_of_Holds c b rest h.1 m

-- In a list of disjoint blocks, the walk translates each address inside a block to the block's
-- logical address plus the offset, whichever block it is.
pub dma_address-inside :
    (blocks : List DmaBlock) (b : DmaBlock) (offset : ℕ)
    → AreDisjoint blocks
    → Holds b blocks
    → offset < b.size
    → dma_address blocks (b.va + offset) ≡ b.logical_address + offset
unfolding dma_address
dma_address-inside [] b offset d m k = absurd m
dma_address-inside (c ∷ rest) b offset d (inl e) k = rw (← e) (ground arith)
dma_address-inside (c ∷ rest) b offset d (inr m) k =
    ground (arith, apart_of_Holds c b rest d.2 m, dma_address-inside rest b offset d.3 m k)

unlink_block-IsApart :
    (c : DmaBlock) (blocks : List DmaBlock) (va : ℕ)
    → IsApart c blocks
    → IsApart c (unlink_block blocks va).1
unfolding unlink_block
unlink_block-IsApart c [] va h = tt
unlink_block-IsApart c (b ∷ rest) va h = ground (arith, unlink_block-IsApart c rest va h.1)

pub unlink_block-AreDisjoint :
    (blocks : List DmaBlock) (va : ℕ) → AreDisjoint blocks → AreDisjoint (unlink_block blocks va).1
unfolding unlink_block
unlink_block-AreDisjoint [] va d = tt
unlink_block-AreDisjoint (b ∷ rest) va d =
    ground (arith, unlink_block-AreDisjoint rest va d.3, unlink_block-IsApart b rest va d.2)

module _ (h : Host) where
  open h use {World, pool_alloc, common_alloc}

  -- The device with one more block.
  abbrev pushed : ℕ → ℕ → ℕ → ℕ → Device → Device
  pushed size address va pa d = record d {
    dma_blocks =
        record { address = address; va = va; logical_address = pa; size = size } ∷ d.dma_blocks;
  }

  common_pushed :
      (size address va pa : ℕ) (d : Device) (w : World)
      → (alloc_common_block h size address d w).0 ≡ some (va, pa)
      → (alloc_common_block h size address d w).1 ≡ pushed size address va pa d
  unfolding alloc_common_block
  common_pushed size address va pa d w got = ground arith

  allocate_pushed :
      (size va pa : ℕ) (d : Device) (w : World)
      → (allocate_dma_buffer h size d w).0 ≡ some (va, pa)
      → (address : ℕ) × ((allocate_dma_buffer h size d w).1
          ≡ pushed (round_to_pages size) address va pa d)
  unfolding allocate_dma_buffer
  allocate_pushed size va pa d w =
      elim (Bool-cases (not d.dma_adapter || ltb max_ulong (round_to_pages size))) [
        | inl refused ↦ rw refused (λ got. absurd (ground arith))
        | inr go ↦ rw go (elim (Option-cases (pool_alloc 32 w).0) [
          | inl e ↦ rw (e, allocate_dma_buffer) (λ got. absurd (ground arith))
          | inr (address, e) ↦
              rw (e, allocate_dma_buffer)
                (λ got. (
                  address,
                  common_pushed (round_to_pages size) address va pa d (pool_alloc 32 w).1 got,
                ))
        ])
      ]

  pushed_undo :
      (size address va pa offset : ℕ) (d : Device) (w : World)
      → va ≢ 0
      → offset < size
      → let d' = pushed size address va pa d in
        ((free_dma_buffer h va d' w).1 ≡ d) × (get_dma_address h (va + offset) d' ≡ pa + offset)
  unfolding free_dma_buffer unlink_block get_dma_address dma_address
  pushed_undo size address va pa offset d w named inside = (ground arith, ground arith)

  -- After an allocation that succeeds at an address that is not NULL, each address inside the buffer
  -- is translated to the logical address at the same offset, and freeing the buffer gives the device
  -- back as it was before.
  pub allocate-free :
      (size va pa offset : ℕ) (d : Device) (w w2 : World)
      → (allocate_dma_buffer h size d w).0 ≡ some (va, pa)
      → va ≢ 0
      → offset < round_to_pages size
      → let d' = (allocate_dma_buffer h size d w).1 in
        ((free_dma_buffer h va d' w2).1 ≡ d) × (get_dma_address h (va + offset) d' ≡ pa + offset)
  allocate-free size va pa offset d w w2 got named inside =
      let (address, e) = allocate_pushed size va pa d w got in
      rw e (pushed_undo (round_to_pages size) address va pa offset d w2 named inside)

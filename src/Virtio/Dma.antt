-- ===== src/Virtio/Dma.antt =====
-- The DMA buffers of viosnd/sys/ViosndVirtio.cpp: a list of common buffers, the newest first.
pub mod Ranges
pub mod Counted
use viosnd.Base.{
  ℕ, ◌+◌, ◌-◌, ◌*◌, ◌/◌, Bool, true, false, ◌&&◌, ◌||◌, not, List, [], ◌∷◌, Option, none, some, leb,
  ltb, ◌==◌, if◌then◌else◌, max_ulong,
}
use viosnd.Virtio.Host.{Host}
use viosnd.Virtio.Device.{Device, DmaBlock, M}

-- ROUND_TO_PAGES
abbrev pub round_to_pages : ℕ → ℕ
round_to_pages size = (size + 4095) / 4096 * 4096

-- sizeof(VIOSND_DMA_BLOCK), as the x64 compiler lays it out
abbrev pub dma_block_size : ℕ
dma_block_size = 32

-- The walk of ViosndGetDmaAddress.
unfoldable pub dma_address : List DmaBlock → ℕ → ℕ
dma_address [] va = 0
dma_address (b ∷ rest) va =
    if leb b.va va && ltb va (b.va + b.size)
    then b.logical_address + (va - b.va)
    else dma_address rest va

-- The walk of ViosndFreeDmaBuffer: the block at the address, and the list without it.
unfoldable pub unlink_block : List DmaBlock → ℕ → Option DmaBlock × List DmaBlock
unlink_block [] va = (none, [])
unlink_block (b ∷ rest) va =
    let (found, rest') = unlink_block rest va in
    if b.va == va then (some b, rest) else (found, b ∷ rest')

module _ (h : Host) where
  open h use {World, pool_alloc, pool_free, common_alloc, common_free}

  -- ViosndAllocateDmaBuffer from AllocateCommonBuffer on, for the block at `address`.
  unfoldable pub alloc_common_block : ℕ → ℕ → M World (Option (ℕ × ℕ))
  alloc_common_block size address d w =
      let (buffer, w') = common_alloc size w in
      elim buffer [
        | none ↦ (none, d, pool_free address w')
        | some (va, pa) ↦ (
          some (va, pa),
          record d {
            dma_blocks =
                record { address = address; va = va; logical_address = pa; size = size }
                ∷ d.dma_blocks;
          },
          w',
        )
      ]

  -- ViosndAllocateDmaBuffer: the virtual and the logical address
  unfoldable pub allocate_dma_buffer : ℕ → M World (Option (ℕ × ℕ))
  unfolding alloc_common_block
  allocate_dma_buffer size d w =
      if not d.dma_adapter || ltb max_ulong (round_to_pages size)
      then (none, d, w)
      else let (block, w') = pool_alloc dma_block_size w in
        elim block [
          | none ↦ (none, d, w')
          | some address ↦ alloc_common_block (round_to_pages size) address d w'
        ]

  -- What ViosndFreeDmaBuffer does with the block that it found.
  unfoldable pub release_block : Option DmaBlock → Bool → World → World
  release_block none adapter w = w
  release_block (some b) adapter w =
      pool_free b.address (if adapter then common_free b.size b.logical_address b.va w else w)

  -- ViosndFreeDmaBuffer; 0 is NULL.
  unfoldable pub free_dma_buffer : ℕ → M World (Unit {0})
  unfolding unlink_block release_block
  free_dma_buffer va d w =
      if va == 0
      then (tt, d, w)
      else let (found, rest) = unlink_block d.dma_blocks va in
        (tt, record d { dma_blocks = rest }, release_block found d.dma_adapter w)

  -- ViosndGetDmaAddress
  unfoldable pub get_dma_address : ℕ → Device → ℕ
  unfolding dma_address
  get_dma_address va d = dma_address d.dma_blocks va

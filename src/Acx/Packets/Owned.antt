-- ===== src/Acx/Packets/Owned.antt =====
-- The memory that the packets of viosnd/sys/ViosndAcxCircuit.cpp hold.
use viosnd.Base.{
  ℕ, zero, suc, ◌+◌, ◌-◌, ◌≤◌, ◌<◌, ◌≡◌, ◌≢◌, refl, false, inl, inr, Bool-cases, not, ◌==◌, arith,
  if◌then◌else◌, branches,
}
use viosnd.Acx.Host.{AcxHost}
use viosnd.Acx.Stream.{AcxStream, set_at}
use viosnd.Acx.Periods.{address_of}
use viosnd.Acx.Control.Counted.{given}
use viosnd.Acx.Packets.{alloc_pool, free_pool, free_mdls, free_buffers, free_rt_packet_storage}

-- How many blocks of the pool and MDLs are allocated, and how long the block at an address is: an
-- allocation counts one more if it gives an address, and leaves the blocks that are there as they
-- are; a free counts one less.
pub record Blocks (h : AcxHost) : Type 0 where
  pub live : h.World → ℕ
  pub size_at : ℕ → h.World → ℕ
  pub pool_alloc_lem :
      (n : ℕ) (w : h.World)
      → live (h.pool_alloc n w).1 ≡ live w + given (address_of (h.pool_alloc n w).0)
  pub pool_free_lem : (va : ℕ) (w : h.World) → live (h.pool_free va w) ≡ live w - 1
  pub mdl_alloc_lem :
      (va n : ℕ) (w : h.World)
      → live (h.mdl_alloc va n w).1 ≡ live w + given (address_of (h.mdl_alloc va n w).0)
  pub mdl_free_lem : (mdl : ℕ) (w : h.World) → live (h.mdl_free mdl w) ≡ live w - 1
  pub sized_lem :
      (n : ℕ) (w : h.World)
      → address_of (h.pool_alloc n w).0 ≢ 0
      → size_at (address_of (h.pool_alloc n w).0) (h.pool_alloc n w).1 ≡ n
  pub pool_kept :
      (n va : ℕ) (w : h.World) → size_at va w ≢ 0 → size_at va (h.pool_alloc n w).1 ≡ size_at va w
  pub mdl_kept :
      (block n va : ℕ) (w : h.World)
      → size_at va w ≢ 0
      → size_at va (h.mdl_alloc block n w).1 ≡ size_at va w

-- How many of `n` entries from index `i` on are not NULL
pub tally : ℕ → ℕ → (ℕ → ℕ) → ℕ
tally zero i f = 0
tally (suc n) i f = given (f i) + tally n (i + 1) f

-- What an array of pointers holds, with itself
abbrev pub held : ℕ → ℕ → (ℕ → ℕ) → ℕ
held va n f = if va == 0 then 0 else 1 + tally n 0 f

-- What a stream holds: its four arrays, its packets' buffers and their MDLs
abbrev pub owned : AcxStream → ℕ
owned s =
    held s.packet_mdls_va s.packet_count s.packet_mdls
    + held s.packet_buffers_va s.packet_count s.packet_buffers
    + given s.packets_va
    + given s.ready_queue_va

tally-zeros : (n i : ℕ) → tally n i (λ j. 0) ≡ 0
unfolding tally
tally-zeros zero i = refl
tally-zeros (suc n) i = omega (arith, tally-zeros n (i + 1))

pub held-zeros : (va n : ℕ) → held va n (λ j. 0) ≡ given va
held-zeros va n = ground (arith, tally-zeros n 0)

pub held-none : (va n : ℕ) (f : ℕ → ℕ) → n ≡ 0 → held va n f ≡ given va
unfolding tally
held-none va zero f none = ground arith
held-none va (suc n) f none = absurd (omega (arith, none))

-- An entry before those that are counted
tally-before : (n i k v : ℕ) (f : ℕ → ℕ) → k < i → tally n i (set_at k v f) ≡ tally n i f
unfolding tally
tally-before zero i k v f before = refl
tally-before (suc n) i k v f before =
    let other : (i == k) ≡ false = ground (arith, before) in
    rw other (omega (arith, tally-before n (i + 1) k v f (omega (arith, before))))

tally-set :
    (n i k v : ℕ) (f : ℕ → ℕ)
    → i ≤ k
    → k < n + i
    → f k ≡ 0
    → v ≢ 0
    → tally n i (set_at k v f) ≡ tally n i f + 1
unfolding tally
tally-set zero i k v f from to empty some_v = absurd (omega (arith, from, to))
tally-set (suc n) i k v f from to empty some_v = elim (Bool-cases (i == k)) [
  | inl here ↦
      let same : i ≡ k = ground (arith, here) in
      let before = tally-before n (i + 1) k v f (omega (arith, same)) in
      let free : given (f i) ≡ 0 = rw (same, empty) refl in
      let taken : given v ≡ 1 = ground (arith, some_v) in
      rw here (omega (arith, before, free, taken))
  | inr other ↦
      let differs : i ≢ k = ground (arith, other) in
      let later =
        tally-set n (i + 1) k v f (omega (arith, from, differs)) (omega (arith, to)) empty some_v in
      rw other (omega (arith, later))
]

pub held-set :
    (va n k v : ℕ) (f : ℕ → ℕ)
    → va ≢ 0
    → k < n
    → f k ≡ 0
    → v ≢ 0
    → held va n (set_at k v f) ≡ held va n f + 1
held-set va n k v f some_va below empty some_v =
    let array : (va == 0) ≡ false = ground (arith, some_va) in
    let more = tally-set n 0 k v f (omega arith) (omega (arith, below)) empty some_v in
    rw array (omega (arith, more))

module _ (h : AcxHost) (blocks : Blocks h) where
  open h use {World, pool_free, mdl_free}
  open blocks use {live}

  alloc_pool-live :
      (n : ℕ) (w : World) → live (alloc_pool h n w).1 ≡ live w + given (alloc_pool h n w).0
  alloc_pool-live n w = blocks.pool_alloc_lem n w

  free_pool-live : (va : ℕ) (w : World) → live (free_pool h va w) ≡ live w - given va
  free_pool-live va w =
      branches (λ x. live x ≡ live w - given va) (not (va == 0))
        (λ some_va. ground (arith, some_va, blocks.pool_free_lem va w))
        (λ null. ground (arith, null))

  free_mdls-live :
      (n i : ℕ) (f : ℕ → ℕ) (w : World) → live (free_mdls h n i f w) ≡ live w - tally n i f
  unfolding free_mdls tally
  free_mdls-live zero i f w = omega arith
  free_mdls-live (suc n) i f w =
      let w1 = if not (f i == 0) then mdl_free (f i) w else w in
      let freed : live w1 ≡ live w - given (f i) =
        branches (λ x. live x ≡ live w - given (f i)) (not (f i == 0))
          (λ some_mdl. ground (arith, some_mdl, blocks.mdl_free_lem (f i) w))
          (λ null. ground (arith, null)) in
      omega (arith, freed, free_mdls-live n (i + 1) f w1)

  free_buffers-live :
      (n i : ℕ) (f : ℕ → ℕ) (w : World) → live (free_buffers h n i f w) ≡ live w - tally n i f
  unfolding free_buffers tally
  free_buffers-live zero i f w = omega arith
  free_buffers-live (suc n) i f w =
      omega (arith, free_pool-live (f i) w, free_buffers-live n (i + 1) f (free_pool h (f i) w))

  -- ViosndFreeRtPacketStorage gives back what the stream holds.
  pub storage-live :
      (s : AcxStream) (w : World) → live (free_rt_packet_storage h s w).1 ≡ live w - owned s
  unfolding free_rt_packet_storage
  storage-live s w =
      let w1 =
        if not (s.packet_mdls_va == 0)
        then pool_free s.packet_mdls_va (free_mdls h s.packet_count 0 s.packet_mdls w)
        else w in
      let w2 =
        if not (s.packet_buffers_va == 0)
        then pool_free s.packet_buffers_va (free_buffers h s.packet_count 0 s.packet_buffers w1)
        else w1 in
      let mdls = held s.packet_mdls_va s.packet_count s.packet_mdls in
      let buffers = held s.packet_buffers_va s.packet_count s.packet_buffers in
      let first : live w1 ≡ live w - mdls =
        branches (λ x. live x ≡ live w - mdls) (not (s.packet_mdls_va == 0))
          (λ there. ground (
            arith,
            there,
            blocks.pool_free_lem s.packet_mdls_va (free_mdls h s.packet_count 0 s.packet_mdls w),
            free_mdls-live s.packet_count 0 s.packet_mdls w,
          ))
          (λ null. ground (arith, null)) in
      let second : live w2 ≡ live w1 - buffers =
        branches (λ x. live x ≡ live w1 - buffers) (not (s.packet_buffers_va == 0))
          (λ there. ground (
            arith,
            there,
            blocks.pool_free_lem s.packet_buffers_va
                (free_buffers h s.packet_count 0 s.packet_buffers w1),
            free_buffers-live s.packet_count 0 s.packet_buffers w1,
          ))
          (λ null. ground (arith, null)) in
      omega (
        arith,
        first,
        second,
        free_pool-live s.packets_va w2,
        free_pool-live s.ready_queue_va (free_pool h s.packets_va w2),
      )

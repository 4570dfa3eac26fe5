-- ===== src/Acx/Packets.antt =====
-- The packets that viosnd/sys/ViosndAcxCircuit.cpp shares with the audio stack.
pub mod Owned
pub mod Filling
pub mod Shared
use viosnd.Base.{
  ℕ, zero, suc, ◌+◌, ◌-◌, ◌*◌, ◌/◌, ◌&&◌, ◌||◌, not, ltb, ◌==◌, if◌then◌else◌, replicate,
}
use viosnd.Status.{
  NtStatus, status_success, status_insufficient_resources, status_invalid_parameter,
}
use viosnd.Acx.Host.{AcxHost}
use viosnd.Acx.Stream.{AcxStream, set_at}
use viosnd.Acx.Periods.{address_of}

-- (PacketSize + PAGE_SIZE - 1) & ~(PAGE_SIZE - 1), of at most a page
abbrev pub page_round : ℕ → ℕ
page_round n = (n + 4095) / 4096 * 4096

-- The fields that ViosndFreeRtPacketStorage resets
unfoldable pub reset_packets : AcxStream → AcxStream
reset_packets s = record s {
  packet_mdls_va = 0;
  packet_buffers_va = 0;
  packets_va = 0;
  ready_queue_va = 0;
  packet_count = 0;
  packet_size = 0;
  packet_alloc_bytes = 0;
  first_packet_offset = 0;
  ready_capacity = 0;
  ready_head = 0;
  ready_tail = 0;
  ready_count = 0;
}

-- The stream with packet `i` in its buffer and MDL
unfoldable pub put_packet : ℕ → ℕ → ℕ → ℕ → ℕ → AcxStream → AcxStream
put_packet i buffer mdl bytes offset s = record s {
  packet_buffers = set_at i buffer s.packet_buffers;
  packet_mdls = set_at i mdl s.packet_mdls;
  packet_offsets = set_at i offset s.packet_offsets;
  contents = set_at i (replicate (bytes - offset) 0) s.contents;
}

module _ (h : AcxHost) where
  open h use {World, pool_alloc, pool_free, mdl_alloc, mdl_free, rt_packet_size}

  -- An allocation: its address, NULL if there is no memory
  abbrev pub alloc_pool : ℕ → World → ℕ × World
  alloc_pool size w = let (va, w') = pool_alloc size w in (address_of va, w')

  -- ExFreePoolWithTag, of a pointer that may be NULL
  abbrev pub free_pool : ℕ → World → World
  free_pool va w = if not (va == 0) then pool_free va w else w

  -- The loop over PacketMdls in ViosndFreeRtPacketStorage, of `n` entries from index `i` on. Its
  -- entries are not kept: the array is freed next.
  unfoldable pub free_mdls : ℕ → ℕ → (ℕ → ℕ) → World → World
  free_mdls zero i mdls w = w
  free_mdls (suc n) i mdls w =
      free_mdls n (i + 1) mdls (if not (mdls i == 0) then mdl_free (mdls i) w else w)

  -- The loop over PacketBuffers, in the same way
  unfoldable pub free_buffers : ℕ → ℕ → (ℕ → ℕ) → World → World
  free_buffers zero i buffers w = w
  free_buffers (suc n) i buffers w = free_buffers n (i + 1) buffers (free_pool (buffers i) w)

  -- ViosndFreeRtPacketStorage, of a stream that is not NULL
  unfoldable pub free_rt_packet_storage : AcxStream → World → AcxStream × World
  unfolding free_mdls free_buffers reset_packets
  free_rt_packet_storage s w =
      let w1 =
        if not (s.packet_mdls_va == 0)
        then pool_free s.packet_mdls_va (free_mdls s.packet_count 0 s.packet_mdls w)
        else w in
      let w2 =
        if not (s.packet_buffers_va == 0)
        then pool_free s.packet_buffers_va (free_buffers s.packet_count 0 s.packet_buffers w1)
        else w1 in
      (reset_packets s, free_pool s.ready_queue_va (free_pool s.packets_va w2))

  -- The loop of ViosndEvtStreamAllocateRtPackets, over `n` packets from index `i` on
  unfoldable pub fill_packets : ℕ → ℕ → ℕ → ℕ → AcxStream → World → NtStatus × AcxStream × World
  unfolding free_rt_packet_storage put_packet
  fill_packets zero i bytes first s w = (status_success, s, w)
  fill_packets (suc n) i bytes first s w =
      let (buffer, w1) = alloc_pool bytes w in
      let (mdl, w2) = mdl_alloc buffer bytes w1 in
      let offset = if i == 0 then first else 0 in
      let s1 = record s { packet_buffers = set_at i buffer s.packet_buffers } in
      let s2 = put_packet i buffer (address_of mdl) bytes offset s in
      let rest = fill_packets n (i + 1) bytes first s2 w2 in
      let (s3, w3) = free_rt_packet_storage s w1 in
      let (s4, w4) = free_rt_packet_storage s1 w2 in
      if buffer == 0
      then (status_insufficient_resources, s3, w3)
      else if address_of mdl == 0
      then (status_insufficient_resources, s4, w4)
      else rest

  -- ViosndEvtStreamAllocateRtPackets once the arrays are there
  unfoldable pub share_packets : ℕ → ℕ → AcxStream → World → NtStatus × AcxStream × World
  unfolding fill_packets
  share_packets count size s w =
      let bytes = page_round size in
      let cleared = record s {
        packet_buffers = λ i. 0;
        packet_mdls = λ i. 0;
        packet_offsets = λ i. 0;
        ready_queue = λ i. 0;
        packet_count = count;
      } in
      let (status, t, w') = fill_packets count 0 bytes (bytes - size) cleared w in
      let done = record t {
        packet_count = count;
        packet_size = size;
        packet_alloc_bytes = bytes;
        first_packet_offset = bytes - size;
        ready_capacity = if t.capture then 0 else count;
        ready_head = 0;
        ready_tail = 0;
        ready_count = 0;
      } in
      if status == status_success then (status, done, w') else (status, t, w')

  -- ViosndEvtStreamAllocateRtPackets; the packets are given out with a success.
  unfoldable pub allocate_rt_packets : ℕ → ℕ → AcxStream → World → NtStatus × AcxStream × World
  unfolding free_rt_packet_storage share_packets
  allocate_rt_packets count size s w =
      let (s0, w0) = free_rt_packet_storage s w in
      let (packets, w1) = alloc_pool (count * rt_packet_size) w0 in
      let (buffers, w2) = alloc_pool (count * 8) w1 in
      let (mdls, w3) = alloc_pool (count * 8) w2 in
      let (ready, w4) = if not s.capture then alloc_pool (count * 4) w3 else (0, w3) in
      let s1 = record s0 {
        packets_va = packets;
        packet_buffers_va = buffers;
        packet_mdls_va = mdls;
        ready_queue_va = ready;
      } in
      let (s2, w5) = free_rt_packet_storage s1 w4 in
      if count == 0 || size == 0 || ltb 4096 size
      then (status_invalid_parameter, s, w)
      else if packets == 0 || buffers == 0 || mdls == 0 || (not s.capture && ready == 0)
      then (status_insufficient_resources, s2, w5)
      else share_packets count size s1 w4

  -- ViosndEvtStreamFreeRtPackets
  unfoldable pub free_rt_packets : AcxStream → World → AcxStream × World
  unfolding free_rt_packet_storage
  free_rt_packets s w = free_rt_packet_storage s w

-- ===== src/Virtio/Setup/Counted.antt =====
-- The bring-up and the removal of the device in viosnd/sys/ViosndVirtio.cpp leave no common buffer
-- behind.
use viosnd.Base.{
  ℕ, zero, suc, ◌+◌, ◌≡◌, refl, ◌∙◌, Bool, true, false, List, [], ◌∷◌, Option, none, some, inl, inr,
  length, arith, ◌==◌, if◌then◌else◌, Bool-cases, Option-cases,
}
use viosnd.Status.{NtStatus, nt_success}
use viosnd.Virtio.Host.{Host, EventBuffer}
use viosnd.Virtio.Device.{Device, Bar, DmaBlock}
use viosnd.Virtio.Bus.{Bus, Range, Resources}
use viosnd.Virtio.Bars.{map_bar, map_ranges, map_bars, max_bars}
use viosnd.Virtio.Dma.{allocate_dma_buffer, free_dma_buffer, release_block}
use viosnd.Virtio.Dma.Counted.{
  CommonLaws, IsCounted, allocate_dma_buffer-IsCounted, free_dma_buffer-IsCounted, release-counted,
}
use viosnd.Virtio.Control.Counted.{recount, relabel}
use viosnd.Virtio.Setup.{
  zero_device, send_synchronous_pnp, query_pci_bus_interface, read_pci_header,
  initialize_dma_adapter, free_events, alloc_contiguous, free_contiguous, alloc_queues, free_queues,
  quit_virtio, unmap_bars, free_blocks, destroy_device, prepare_device, create_at, create_device,
  negotiate, fail_virtio, init_virtio, common_features,
}

-- The bus, the PnP manager and the virtio library allocate and free no common buffer of their own.
pub record BusLaws (h : Host) (bus : Bus h.World) (live : h.World → ℕ) : Type 0 where
  pub irp : (w : h.World) → live (bus.irp_alloc w).1 ≡ live w
  pub irp_done : (w : h.World) → live (bus.irp_free w) ≡ live w
  pub called : (w : h.World) → live (bus.call_driver w).1 ≡ live w
  pub waited : (w : h.World) → live (bus.wait_irp w).1 ≡ live w
  pub adapter : (w : h.World) → live (bus.get_dma_adapter w).1 ≡ live w
  pub no_adapter : (w : h.World) → live (bus.put_dma_adapter w) ≡ live w
  pub bus_gone : (w : h.World) → live (bus.bus_dereference w) ≡ live w
  pub referenced : (w : h.World) → live (bus.object_reference w) ≡ live w
  pub dereferenced : (w : h.World) → live (bus.object_dereference w) ≡ live w
  pub unmapped : (va n : ℕ) (w : h.World) → live (bus.unmap_io va n w) ≡ live w
  pub begun : (w : h.World) → live (bus.virtio_initialize w).1 ≡ live w
  pub reset : (w : h.World) → live (bus.virtio_reset w) ≡ live w
  pub status : (n : ℕ) (w : h.World) → live (bus.virtio_add_status n w) ≡ live w
  pub agreed : (n : ℕ) (w : h.World) → live (bus.virtio_set_features n w).1 ≡ live w
  pub found :
      (l : List (Option (ℕ × ℕ))) (w : h.World) → live (bus.virtio_find_queues l w).1 ≡ live w
  pub ready : (w : h.World) → live (bus.virtio_ready w) ≡ live w
  pub deleted : (w : h.World) → live (bus.virtio_delete_queues w) ≡ live w
  pub shut : (w : h.World) → live (bus.virtio_shutdown w) ≡ live w

-- Where ViosndCreateDevice gives a device its buffers are counted; else it failed, and none is left.
abbrev pub IsCreated : {W : Type 0} → (W → ℕ) → NtStatus → Option (ℕ × Device) → W → Type 0
IsCreated live status none w = (nt_success status ≡ false) × (live w ≡ 0)
IsCreated live status (some (address, d)) w = IsCounted live d w

module _ (h : Host) (bus : Bus h.World) (live : h.World → ℕ) (laws : CommonLaws h live)
    (calls : BusLaws h bus live) where
  open h use {World, pool_alloc, pool_free}
  open bus use {
    irp_alloc, irp_free, get_dma_adapter, virtio_initialize, virtio_reset, virtio_add_status,
    virtio_features, virtio_set_features, virtio_find_queues, queue_sizes, queue_buffers,
    virtio_ready, virtio_delete_queues, virtio_shutdown, unmap_io, object_reference, device_size,
    put_dma_adapter, bus_dereference,
  }

  pnp-live : (w : World) → live (send_synchronous_pnp h bus w).1 ≡ live w
  unfolding send_synchronous_pnp
  pnp-live w = ground (arith, calls.called w, calls.waited (bus.call_driver w).1)

  query-counted :
      (d : Device) (w : World)
      → IsCounted live d w
      → let (_, d', w') = query_pci_bus_interface h bus d w in IsCounted live d' w'
  unfolding query_pci_bus_interface
  query-counted d w c =
      let (irp, w1) = irp_alloc w in
      let (status, w2) = send_synchronous_pnp h bus w1 in
      let c1 = recount live (calls.irp w) c in
      let c3 = recount live (calls.irp_done w2 ∙ pnp-live w1 ∙ calls.irp w) c in
      ground (arith, c, c1, c3, relabel live {d = d} {e = record d { pci_bus = true }} refl refl c3)

  query-adapter :
      (d : Device) (w : World) → (query_pci_bus_interface h bus d w).1.dma_adapter ≡ d.dma_adapter
  unfolding query_pci_bus_interface
  query-adapter d w = ground arith

  header-counted :
      (d : Device) (w : World)
      → IsCounted live d w
      → let (_, d', w') = read_pci_header h bus d w in
        IsCounted live d' w' × (d'.dma_adapter ≡ d.dma_adapter)
  unfolding read_pci_header
  header-counted d w c = (c, refl)

  adapter-counted :
      (d : Device) (w : World)
      → IsCounted live d w
      → d.dma_adapter ≡ false
      → let (_, d', w') = initialize_dma_adapter h bus d w in IsCounted live d' w'
  unfolding initialize_dma_adapter
  adapter-counted d w c off = ground (arith, c, recount live (calls.adapter w) c)

  map_bar-same :
      (port : Bool) (r : Option Range) (d : Device)
      → let d' = map_bar bus port r d in
        (d'.dma_blocks ≡ d.dma_blocks) × (d'.dma_adapter ≡ d.dma_adapter)
  unfolding map_bar
  map_bar-same port none d = (refl, refl)
  map_bar-same port (some r) d = elim (Option-cases (bus.bar_index r.start)) [
    | inl e ↦ rw (e, map_bar) (refl, refl)
    | inr (i, e) ↦ rw (e, map_bar) (ground arith, ground arith)
  ]

  map_ranges-same :
      (port : Bool) (l : List (Option Range)) (d : Device)
      → let d' = map_ranges bus port l d in
        (d'.dma_blocks ≡ d.dma_blocks) × (d'.dma_adapter ≡ d.dma_adapter)
  unfolding map_ranges
  map_ranges-same port [] d = (refl, refl)
  map_ranges-same port (r ∷ rest) d =
      let (blocks, adapter) = map_bar-same port r d in
      let (blocks', adapter') = map_ranges-same port rest (map_bar bus port r d) in
      (blocks' ∙ blocks, adapter' ∙ adapter)

  map_bars-counted :
      (r : Resources) (d : Device) (w : World)
      → IsCounted live d w
      → IsCounted live (map_bars bus r d) w
  unfolding map_bars
  map_bars-counted r d w c =
      let d1 = map_ranges bus false r.memory d in
      let (blocks, adapter) = map_ranges-same false r.memory d in
      let (blocks', adapter') = map_ranges-same true r.ports d1 in
      relabel live (blocks' ∙ blocks) (adapter' ∙ adapter) c

  events-counted :
      (l : List EventBuffer) (d : Device) (w : World)
      → IsCounted live d w
      → let (_, d', w') = free_events h bus l d w in IsCounted live d' w'
  unfolding free_events
  events-counted [] d w c = c
  events-counted (b ∷ rest) d w c =
      let (_, d', w') = free_dma_buffer h b.event_va d w in
      events-counted rest d' w' (free_dma_buffer-IsCounted h live laws b.event_va d w c)

  alloc_queues-counted :
      (l : List ℕ) (d : Device) (w : World)
      → IsCounted live d w
      → let (_, d', w') = alloc_queues h bus l d w in IsCounted live d' w'
  unfolding alloc_queues alloc_contiguous
  alloc_queues-counted [] d w c = c
  alloc_queues-counted (size ∷ rest) d w c =
      let (_, d', w') = allocate_dma_buffer h size d w in
      alloc_queues-counted rest d' w' (allocate_dma_buffer-IsCounted h live laws size d w c)

  free_queues-counted :
      (l : List ℕ) (d : Device) (w : World)
      → IsCounted live d w
      → let (_, d', w') = free_queues h bus l d w in IsCounted live d' w'
  unfolding free_queues free_contiguous
  free_queues-counted [] d w c = c
  free_queues-counted (va ∷ rest) d w c =
      let (_, d', w') = free_dma_buffer h va d w in
      free_queues-counted rest d' w' (free_dma_buffer-IsCounted h live laws va d w c)

  quit-counted :
      (d : Device) (w : World)
      → IsCounted live d w
      → let (_, d', w') = quit_virtio h bus d w in IsCounted live d' w'
  unfolding quit_virtio
  quit-counted d w c =
      let w1 = virtio_reset w in
      let (_, d2, w2) = free_queues h bus (queue_buffers w1) d w1 in
      recount live (calls.shut (virtio_delete_queues w2) ∙ calls.deleted w2)
        (free_queues-counted (queue_buffers w1) d w1 (recount live (calls.reset w) c))

  unmap-live : (n i : ℕ) (bars : ℕ → Bar) (w : World) → live (unmap_bars h bus n i bars w) ≡ live w
  unfolding unmap_bars
  unmap-live zero i bars w = refl
  unmap-live (suc n) i bars w =
      let bar = bars i in
      let w' = if bar.base_va == 0 then w else unmap_io bar.base_va bar.length w in
      let same : live w' ≡ live w = ground (arith, calls.unmapped bar.base_va bar.length w) in
      unmap-live n (i + 1) bars w' ∙ same

  free_blocks-live :
      (l : List DmaBlock) (adapter : Bool) (w : World)
      → live w ≡ length l
      → (adapter ≡ false → length l ≡ 0)
      → live (free_blocks h bus l adapter w) ≡ 0
  unfolding free_blocks
  free_blocks-live [] adapter w counted adapted = counted
  free_blocks-live (b ∷ rest) false w counted adapted = absurd (omega (arith, adapted refl))
  free_blocks-live (b ∷ rest) true w counted adapted =
      free_blocks-live rest true (release_block h (some b) true w)
        (release-counted h live laws b (length rest) true w refl counted) (λ e. cc)

  -- A call that is made or not
  either-live : (b : Bool) (v w : World) → live v ≡ live w → live (if b then v else w) ≡ live w
  either-live true v w same = same
  either-live false v w same = refl

  quits-counted :
      (b : Bool) (d : Device) (w : World)
      → IsCounted live d w
      → let (_, d', w') = if b then quit_virtio h bus d w else (tt, d, w) in IsCounted live d' w'
  quits-counted true d w c = quit-counted d w c
  quits-counted false d w c = c

  -- ViosndDestroyDevice gives back every common buffer that the device still holds.
  pub destroy_device-live :
      (address : ℕ) (d : Device) (w : World)
      → IsCounted live d w
      → live (destroy_device h bus address d w) ≡ 0
  unfolding destroy_device
  destroy_device-live address d w c =
      let (_, d0, w0) = if d.virtio_initialized then quit_virtio h bus d w else (tt, d, w) in
      let c0 = quits-counted d.virtio_initialized d w c in
      let (_, d1, w1) = free_events h bus d.event_buffers d0 w0 in
      let c1 = events-counted d.event_buffers d0 w0 c0 in
      let w2 = unmap_bars h bus max_bars 0 d1.bars w1 in
      let counted = unmap-live max_bars 0 d1.bars w1 ∙ c1.counted in
      let w3 = free_blocks h bus d1.dma_blocks d1.dma_adapter w2 in
      let w4 = if d1.dma_adapter then put_dma_adapter w3 else w3 in
      let w5 = if d1.pci_bus then bus_dereference w4 else w4 in
      laws.unpool address _
      ∙ either-live d1.physical_device _ w5 (calls.dereferenced w5)
      ∙ either-live d1.pci_bus _ w4 (calls.bus_gone w4)
      ∙ either-live d1.dma_adapter _ w3 (calls.no_adapter w3)
      ∙ free_blocks-live d1.dma_blocks d1.dma_adapter w2 counted c1.adapted

  prepare_device-counted :
      (r : Resources) (d : Device) (w : World)
      → IsCounted live d w
      → d.dma_adapter ≡ false
      → let (_, d', w') = prepare_device h bus r d w in IsCounted live d' w'
  unfolding prepare_device
  prepare_device-counted r d w c off =
      let (queried, d1, w1) = query_pci_bus_interface h bus d w in
      let c1 = query-counted d w c in
      let off1 = query-adapter d w ∙ off in
      let (header, d2, w2) = read_pci_header h bus d1 w1 in
      let (c2, kept) = header-counted d1 w1 c1 in
      let (adapter, d3, w3) = initialize_dma_adapter h bus d2 w2 in
      let c3 = adapter-counted d2 w2 c2 (kept ∙ off1) in
      ground (arith, c1, c2, c3, map_bars-counted r d3 w3 c3)

  negotiate-counted :
      (d : Device) (w : World)
      → IsCounted live d w
      → let (_, d', w') = negotiate h bus d w in IsCounted live d' w'
  unfolding negotiate
  negotiate-counted d w c =
      let v = virtio_add_status 1 (virtio_reset w) in
      let w1 = virtio_add_status 2 v in
      let same1 = calls.status 2 v ∙ calls.status 1 (virtio_reset w) ∙ calls.reset w in
      let features = common_features (virtio_features w1) in
      let (agreed, w2) = virtio_set_features features w1 in
      let c2 = recount live (calls.agreed features w1 ∙ same1) c in
      let (buffers, d3, w3) = alloc_queues h bus (queue_sizes w2) d w2 in
      let c3 = alloc_queues-counted (queue_sizes w2) d w2 c2 in
      let (found, w4) = virtio_find_queues buffers w3 in
      let c4 = recount live (calls.found buffers w3) c3 in
      let c5 = recount live (calls.ready w4) c4 in
      elim (Bool-cases (nt_success agreed)) [
        | inr refused ↦ rw (refused, negotiate) c2
        | inl agrees ↦
            rw (agrees, negotiate)
              (elim (Bool-cases (nt_success found)) [
                | inr missing ↦ rw (missing, negotiate) c4
                | inl all ↦ rw (all, negotiate) (relabel live refl refl c5)
              ])
      ]

  fail-counted :
      (d : Device) (w : World)
      → IsCounted live d w
      → let (d', w') = fail_virtio h bus d w in IsCounted live d' w'
  unfolding fail_virtio
  fail-counted d w c =
      let (_, d1, w1) = free_events h bus d.event_buffers d w in
      relabel live refl refl (quit-counted d1 w1 (events-counted d.event_buffers d w c))

  pub init_virtio-counted :
      (d : Device) (w : World)
      → IsCounted live d w
      → let (_, d', w') = init_virtio h bus d w in IsCounted live d' w'
  unfolding init_virtio
  init_virtio-counted d w c =
      let (begun, w1) = virtio_initialize w in
      let c1 = recount live (calls.begun w) c in
      let (status, d2, w2) = negotiate h bus d w1 in
      let c2 = negotiate-counted d w1 c1 in ground (arith, c1, c2, fail-counted d2 w2 c2)

  create_at-live :
      (address : ℕ) (physical faulted : Bool) (r : Resources) (w : World)
      → live w ≡ 0
      → let (status, made, w') = create_at h bus address physical faulted r w in
        IsCreated live status made w'
  unfolding create_at zero_device
  create_at-live address physical faulted r w none_yet =
      let w0 = if physical then object_reference w else w in
      let d0 = zero_device physical faulted in
      let c0 : IsCounted live d0 w0 = record {
        counted = either-live physical _ w (calls.referenced w) ∙ none_yet;
        adapted = λ e. refl;
      } in
      let (status, d, w1) = prepare_device h bus r d0 w0 in
      let c1 = prepare_device-counted r d0 w0 c0 refl in
      elim (Bool-cases (nt_success status)) [
        | inl fine ↦ rw (fine, create_at) c1
        | inr failed ↦ rw (failed, create_at) (failed, destroy_device-live address d w1 c1)
      ]

  pub create_device-live :
      (physical faulted : Bool) (r : Resources) (w : World)
      → live w ≡ 0
      → let (status, made, w') = create_device h bus physical faulted r w in
        IsCreated live status made w'
  unfolding create_device
  create_device-live physical faulted r w none_yet =
      let same = laws.pool device_size w ∙ none_yet in
      elim (Option-cases (pool_alloc device_size w).0) [
        | inl e ↦ rw (e, create_device) (refl, same)
        | inr (address, e) ↦
            rw (e, create_device)
              (create_at-live address physical faulted r (pool_alloc device_size w).1 same)
      ]

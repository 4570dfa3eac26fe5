-- ===== src/Adapter/Start.antt =====
-- The start of the device in viosnd/sys/Adapter.cpp: it is given to the driver, or gives all back.
use viosnd.Base.{
  ℕ, ◌≡◌, ◌∙◌, refl, Bool, true, false, not, ◌&&◌, Option, none, some, inl, inr, arith, ◌==◌,
  if◌then◌else◌, Bool-cases, Option-cases,
}
use viosnd.Status.{NtStatus, nt_success}
use viosnd.Pcm.{StreamPair}
use viosnd.Virtio.Host.{Host}
use viosnd.Virtio.Device.{Device}
use viosnd.Virtio.Bus.{Bus, Resources}
use viosnd.Virtio.Pcm.{query_pcm_streams}
use viosnd.Virtio.Dma.Counted.{CommonLaws, IsCounted}
use viosnd.Virtio.Control.Counted.{QuietLaws, recount, query_pcm_streams-IsCounted}
use viosnd.Virtio.Setup.{create_device, destroy_device, init_virtio}
use viosnd.Virtio.Setup.Counted.{
  BusLaws, IsCreated, init_virtio-counted, destroy_device-live, create_device-live,
}
use viosnd.Adapter.{
  Kind, wave, topology, MiniportObject, PortCls, RegistryValue, Subdevice, read_device_dword,
  role_render, role_capture, role_both, pair_or_none, lacks_stream, release_subdevice,
  create_miniport, register_subdevice, create_and_register, connect_endpoint,
  register_audio_endpoint, register_if, register_endpoints, start_created, start_made, start_device,
}

-- PortCls allocates and frees no common buffer of the device.
pub record PortLaws (h : Host) (pc : PortCls h.World) (live : h.World → ℕ) : Type 0 where
  pub port : (k : Kind) (w : h.World) → live (pc.new_port k w).2 ≡ live w
  pub begun : (p : ℕ) (m : MiniportObject) (w : h.World) → live (pc.init_port p m w).1 ≡ live w
  pub registered :
      (k : Kind) (c : Bool) (p : ℕ) (w : h.World) → live (pc.register k c p w).1 ≡ live w
  pub connected : (p a q b : ℕ) (w : h.World) → live (pc.connect p a q b w).1 ≡ live w
  pub released : (p : ℕ) (w : h.World) → live (pc.release p w) ≡ live w
  pub physical : (w : h.World) → live (pc.physical_device w).1 ≡ live w

-- A device that is started is counted; a start that failed gives no device and leaves no buffer.
pub record IsStarted {W : Type 0} (live : W → ℕ) (status : NtStatus) (made : Option (ℕ × Device))
    (w : W) : Type 0 where
  pub up : nt_success status ≡ true → (r : ℕ × Device) × (made ≡ some r) × IsCounted live r.1 w
  pub down : nt_success status ≡ false → (made ≡ none) × (live w ≡ 0)

module _ (h : Host) (bus : Bus h.World) (pc : PortCls h.World) (live : h.World → ℕ)
    (laws : CommonLaws h live) (quiet : QuietLaws h live) (calls : BusLaws h bus live)
    (ports : PortLaws h pc live) where
  open h use {World, pool_alloc}
  open pc use {new_port, init_port, register, connect, release, miniport_size}

  release-live : (s : Subdevice) (w : World) → live (release_subdevice h bus pc s w) ≡ live w
  unfolding release_subdevice
  release-live s w =
      let w' = if s.miniport == 0 then w else release s.miniport w in
      let same : live w' ≡ live w = ground (arith, ports.released s.miniport w) in
      ground (arith, same, ports.released s.port w')

  miniport-live :
      (k : Kind) (stream_id : ℕ) (c : Bool) (w : World)
      → live (create_miniport h bus pc k stream_id c w).2 ≡ live w
  unfolding create_miniport
  miniport-live k stream_id c w = elim (Option-cases (pool_alloc (miniport_size k) w).0) [
    | inl e ↦ rw (e, create_miniport) (laws.pool (miniport_size k) w)
    | inr (address, e) ↦ rw (e, create_miniport) (laws.pool (miniport_size k) w)
  ]

  subdevice-live :
      (k : Kind) (stream_id : ℕ) (c : Bool) (port : ℕ) (w : World)
      → live (register_subdevice h bus pc k stream_id c port w).2 ≡ live w
  unfolding register_subdevice
  subdevice-live k stream_id c port w =
      let (made, m, w1) = create_miniport h bus pc k stream_id c w in
      let (begun, w2) = init_port port m w1 in
      let (registered, w3) = register k c port w2 in
      let s : Subdevice = record { port = port; miniport = m.address } in
      let same1 = miniport-live k stream_id c w in
      let same2 = ports.begun port m w1 ∙ same1 in
      let same3 = ports.registered k c port w2 ∙ same2 in
      ground (
        arith,
        release-live s w1 ∙ same1,
        release-live s w2 ∙ same2,
        release-live s w3 ∙ same3,
        same3,
      )

  create-live :
      (k : Kind) (stream_id : ℕ) (c : Bool) (w : World)
      → live (create_and_register h bus pc k stream_id c w).2 ≡ live w
  unfolding create_and_register
  create-live k stream_id c w =
      let (status, port, w') = new_port k w in
      ground (arith, ports.port k w, subdevice-live k stream_id c port w' ∙ ports.port k w)

  connect-live :
      (c : Bool) (topo wav : Subdevice) (w : World)
      → live (connect_endpoint h bus pc c topo wav w).1 ≡ live w
  unfolding connect_endpoint
  connect-live true topo wav w = ports.connected _ _ _ _ w
  connect-live false topo wav w = ports.connected _ _ _ _ w

  endpoint-live :
      (stream_id : ℕ) (c : Bool) (w : World)
      → live (register_audio_endpoint h bus pc stream_id c w).1 ≡ live w
  unfolding register_audio_endpoint
  endpoint-live stream_id c w =
      let (first, topo, w1) = create_and_register h bus pc topology 0 c w in
      let (second, wav, w2) = create_and_register h bus pc wave stream_id c w1 in
      let (connected, w3) = connect_endpoint h bus pc c topo wav w2 in
      let same1 = create-live topology 0 c w in
      let same2 = create-live wave stream_id c w1 ∙ same1 in
      let same3 = connect-live c topo wav w2 ∙ same2 in
      ground (
        arith,
        same1,
        release-live topo (release_subdevice h bus pc wav w3) ∙ release-live wav w3 ∙ same3,
        release-live topo (release_subdevice h bus pc wav w2) ∙ release-live wav w2 ∙ same2,
      )

  register_if-live :
      (wanted : Bool) (stream_id : ℕ) (c : Bool) (w : World)
      → live (register_if h bus pc wanted stream_id c w).1 ≡ live w
  unfolding register_if
  register_if-live true stream_id c w = endpoint-live stream_id c w
  register_if-live false stream_id c w = refl

  endpoints-live :
      (role : ℕ) (p : StreamPair) (w : World)
      → live (register_endpoints h bus pc role p w).1 ≡ live w
  unfolding register_endpoints
  endpoints-live role p w =
      let render = not (role == role_capture) && p.has_render in
      let capture = not (role == role_render) && p.has_capture in
      let (first, w1) = register_if h bus pc render p.render_stream_id false w in
      let same1 = register_if-live render p.render_stream_id false w in
      ground (arith, same1, register_if-live capture p.capture_stream_id true w1 ∙ same1)

  destroyed :
      {status : NtStatus} (address : ℕ) (d : Device) (w : World)
      → nt_success status ≡ false
      → IsCounted live d w
      → IsStarted live status none (destroy_device h bus address d w)
  destroyed address d w failed c = record {
    up = λ e. cc;
    down = λ e. (refl, destroy_device-live h bus live laws calls address d w c);
  }

  start_created-IsStarted :
      (role address : ℕ) (d : Device) (w : World)
      → IsCounted live d w
      → let (status, made, w') = start_created h bus pc role address d w in
        IsStarted live status made w'
  unfolding start_created
  start_created-IsStarted role address d w c =
      let (begun, d1, w1) = init_virtio h bus d w in
      let c1 = init_virtio-counted h bus live laws calls d w c in
      let ((queried, pair), d2, w2) = query_pcm_streams h d1 w1 in
      let c2 = query_pcm_streams-IsCounted h live laws quiet d1 w1 c1 in
      let streams = pair_or_none pair in
      let (registered, w3) = register_endpoints h bus pc role streams w2 in
      let c3 = recount live (endpoints-live role streams w2) c2 in
      elim (Bool-cases (nt_success begun)) [
        | inr failed ↦ rw (failed, start_created) (destroyed address d1 w1 failed c1)
        | inl ok ↦
            rw (ok, start_created)
              (elim (Bool-cases (nt_success queried)) [
                | inr failed ↦ rw (failed, start_created) (destroyed address d2 w2 failed c2)
                | inl asked ↦
                    rw (asked, start_created)
                      (elim (Bool-cases (lacks_stream role streams)) [
                        | inl lacks ↦ rw (lacks, start_created) (destroyed address d2 w2 refl c2)
                        | inr has ↦
                            rw (has, start_created)
                              (elim (Bool-cases (nt_success registered)) [
                                | inr failed ↦
                                    rw (failed, start_created) (destroyed address d2 w3 failed c3)
                                | inl fine ↦
                                    rw (fine, start_created)
                                      (record {
                                        up = λ e. ((address, d2), refl, c3);
                                        down = λ e. cc;
                                      })
                              ])
                      ])
              ])
      ]

  -- The device that ViosndCreateDevice made, or not
  started :
      (role : ℕ) (created : NtStatus) (made : Option (ℕ × Device)) (w : World)
      → IsCreated live created made w
      → let (status, kept, w') = start_made h bus pc role created made w in
        IsStarted live status kept w'
  unfolding start_made
  started role created none w (failed, empty) = record { up = λ e. cc; down = λ e. (refl, empty) }
  started role created (some (address, d)) w c = start_created-IsStarted role address d w c

  -- XcbVirtioAudioStartDevice either succeeds and gives the driver a device whose list of DMA blocks
  -- has one entry for each common buffer that is allocated, or fails, gives none, and leaves no
  -- common buffer allocated, whichever of its steps failed. It is assumed that none was allocated
  -- before, that AllocateCommonBuffer and FreeCommonBuffer are counted, and that nothing else
  -- allocates or frees common buffers than what the virtio library asks the driver for.
  pub start_device-IsStarted :
      (value : RegistryValue) (faulted : Bool) (r : Resources) (w : World)
      → live w ≡ 0
      → let (status, made, w') = start_device h bus pc value faulted r w in
        IsStarted live status made w'
  unfolding start_device
  start_device-IsStarted value faulted r w empty =
      let (got, w1) = pc.physical_device w in
      let empty1 = ports.physical w ∙ empty in
      let (created, made, w2) = create_device h bus true faulted r w1 in
      let c = create_device-live h bus live laws calls true faulted r w1 empty1 in
      elim (Bool-cases (nt_success got)) [
        | inr failed ↦
            rw (failed, start_device) (record { up = λ e. cc; down = λ e. (refl, empty1) })
        | inl ok ↦
            rw (ok, start_device) (started (read_device_dword value role_both) created made w2 c)
      ]

-- ===== src/Adapter.antt =====
-- viosnd/sys/Adapter.cpp: the start of the device, from its creation to the registration of its audio
-- endpoints. What it writes to the registry for diagnosis is left out.
pub mod Start
mod Tests
use viosnd.Base.{
  ℕ, Bool, true, false, ◌&&◌, ◌||◌, not, Option, none, some, leb, ◌==◌, if◌then◌else◌,
}
use viosnd.Status.{
  NtStatus, nt_success, status_success, status_insufficient_resources,
  status_device_configuration_error,
}
use viosnd.Pcm.{StreamPair}
use viosnd.Virtio.Host.{Host}
use viosnd.Virtio.Device.{Device}
use viosnd.Virtio.Bus.{Bus, Resources}
use viosnd.Virtio.Pcm.{query_pcm_streams}
use viosnd.Virtio.Setup.{create_device, destroy_device, init_virtio}

-- The two classes of subdevices.
pub data Kind : Type 0 where
  wave topology : Kind

-- A miniport in the pool, with the stream and the direction that it serves; a topology miniport has
-- no stream. An address of 0 is NULL.
pub record MiniportObject : Type 0 where
  pub address : ℕ
  pub stream_id : ℕ
  pub capture : Bool

-- What PortCls and the registry give: the ends of the calls of PcNewPort, Init, PcRegisterSubdevice
-- and PcRegisterPhysicalConnection, and the release of an object.
pub record PortCls (W : Type 0) : Type 0 where
  pub new_port : Kind → W → NtStatus × ℕ × W
  pub init_port : ℕ → MiniportObject → W → NtStatus × W
  pub register : Kind → Bool → ℕ → W → NtStatus × W
  pub connect : ℕ → ℕ → ℕ → ℕ → W → NtStatus × W
  pub release : ℕ → W → W
  pub miniport_size : Kind → ℕ
  pub physical_device : W → NtStatus × W  -- PcGetPhysicalDeviceObject

-- What the registry answers to IoOpenDeviceRegistryKey and ZwQueryValueKey.
pub record RegistryValue : Type 0 where
  pub opened : NtStatus
  pub queried : NtStatus
  pub value_type : ℕ
  pub data_length : ℕ
  pub value : ℕ

-- REG_DWORD
abbrev pub reg_dword : ℕ
reg_dword = 4

-- ViosndReadDeviceDword
unfoldable pub read_device_dword : RegistryValue → ℕ → ℕ
read_device_dword r default_value =
    if not (nt_success r.opened)
    then default_value
    else if nt_success r.queried && (r.value_type == reg_dword && leb 4 r.data_length)
    then r.value
    else default_value

abbrev pub role_render : ℕ
role_render = 0

abbrev pub role_capture : ℕ
role_capture = 1

abbrev pub role_both : ℕ
role_both = 2

-- VIOSND_SUBDEVICE; 0 is NULL.
pub record Subdevice : Type 0 where
  pub port : ℕ
  pub miniport : ℕ

abbrev pub no_subdevice : Subdevice
no_subdevice = record { port = 0; miniport = 0 }

-- Pins that are connected
abbrev pub pin_bridge : ℕ
pin_bridge = 1

abbrev pub topo_pin_source : ℕ
topo_pin_source = 0

abbrev pub topo_pin_bridge : ℕ
topo_pin_bridge = 1

-- The pair that ViosndQueryPcmStreams wrote
abbrev pub pair_or_none : Option StreamPair → StreamPair
pair_or_none none = record {
  has_render = false;
  render_stream_id = 0;
  has_capture = false;
  capture_stream_id = 0;
}
pair_or_none (some p) = p

-- The test of XcbVirtioAudioStartDevice for a stream that an enabled endpoint lacks
unfoldable pub lacks_stream : ℕ → StreamPair → Bool
lacks_stream role p =
    not (role == role_capture) && not p.has_render || not (role == role_render) && not p.has_capture

module _ (h : Host) (bus : Bus h.World) (pc : PortCls h.World) where
  open h use {World, pool_alloc}
  open pc use {new_port, init_port, register, connect, release, miniport_size}

  -- ViosndReleaseSubdevice
  unfoldable pub release_subdevice : Subdevice → World → World
  release_subdevice s w =
      let w' = if s.miniport == 0 then w else release s.miniport w in
      if s.port == 0 then w' else release s.port w'

  -- The miniport of ViosndCreateWaveRTMiniport and of ViosndCreateTopologyMiniport
  unfoldable pub create_miniport : Kind → ℕ → Bool → World → NtStatus × MiniportObject × World
  create_miniport kind stream_id capture w =
      let (memory, w') = pool_alloc (miniport_size kind) w in
      elim memory [
        | none ↦ (
          status_insufficient_resources,
          record { address = 0; stream_id = stream_id; capture = capture },
          w',
        )
        | some address ↦ (
          status_success,
          record { address = address; stream_id = stream_id; capture = capture },
          w',
        )
      ]

  -- The registration of a subdevice whose port is there
  unfoldable pub register_subdevice : Kind → ℕ → Bool → ℕ → World → NtStatus × Subdevice × World
  register_subdevice kind stream_id capture port w =
      let (made, miniport, w1) = create_miniport kind stream_id capture w in
      let (begun, w2) = init_port port miniport w1 in
      let (registered, w3) = register kind capture port w2 in
      let s : Subdevice = record { port = port; miniport = miniport.address } in
      if not (nt_success made)
      then (made, no_subdevice, release_subdevice s w1)
      else if not (nt_success begun)
      then (begun, no_subdevice, release_subdevice s w2)
      else if not (nt_success registered)
      then (registered, no_subdevice, release_subdevice s w3)
      else (registered, s, w3)

  -- ViosndCreateAndRegisterWaveRTSubdevice and ViosndCreateAndRegisterTopologySubdevice
  unfoldable pub create_and_register : Kind → ℕ → Bool → World → NtStatus × Subdevice × World
  create_and_register kind stream_id capture w =
      let (status, port, w') = new_port kind w in
      if not (nt_success status)
      then (status, no_subdevice, w')
      else register_subdevice kind stream_id capture port w'

  -- The physical connection of ViosndRegisterAudioEndpoint
  unfoldable pub connect_endpoint : Bool → Subdevice → Subdevice → World → NtStatus × World
  connect_endpoint capture topo wav w =
      if capture
      then connect topo.port topo_pin_bridge wav.port pin_bridge w
      else connect wav.port pin_bridge topo.port topo_pin_source w

  -- ViosndRegisterAudioEndpoint
  unfoldable pub register_audio_endpoint : ℕ → Bool → World → NtStatus × World
  register_audio_endpoint stream_id capture w =
      let (first, topo, w1) = create_and_register topology 0 capture w in
      let (second, wav, w2) = create_and_register wave stream_id capture w1 in
      let (connected, w3) = connect_endpoint capture topo wav w2 in
      if not (nt_success first)
      then (first, w1)
      else if nt_success second
      then (connected, release_subdevice topo (release_subdevice wav w3))
      else (second, release_subdevice topo (release_subdevice wav w2))

  -- The endpoint of one direction, if it is wanted
  unfoldable pub register_if : Bool → ℕ → Bool → World → NtStatus × World
  register_if wanted stream_id capture w =
      if wanted then register_audio_endpoint stream_id capture w else (status_success, w)

  -- The two registrations of XcbVirtioAudioStartDevice
  unfoldable pub register_endpoints : ℕ → StreamPair → World → NtStatus × World
  register_endpoints role p w =
      let (first, w1) =
        register_if (not (role == role_capture) && p.has_render) p.render_stream_id false w in
      if nt_success first
      then register_if (not (role == role_render) && p.has_capture) p.capture_stream_id true w1
      else (first, w1)

  -- XcbVirtioAudioStartDevice on the device that was created: the status, and the device for
  -- g_ViosndDevice.
  unfoldable pub start_created : ℕ → ℕ → Device → World → NtStatus × Option (ℕ × Device) × World
  start_created role address d w =
      let (begun, d1, w1) = init_virtio h bus d w in
      let ((queried, pair), d2, w2) = query_pcm_streams h d1 w1 in
      let streams = pair_or_none pair in
      let (registered, w3) = register_endpoints role streams w2 in
      if not (nt_success begun)
      then (begun, none, destroy_device h bus address d1 w1)
      else if not (nt_success queried)
      then (queried, none, destroy_device h bus address d2 w2)
      else if lacks_stream role streams
      then (status_device_configuration_error, none, destroy_device h bus address d2 w2)
      else if not (nt_success registered)
      then (registered, none, destroy_device h bus address d2 w3)
      else (registered, some (address, d2), w3)

  -- XcbVirtioAudioStartDevice from the end of ViosndCreateDevice on
  unfoldable pub start_made :
      ℕ → NtStatus → Option (ℕ × Device) → World → NtStatus × Option (ℕ × Device) × World
  start_made role created none w = (created, none, w)
  start_made role created (some (address, d)) w = start_created role address d w

  -- XcbVirtioAudioStartDevice. `faulted` is ViosndCaptureFaulted.
  unfoldable pub start_device :
      RegistryValue → Bool → Resources → World → NtStatus × Option (ℕ × Device) × World
  start_device value faulted r w =
      let (got, w1) = pc.physical_device w in
      let (created, made, w2) = create_device h bus true faulted r w1 in
      if not (nt_success got)
      then (got, none, w1)
      else start_made (read_device_dword value role_both) created made w2

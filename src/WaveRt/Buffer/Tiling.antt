-- ===== src/WaveRt/Buffer/Tiling.antt =====
-- The packets of the buffer that AllocateAudioBuffer of viosnd/sys/ViosndWaveRT.cpp gives out.
use viosnd.Base.{
  ℕ, ◌*◌, ◌≤◌, ◌<◌, ◌≡◌, refl, ◌⊎◌, inl, inr, true, false, some, max, max_ulong, Option-cases,
}
use viosnd.Status.{NtStatus, nt_success, status_success}
use viosnd.Pcm.{default_period_bytes, default_buffer_bytes}
use viosnd.Virtio.Host.{Host}
use viosnd.Virtio.Device.{Device}
use viosnd.WaveRt.Stream.{Stream}
use viosnd.WaveRt.Geometry.Bounds.{packets_tile_buffer}
use viosnd.WaveRt.Buffer.{adopt_buffer, map_audio_buffer, allocate_audio_buffer}

-- There is a buffer, and its packets fill it.
pub record IsTiled (s : Stream) : Type 0 where
  pub present : s.has_buffer ≡ true
  pub filled : s.notification_count * s.packet_size ≡ s.buffer_size
  pub some_packets : 0 < s.notification_count
  pub some_bytes : 0 < s.packet_size
  pub short_packets : s.packet_size ≤ default_period_bytes

-- A call that succeeds with a tiled buffer, or fails.
abbrev pub IsAllocated : NtStatus → Stream → Type 0
IsAllocated status s = (status ≡ status_success) × IsTiled s ⊎ (nt_success status ≡ false)

-- A mapping has at least one byte, and at most MAXULONG, as MmGetMdlByteCount returns a ULONG.
pub record MdlLaws (h : Host) : Type 0 where
  pub mapped :
      (mdl : ℕ) (w : h.World) (n : ℕ) → (h.mdl_map mdl w).0 ≡ some n → (0 < n) × (n ≤ max_ulong)

adopt-IsTiled : (n : ℕ) (s : Stream) → 0 < n → n ≤ max_ulong → IsTiled (adopt_buffer n s)
unfolding adopt_buffer
adopt-IsTiled n s some_byte fits =
    let tiles = packets_tile_buffer n some_byte fits in
    record {
      present = refl;
      filled = tiles.0;
      some_packets = tiles.3;
      some_bytes = tiles.4;
      short_packets = tiles.5;
    }

module _ (h : Host) (laws : MdlLaws h) where
  open h use {World, mdl_alloc, mdl_map}

  map-IsAllocated :
      (mdl : ℕ) (s : Stream) (d : Device) (w : World)
      → let (status, s', d', w') = map_audio_buffer h mdl s d w in IsAllocated status s'
  unfolding map_audio_buffer
  map-IsAllocated mdl s d w = elim (Option-cases (mdl_map mdl w).0) [
    | inl e ↦ rw (e, map_audio_buffer) (inr refl)
    | inr (n, e) ↦
        rw (e, map_audio_buffer)
          (inl (refl, adopt-IsTiled n s (laws.mapped mdl w n e).0 (laws.mapped mdl w n e).1))
  ]

  -- AllocateAudioBuffer fails, or succeeds with a buffer that its packets fill without a rest.
  pub allocate_audio_buffer-IsAllocated :
      (requested : ℕ) (s : Stream) (d : Device) (w : World)
      → let (status, s', d', w') = allocate_audio_buffer h requested s d w in IsAllocated status s'
  unfolding allocate_audio_buffer
  allocate_audio_buffer-IsAllocated requested s d w =
      elim (Option-cases (mdl_alloc (max requested default_buffer_bytes) w).0) [
        | inl e ↦ rw (e, allocate_audio_buffer) (inr refl)
        | inr (address, e) ↦
            rw (e, allocate_audio_buffer)
              (map-IsAllocated address (record s { mdl = address }) d
                (mdl_alloc (max requested default_buffer_bytes) w).1)
      ]

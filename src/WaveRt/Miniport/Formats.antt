-- ===== src/WaveRt/Miniport/Formats.antt =====
-- The format of viosnd/sys/ViosndWaveRT.cpp, as it is offered and as it is accepted.
use viosnd.Base.{
  ℕ, ◌≤◌, ◌<◌, ◌≡◌, ◌↔◌, ◌⊎◌, inl, inr, refl, Bool, true, false, some, none, arith, ◌==◌,
  Bool-cases,
}
use viosnd.Status.{nt_success, status_success}
use viosnd.WaveRt.Miniport.{
  Guid, WaveFormat, Sizes, Request, Miniport, other_guid, guid_null, type_audio, subtype_pcm,
  specifier_waveformatex, is_type_audio, is_subtype_pcm, is_specifier_waveformatex, is_default_wave,
  is_default_tag, is_default_format, build_default_format, set_format, new_stream,
  data_range_intersection, wave_format_pcm, wave_format_extensible, pin_system, same_bool,
  new_wave_rt_stream,
}

-- 48 kHz, two channels, 16 bits.
pub record IsStereo48 (f : WaveFormat) : Type 0 where
  pub channels : f.channels ≡ 2
  pub rate : f.samples_per_sec ≡ 48000
  pub bits : f.bits_per_sample ≡ 16
  pub align : f.block_align ≡ 4
  pub average : f.avg_bytes_per_sec ≡ 192000

-- PCM in either of the two layouts, of which the longer has its size.
abbrev pub IsPcm : Sizes → WaveFormat → Type 0
IsPcm sizes f =
    (f.format_tag ≡ wave_format_pcm) × (f.sub_format ≡ subtype_pcm)
    ⊎ (f.format_tag ≡ wave_format_extensible)
      × (sizes.waveformatextensible ≤ f.format_size)
      × (f.valid_bits_per_sample ≡ 16)
      × (f.extended_sub_format ≡ subtype_pcm)

-- What is accepted, said without the code's order of tests.
pub record IsAccepted (sizes : Sizes) (f : WaveFormat) : Type 0 where
  pub audio : f.major_format ≡ type_audio
  pub wave : f.specifier ≡ specifier_waveformatex
  pub size : sizes.waveformatex ≤ f.format_size
  pub stereo : IsStereo48 f
  pub pcm : IsPcm sizes f

audio_iff : (g : Guid) → (is_type_audio g ≡ true) ↔ (g ≡ type_audio)
unfolding is_type_audio
audio_iff type_audio = (λ e. refl, λ e. refl)
audio_iff subtype_pcm = (λ e. cc, λ e. cc)
audio_iff specifier_waveformatex = (λ e. cc, λ e. cc)
audio_iff guid_null = (λ e. cc, λ e. cc)
audio_iff (other_guid n) = (λ e. cc, λ e. cc)

pcm_iff : (g : Guid) → (is_subtype_pcm g ≡ true) ↔ (g ≡ subtype_pcm)
unfolding is_subtype_pcm
pcm_iff type_audio = (λ e. cc, λ e. cc)
pcm_iff subtype_pcm = (λ e. refl, λ e. refl)
pcm_iff specifier_waveformatex = (λ e. cc, λ e. cc)
pcm_iff guid_null = (λ e. cc, λ e. cc)
pcm_iff (other_guid n) = (λ e. cc, λ e. cc)

waveformatex_iff : (g : Guid) → (is_specifier_waveformatex g ≡ true) ↔ (g ≡ specifier_waveformatex)
unfolding is_specifier_waveformatex
waveformatex_iff type_audio = (λ e. cc, λ e. cc)
waveformatex_iff subtype_pcm = (λ e. cc, λ e. cc)
waveformatex_iff specifier_waveformatex = (λ e. refl, λ e. refl)
waveformatex_iff guid_null = (λ e. cc, λ e. cc)
waveformatex_iff (other_guid n) = (λ e. cc, λ e. cc)

wave_iff : (f : WaveFormat) → (is_default_wave f ≡ true) ↔ IsStereo48 f
unfolding is_default_wave
wave_iff f = (λ e. ground arith, λ p. ground arith)

tag_iff : (sizes : Sizes) (f : WaveFormat) → (is_default_tag sizes f ≡ true) ↔ IsPcm sizes f
unfolding is_default_tag
tag_iff sizes f = (
  λ e. elim (Bool-cases (f.format_tag == wave_format_pcm)) [
    | inl short ↦ inl (ground arith, ground (arith, pcm_iff f.sub_format))
    | inr other ↦
        inr
          (ground arith, ground arith, ground arith, ground (arith, pcm_iff f.extended_sub_format))
  ],
  λ p. elim p [
    | inl p ↦ ground (arith, pcm_iff f.sub_format, pcm_iff f.extended_sub_format)
    | inr p ↦ ground (arith, pcm_iff f.sub_format, pcm_iff f.extended_sub_format)
  ],
)

-- ViosndIsDefaultFormat accepts a format exactly if it is audio described by WAVEFORMATEX in at least
-- its size, 48000 Hz, two channels and 16 bits with the matching alignment and byte rate, and PCM,
-- by the tag WAVE_FORMAT_PCM with the subtype, or by the extensible tag with its size, 16 valid bits
-- and the extended subtype.
pub is_default_format_iff :
    (sizes : Sizes) (f : WaveFormat)
    → (is_default_format sizes (some f) ≡ true) ↔ IsAccepted sizes f
unfolding is_default_format
is_default_format_iff sizes f =
    let audio = audio_iff f.major_format in
    let wave = waveformatex_iff f.specifier in
    (
      λ e. record {
        audio = ground (arith, audio);
        wave = ground (arith, wave);
        size = ground arith;
        stereo = (wave_iff f).0 (ground arith);
        pcm = (tag_iff sizes f).0 (ground arith);
      },
      λ a.
          let tests = (wave_iff f).1 a.stereo in
          let tag = (tag_iff sizes f).1 a.pcm in ground (arith, audio, wave),
    )

-- The format of DataRangeIntersection is accepted.
built_default :
    (sizes : Sizes)
    → sizes.waveformatex ≤ sizes.waveformatextensible
    → is_default_format sizes (some (build_default_format sizes)) ≡ true
unfolding is_default_format build_default_format
built_default sizes grows = ground arith

-- DataRangeIntersection with a buffer of `n` bytes succeeds, with a format that SetFormat accepts,
-- exactly if the buffer has the length that it reports; else it fails and writes no format. So a
-- second call with the reported length succeeds. It is assumed that the extended structure has at
-- least one byte and is not the shorter one.
pub data_range_intersection_lem :
    (sizes : Sizes) (n : ℕ)
    → 0 < sizes.waveformatextensible
    → sizes.waveformatex ≤ sizes.waveformatextensible
    → let (status, needed, format) = data_range_intersection sizes n in
      (needed ≤ n → (status ≡ status_success) × (set_format sizes format ≡ status_success))
      × (n < needed → (nt_success status ≡ false) × (format ≡ none))
      × ((data_range_intersection sizes needed).0 ≡ status_success)
unfolding data_range_intersection set_format
data_range_intersection_lem sizes n some_byte grows =
    let built = built_default sizes grows in
    (λ enough. (ground arith, ground arith), λ short. (ground arith, ground arith), ground arith)

same_iff : (a b : Bool) → (same_bool a b ≡ true) ↔ (a ≡ b)
same_iff true true = (λ e. refl, λ e. refl)
same_iff true false = (λ e. cc, λ e. cc)
same_iff false true = (λ e. cc, λ e. cc)
same_iff false false = (λ e. refl, λ e. refl)

-- NewStream succeeds exactly if there is a place for the result, the pin is the system's, the
-- direction is the miniport's, the format is the default one, and there is memory; the stream is
-- then the new one of the miniport. It fails without a stream otherwise.
pub new_stream_lem :
    (sizes : Sizes) (memory : Bool) (r : Request) (m : Miniport)
    → let (status, stream) = new_stream sizes memory r m in
      ((nt_success status ≡ true) ↔ (
        (r.stream_va ≡ true)
        × (r.pin ≡ pin_system)
        × (r.capture ≡ m.capture)
        × (is_default_format sizes r.format ≡ true)
        × (memory ≡ true)))
      × (nt_success status ≡ true → stream ≡ some (new_wave_rt_stream m))
      × (nt_success status ≡ false → stream ≡ none)
unfolding new_stream
new_stream_lem sizes memory r m =
    let same = same_iff r.capture m.capture in
    (
      (
        λ e. (ground arith, ground arith, ground (arith, same), ground arith, ground arith),
        λ p. ground (arith, same),
      ),
      λ e. ground arith,
      λ e. ground arith,
    )

-- ===== src/WaveRt/Miniport.antt =====
-- CViosndMiniportWaveRT in viosnd/sys/ViosndWaveRT.cpp: the format that it offers and accepts, and the
-- streams that it makes. The sizes of the structures of ksmedia.h are parameters.
pub mod Formats
mod Tests
use viosnd.Base.{
  ℕ, ◌*◌, ◌/◌, ◌-◌, Bool, true, false, ◌||◌, ◌&&◌, not, List, [], Option, none, some, ltb, leb,
  ◌==◌, if◌then◌else◌, max_ulong,
}
use viosnd.Status.{
  NtStatus, status_success, status_no_match, status_buffer_overflow, status_buffer_too_small,
  status_invalid_parameter, status_insufficient_resources,
}
use viosnd.Pcm.{default_sample_rate, default_channels, default_bits_per_sample}
use viosnd.WaveRt.Stream.{Stream, ks_stop}

-- The GUIDs that the code compares with, and any other.
pub data Guid : Type 0 where
  type_audio subtype_pcm specifier_waveformatex guid_null : Guid
  other_guid : ℕ → Guid

-- IsEqualGUIDAligned, with one of the constants on the right
unfoldable pub is_type_audio : Guid → Bool
is_type_audio type_audio = true
is_type_audio _ = false

unfoldable pub is_subtype_pcm : Guid → Bool
is_subtype_pcm subtype_pcm = true
is_subtype_pcm _ = false

unfoldable pub is_specifier_waveformatex : Guid → Bool
is_specifier_waveformatex specifier_waveformatex = true
is_specifier_waveformatex _ = false

-- WAVE_FORMAT_PCM and WAVE_FORMAT_EXTENSIBLE, and KSAUDIO_SPEAKER_STEREO
abbrev pub wave_format_pcm : ℕ
wave_format_pcm = 1

abbrev pub wave_format_extensible : ℕ
wave_format_extensible = 0xFFFE

abbrev pub speaker_stereo : ℕ
speaker_stereo = 3

-- KSDATAFORMAT_WAVEFORMATEXTENSIBLE. What stands behind FormatSize bytes is not read.
pub record WaveFormat : Type 0 where
  pub format_size : ℕ
  pub major_format : Guid
  pub sub_format : Guid
  pub specifier : Guid
  pub format_tag : ℕ
  pub channels : ℕ
  pub samples_per_sec : ℕ
  pub avg_bytes_per_sec : ℕ
  pub block_align : ℕ
  pub bits_per_sample : ℕ
  pub extra_size : ℕ
  pub valid_bits_per_sample : ℕ
  pub channel_mask : ℕ
  pub extended_sub_format : Guid

-- What the headers say of the sizes: of KSDATAFORMAT_WAVEFORMATEX and of
-- KSDATAFORMAT_WAVEFORMATEXTENSIBLE, and of what the latter's WAVEFORMATEXTENSIBLE adds.
pub record Sizes : Type 0 where
  pub waveformatex : ℕ
  pub waveformatextensible : ℕ
  pub extension : ℕ

abbrev pub default_block_align : ℕ
default_block_align = default_channels * default_bits_per_sample / 8

-- The tests of ViosndIsDefaultFormat on WAVEFORMATEX
unfoldable pub is_default_wave : WaveFormat → Bool
is_default_wave f =
    f.channels == default_channels
    && (f.samples_per_sec == default_sample_rate
        && (f.bits_per_sample == default_bits_per_sample
            && (f.block_align == default_block_align
                && f.avg_bytes_per_sec == default_sample_rate * default_block_align)))

-- A call of NewStream: `stream_va` is whether Stream is not NULL.
pub record Request : Type 0 where
  pub stream_va : Bool
  pub pin : ℕ
  pub capture : Bool
  pub format : Option WaveFormat

-- VIOSND_PIN_SYSTEM
abbrev pub pin_system : ℕ
pin_system = 0

-- The class: m_StreamId and m_Capture
pub record Miniport : Type 0 where
  pub stream_id : ℕ
  pub capture : Bool

-- CViosndMiniportWaveRTStream's constructor
unfoldable pub new_wave_rt_stream : Miniport → Stream
new_wave_rt_stream m = record {
  stream_id = m.stream_id;
  capture = m.capture;
  state = ks_stop;
  mdl = 0;
  has_buffer = false;
  buffer = λ i. [];
  buffer_size = 0;
  notification_count = 0;
  packet_size = 0;
  packet_number = 0;
  last_os_write_packet = max_ulong;
  next_submit_packet = 0;
  next_read_packet = 0;
  eos_packet_number = max_ulong;
  eos_packet_length = 0;
  outstanding_writes = 0;
  render_preroll_packets = 0;
  capture_in_flight = 0;
  capture_overflows = 0;
  render_fallback_phase = 0;
  render_io_pool = [];
  fallback_buffer = 0;
  fallback_buffer_size = 0;
  capture_io_pool = [];
  position = 0;
  run_start_position = 0;
  run_start_qpc = 0;
  qpc_frequency = 0;
  fallback_monitor_start_position = 0;
  fallback_monitor_start_qpc = 0;
  notification_event = 0;
  notifications = 0;
  kicked = false;
  fallback_active = false;
  fallback_attempted = false;
  render_stall_loops = 0;
  thread_object = 0;
  worker_started = false;
  last_completed = 0;
  capture_target = 0;
}

abbrev pub same_bool : Bool → Bool → Bool
same_bool true b = b
same_bool false b = not b

module _ (sizes : Sizes) where
  open sizes use {waveformatex, waveformatextensible, extension}

  -- ViosndBuildDefaultFormat
  unfoldable pub build_default_format : WaveFormat
  build_default_format = record {
    format_size = waveformatextensible;
    major_format = type_audio;
    sub_format = subtype_pcm;
    specifier = specifier_waveformatex;
    format_tag = wave_format_extensible;
    channels = default_channels;
    samples_per_sec = default_sample_rate;
    avg_bytes_per_sec = default_sample_rate * default_block_align;
    block_align = default_block_align;
    bits_per_sample = default_bits_per_sample;
    extra_size = extension;
    valid_bits_per_sample = default_bits_per_sample;
    channel_mask = speaker_stereo;
    extended_sub_format = subtype_pcm;
  }

  -- The end of ViosndIsDefaultFormat, by the tag
  unfoldable pub is_default_tag : WaveFormat → Bool
  unfolding is_subtype_pcm
  is_default_tag f =
      if f.format_tag == wave_format_pcm
      then is_subtype_pcm f.sub_format
      else if f.format_tag == wave_format_extensible && leb waveformatextensible f.format_size
      then f.valid_bits_per_sample == default_bits_per_sample
        && is_subtype_pcm f.extended_sub_format
      else false

  -- ViosndIsDefaultFormat, where `none` is NULL
  unfoldable pub is_default_format : Option WaveFormat → Bool
  unfolding is_type_audio is_specifier_waveformatex is_default_wave is_default_tag
  is_default_format none = false
  is_default_format (some f) =
      if not (is_type_audio f.major_format)
        || (not (is_specifier_waveformatex f.specifier) || ltb f.format_size waveformatex)
      then false
      else if not (is_default_wave f)
      then false
      else is_default_tag f

  -- SetFormat
  unfoldable pub set_format : Option WaveFormat → NtStatus
  unfolding is_default_format
  set_format f = if is_default_format f then status_success else status_no_match

  -- DataRangeIntersection: the status, the length and the format written for a buffer of
  -- `output_length` bytes
  unfoldable pub data_range_intersection : ℕ → NtStatus × ℕ × Option WaveFormat
  unfolding build_default_format
  data_range_intersection output_length =
      if output_length == 0
      then (status_buffer_overflow, waveformatextensible, none)
      else if ltb output_length waveformatextensible
      then (status_buffer_too_small, waveformatextensible, none)
      else (status_success, waveformatextensible, some build_default_format)

  -- NewStream; `memory` is whether the pool has room for the stream.
  unfoldable pub new_stream : Bool → Request → Miniport → NtStatus × Option Stream
  unfolding is_default_format new_wave_rt_stream
  new_stream memory r m =
      if not r.stream_va
        || (not (r.pin == pin_system)
            || (not (same_bool r.capture m.capture) || not (is_default_format r.format)))
      then (status_invalid_parameter, none)
      else if not memory
      then (status_insufficient_resources, none)
      else (status_success, some (new_wave_rt_stream m))

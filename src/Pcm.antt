-- ===== src/Pcm.antt =====
-- PCM formats and stream selection: viosnd/sys/ViosndPcm.cpp and ViosndPcm.h.
pub mod Selection
mod Tests
use viosnd.Base.{
  ℕ, zero, suc, ◌+◌, ◌*◌, ◌/◌, ◌%◌, Bool, true, false, ◌&&◌, ◌||◌, not, List, [], ◌∷◌, leb, ltb,
  ◌==◌, if◌then◌else◌, max_ulong, length,
}
use viosnd.Status.{NtStatus, status_success, status_not_found}
use viosnd.Protocol.{
  PcmInfo, PcmSetParams, d_output, d_input, r_pcm_set_params, fmt_s16, rate_16000, rate_44100,
  rate_48000,
}

abbrev pub default_sample_rate : ℕ
default_sample_rate = 48000

abbrev pub fallback_sample_rate : ℕ
fallback_sample_rate = 16000

abbrev pub default_channels : ℕ
default_channels = 2

abbrev pub default_bits_per_sample : ℕ
default_bits_per_sample = 16

abbrev pub default_period_bytes : ℕ
default_period_bytes = 2048

abbrev pub fallback_period_bytes : ℕ
fallback_period_bytes = 2048

abbrev pub default_buffer_bytes : ℕ
default_buffer_bytes = default_period_bytes * 16

pub record PcmFormat : Type 0 where
  pub sample_rate : ℕ
  pub channels : ℕ
  pub bits_per_sample : ℕ
  pub buffer_bytes : ℕ
  pub period_bytes : ℕ

pub record StreamPair : Type 0 where
  pub render_stream_id : ℕ
  pub capture_stream_id : ℕ
  pub has_render : Bool
  pub has_capture : Bool

-- ViosndPcmRateFromSampleRate
unfoldable pub rate_from_sample_rate : ℕ → ℕ
rate_from_sample_rate r =
    if r == 16000 then rate_16000 else if r == 44100 then rate_44100 else rate_48000

-- ViosndGetDefaultPcmFormat
unfoldable pub default_pcm_format : PcmFormat
default_pcm_format = record {
  sample_rate = default_sample_rate;
  channels = default_channels;
  bits_per_sample = default_bits_per_sample;
  buffer_bytes = default_buffer_bytes;
  period_bytes = default_period_bytes;
}

-- ViosndGetFallbackPcmFormat
unfoldable pub fallback_pcm_format : PcmFormat
unfolding default_pcm_format
fallback_pcm_format = record default_pcm_format {
  sample_rate = fallback_sample_rate;
  period_bytes = fallback_period_bytes;
  buffer_bytes = fallback_period_bytes * 16;
}

-- `mask & (1 << k)` is not 0.
abbrev pub has_bit : ℕ → ℕ → Bool
has_bit mask bit_value = not (mask / bit_value % 2 == 0)

-- ViosndPcmInfoSupportsDefaultFormat; 32 is `1 << VIRTIO_SND_PCM_FMT_S16`, and 128 is
-- `1 << VIRTIO_SND_PCM_RATE_48000`. No caller passes NULL.
unfoldable pub supports_default_format : PcmInfo → Bool
supports_default_format info =
    if not (has_bit info.formats 32)
    then false
    else if not (has_bit info.rates 128)
    then false
    else leb info.channels_min default_channels && leb default_channels info.channels_max

-- ViosndBuildSetParams
unfoldable pub build_set_params : ℕ → PcmFormat → PcmSetParams
unfolding rate_from_sample_rate
build_set_params stream_id format = record {
  code = r_pcm_set_params;
  stream_id = stream_id;
  buffer_bytes = format.buffer_bytes;
  period_bytes = format.period_bytes;
  features = 0;
  channels = format.channels;
  format = fmt_s16;
  rate = rate_from_sample_rate format.sample_rate;
}

-- The variables of ViosndFindStreamPair: `*Pair`, `fallbackRender` and `fallbackCapture`.
pub record Scan : Type 0 where
  pub pair : StreamPair
  pub fallback_render : ℕ
  pub fallback_capture : ℕ

abbrev pub no_pair : StreamPair
no_pair = record {
  render_stream_id = 0;
  capture_stream_id = 0;
  has_render = false;
  has_capture = false;
}

-- The first `if` of the loop body, at index `i`.
note_fallback : ℕ → PcmInfo → Scan → Scan
note_fallback i info s =
    if info.direction == d_output && s.fallback_render == max_ulong
    then record s { fallback_render = i }
    else if info.direction == d_input && s.fallback_capture == max_ulong
    then record s { fallback_capture = i }
    else s

-- The assignment of a stream that supports the default format.
assign_stream : ℕ → PcmInfo → StreamPair → StreamPair
assign_stream i info p =
    if not p.has_render && info.direction == d_output
    then record p { render_stream_id = i; has_render = true }
    else if not p.has_capture && info.direction == d_input
    then record p { capture_stream_id = i; has_capture = true }
    else p

-- The loop body at index `i`, up to the test that returns early.
visit : ℕ → PcmInfo → Scan → Scan
unfolding note_fallback assign_stream
visit i info s =
    let noted = note_fallback i info s in
    if supports_default_format info
    then record noted { pair = assign_stream i info noted.pair }
    else noted

-- The scan from index `i` on: whether it returned early, and the variables at its end.
scan_streams : List PcmInfo → ℕ → Scan → Bool × Scan
unfolding visit supports_default_format
scan_streams [] i s = (false, s)
scan_streams (info ∷ rest) i s =
    let seen = visit i info s in
    let later = scan_streams rest (i + 1) seen in
    if supports_default_format info && (seen.pair.has_render && seen.pair.has_capture)
    then (true, seen)
    else later

-- The two `if`s after the scan.
use_fallbacks : Scan → StreamPair
use_fallbacks s =
    let p =
      if not s.pair.has_render && not (s.fallback_render == max_ulong)
      then record s.pair { render_stream_id = s.fallback_render; has_render = true }
      else s.pair in
    if not p.has_capture && not (s.fallback_capture == max_ulong)
    then record p { capture_stream_id = s.fallback_capture; has_capture = true }
    else p

-- The last loop: the first index, of the `n` from `i` on, that is not the render stream.
spare_capture : ℕ → ℕ → StreamPair → StreamPair
spare_capture zero i p = p
spare_capture (suc n) i p =
    let later = spare_capture n (i + 1) p in
    if not p.has_render || not (i == p.render_stream_id)
    then record p { capture_stream_id = i; has_capture = true }
    else later

abbrev select_spare : ℕ → StreamPair → StreamPair
select_spare count p = if not p.has_capture && ltb 1 count then spare_capture count 0 p else p

abbrev pair_status : StreamPair → NtStatus
pair_status p = if p.has_render || p.has_capture then status_success else status_not_found

abbrev finish_pair : ℕ → Bool × Scan → StreamPair × NtStatus
finish_pair count (true, s) = (s.pair, status_success)
finish_pair count (false, s) = let p = select_spare count (use_fallbacks s) in (p, pair_status p)

-- ViosndFindStreamPair: `*Pair` and the status.
unfoldable pub find_stream_pair : List PcmInfo → StreamPair × NtStatus
unfolding scan_streams use_fallbacks spare_capture
find_stream_pair infos = finish_pair (length infos) (
    scan_streams infos 0
      (record { pair = no_pair; fallback_render = max_ulong; fallback_capture = max_ulong }))

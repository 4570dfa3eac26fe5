-- ===== src/WaveRt/Miniport/Tests.antt =====
-- The formats of the miniport at concrete sizes.
use viosnd.Base.{◌≡◌, ◌≤◌, ◌<◌, ◌↔◌, refl, true, false, some, none, arith}
use viosnd.Status.{nt_success, status_success}
use viosnd.WaveRt.Miniport.{
  Sizes, WaveFormat, is_default_format, data_range_intersection, set_format, wave_format_pcm,
  type_audio, subtype_pcm, specifier_waveformatex, guid_null,
}
use viosnd.WaveRt.Miniport.Formats.{IsAccepted, is_default_format_iff, data_range_intersection_lem}

abbrev sizes : Sizes
sizes = record { waveformatex = 88; waveformatextensible = 104; extension = 22 }

-- A format in the short layout, with what stands behind it.
abbrev short_format : WaveFormat
short_format = record {
  format_size = 88;
  major_format = type_audio;
  sub_format = subtype_pcm;
  specifier = specifier_waveformatex;
  format_tag = wave_format_pcm;
  channels = 2;
  samples_per_sec = 48000;
  avg_bytes_per_sec = 192000;
  block_align = 4;
  bits_per_sample = 16;
  extra_size = 0;
  valid_bits_per_sample = 7;
  channel_mask = 7;
  extended_sub_format = guid_null;
}

is_default_format_iff_example :
    (is_default_format sizes (some short_format) ≡ true) ↔ IsAccepted sizes short_format
is_default_format_iff_example = is_default_format_iff sizes short_format

data_range_intersection_lem_example :
    let (status, needed, format) = data_range_intersection sizes 104 in
    (needed ≤ 104 → (status ≡ status_success) × (set_format sizes format ≡ status_success))
    × (104 < needed → (nt_success status ≡ false) × (format ≡ none))
    × ((data_range_intersection sizes needed).0 ≡ status_success)
data_range_intersection_lem_example =
    data_range_intersection_lem sizes 104 (omega arith) (omega arith)

short_accepted : is_default_format sizes (some short_format) ≡ true
unfolding is_default_format
short_accepted = refl

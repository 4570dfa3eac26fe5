-- ===== src/WaveRt/Samples/Copy.antt =====
-- ViosndPcmCopyGain16 of viosnd/sys/ViosndWaveRT.cpp, at the configured gain and at any other.
use viosnd.Base.{ℕ, suc, ◌/◌, ◌%◌, ◌≤◌, ◌<◌, ◌≡◌, refl, ap, List, [], ◌∷◌, length, arith}
use viosnd.Base.Int.{ℤ, pos, ◌*ℤ◌}
use viosnd.WaveRt.Samples.{
  short_value, short_word, magnitude, raise_peak, pcm_peak16_from, pcm_peak16, saturate,
  pcm_copy_gain16_from, pcm_copy_gain16, capture_software_gain,
}

-- Every entry is a byte.
abbrev pub AreBytes : List ℕ → Type 0
AreBytes [] = Unit
AreBytes (b ∷ bs) = (b < 256) × AreBytes bs

-- At gain 1 a sample is neither changed nor clamped.
saturate-unit :
    (lo hi : ℕ) → lo < 256 → hi < 256 → saturate (short_value lo hi *ℤ pos 1) ≡ short_value lo hi
unfolding saturate ◌*ℤ◌
saturate-unit lo hi h k = ground arith

short_word-value :
    (lo hi : ℕ)
    → lo < 256
    → hi < 256
    → (short_word (short_value lo hi) % 256 ≡ lo) × (short_word (short_value lo hi) / 256 ≡ hi)
short_word-value lo hi h k = ground arith

copy_from_unit :
    (peak : ℕ) (source : List ℕ)
    → AreBytes source
    → pcm_copy_gain16_from peak capture_software_gain source ≡ (source, pcm_peak16_from peak source)
unfolding pcm_copy_gain16_from pcm_peak16_from
copy_from_unit peak [] h = refl
copy_from_unit peak (b ∷ []) h = refl
copy_from_unit peak (lo ∷ hi ∷ rest) h = rw (
  saturate-unit lo hi h.0 h.1.0,
  copy_from_unit (raise_peak (magnitude (short_value lo hi)) peak) rest h.1.1,
  (short_word-value lo hi h.0 h.1.0).0,
  (short_word-value lo hi h.0 h.1.0).1,
)

-- At the gain that the driver is built with, a capture copy reproduces its source byte for byte, odd
-- lengths included, and returns the source's own peak.
pub copy-unit_gain :
    (source : List ℕ)
    → AreBytes source
    → pcm_copy_gain16 source capture_software_gain ≡ (source, pcm_peak16 source)
unfolding pcm_copy_gain16 pcm_peak16
copy-unit_gain source h = copy_from_unit 0 source h

saturate_in_range : (z : ℤ) → (magnitude (saturate z) ≤ 32768) × (short_word (saturate z) < 65536)
unfolding saturate
saturate_in_range z = ground arith

word_bytes : (w : ℕ) → w < 65536 → (w % 256 < 256) × (w / 256 < 256)
word_bytes w h = omega arith

raise_peak-le : (m peak : ℕ) → m ≤ 32768 → peak ≤ 32768 → raise_peak m peak ≤ 32768
raise_peak-le m peak h p = ground arith

copy_from_bytes :
    (gain : ℤ) (source : List ℕ) (peak : ℕ)
    → AreBytes source
    → AreBytes (pcm_copy_gain16_from peak gain source).0
unfolding pcm_copy_gain16_from
copy_from_bytes gain [] peak h = tt
copy_from_bytes gain (b ∷ []) peak h = h
copy_from_bytes gain (lo ∷ hi ∷ rest) peak h =
    let pair = word_bytes _ (saturate_in_range (short_value lo hi *ℤ gain)).1 in
    (pair.0, (pair.1, copy_from_bytes gain rest _ h.1.1))

copy_from_length :
    (gain : ℤ) (source : List ℕ) (peak : ℕ)
    → length (pcm_copy_gain16_from peak gain source).0 ≡ length source
unfolding pcm_copy_gain16_from
copy_from_length gain [] peak = refl
copy_from_length gain (b ∷ []) peak = refl
copy_from_length gain (lo ∷ hi ∷ rest) peak = ap (λ n. suc (suc n)) (copy_from_length gain rest _)

copy_from_peak :
    (gain : ℤ) (source : List ℕ) (peak : ℕ)
    → peak ≤ 32768
    → (pcm_copy_gain16_from peak gain source).1 ≤ 32768
unfolding pcm_copy_gain16_from
copy_from_peak gain [] peak p = p
copy_from_peak gain (b ∷ []) peak p = p
copy_from_peak gain (lo ∷ hi ∷ rest) peak p =
    copy_from_peak gain rest _
      (raise_peak-le _ peak (saturate_in_range (short_value lo hi *ℤ gain)).0 p)

-- At any gain the copy writes as many bytes as it reads, each of them a byte, and the peak that it
-- returns is at most 32768.
pub copy_any_gain :
    (source : List ℕ) (gain : ℤ)
    → AreBytes source
    → (length (pcm_copy_gain16 source gain).0 ≡ length source)
      × AreBytes (pcm_copy_gain16 source gain).0
      × ((pcm_copy_gain16 source gain).1 ≤ 32768)
unfolding pcm_copy_gain16
copy_any_gain source gain h = (
  copy_from_length gain source 0,
  copy_from_bytes gain source 0 h,
  copy_from_peak gain source 0 (omega arith),
)

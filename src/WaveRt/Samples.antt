-- ===== src/WaveRt/Samples.antt =====
-- The sample loops of viosnd/sys/ViosndWaveRT.cpp: ViosndPcmPeak16 and ViosndPcmCopyGain16. A buffer
-- is the list of its bytes, and a SHORT its two bytes, the low one first.
pub mod Copy
use viosnd.Base.{
  ℕ, suc, ◌+◌, ◌-◌, ◌*◌, ◌/◌, ◌%◌, Bool, true, false, List, [], ◌∷◌, ltb, if◌then◌else◌,
}
use viosnd.Base.Int.{ℤ, pos, negsuc, ◌*ℤ◌, ltb_ℤ}

-- The value of a SHORT, read as a LONG.
abbrev pub short_value : ℕ → ℕ → ℤ
short_value lo hi = let w = hi * 256 + lo in if ltb w 32768 then pos w else negsuc (65535 - w)

-- The bit pattern of `(SHORT)sample`, for a sample in range.
abbrev pub short_word : ℤ → ℕ
short_word (pos n) = n
short_word (negsuc n) = 65535 - n

-- `sample < 0 ? (ULONG)-sample : (ULONG)sample`
abbrev pub magnitude : ℤ → ℕ
magnitude (pos n) = n
magnitude (negsuc n) = suc n

abbrev pub raise_peak : ℕ → ℕ → ℕ
raise_peak m peak = if ltb peak m then m else peak

-- The loop of ViosndPcmPeak16 from the peak so far; a last odd byte is no sample.
unfoldable pub pcm_peak16_from : ℕ → List ℕ → ℕ
pcm_peak16_from peak [] = peak
pcm_peak16_from peak (b ∷ []) = peak
pcm_peak16_from peak (lo ∷ hi ∷ rest) =
    pcm_peak16_from (raise_peak (magnitude (short_value lo hi)) peak) rest

-- ViosndPcmPeak16, of a buffer of exactly Length bytes
unfoldable pub pcm_peak16 : List ℕ → ℕ
unfolding pcm_peak16_from
pcm_peak16 bytes = pcm_peak16_from 0 bytes

-- The clamp of ViosndPcmCopyGain16.
unfoldable pub saturate : ℤ → ℤ
saturate sample =
    if ltb_ℤ (pos 32767) sample
    then pos 32767
    else if ltb_ℤ sample (negsuc 32767)
    then negsuc 32767
    else sample

-- The loop of ViosndPcmCopyGain16 from the peak so far: the bytes written and the peak. A last odd
-- byte is copied. The product is taken as an integer: a LONG holds it for a gain below 2 ^ 16.
unfoldable pub pcm_copy_gain16_from : ℕ → ℤ → List ℕ → List ℕ × ℕ
unfolding saturate ◌*ℤ◌
pcm_copy_gain16_from peak gain [] = ([], peak)
pcm_copy_gain16_from peak gain (b ∷ []) = (b ∷ [], peak)
pcm_copy_gain16_from peak gain (lo ∷ hi ∷ rest) =
    let sample = saturate (short_value lo hi *ℤ gain) in
    let (copied, top) = pcm_copy_gain16_from (raise_peak (magnitude sample) peak) gain rest in
    (short_word sample % 256 ∷ short_word sample / 256 ∷ copied, top)

-- ViosndPcmCopyGain16, of a source of exactly Length bytes
unfoldable pub pcm_copy_gain16 : List ℕ → ℤ → List ℕ × ℕ
unfolding pcm_copy_gain16_from
pcm_copy_gain16 source gain = pcm_copy_gain16_from 0 gain source

-- VIOSND_CAPTURE_SOFTWARE_GAIN
abbrev pub capture_software_gain : ℤ
capture_software_gain = pos 1

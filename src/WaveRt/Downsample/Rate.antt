-- ===== src/WaveRt/Downsample/Rate.antt =====
-- How many frames the downsampler keeps, and where its phase ends.
use viosnd.Base.{
  ℕ, zero, suc, ◌+◌, ◌-◌, ◌*◌, ◌/◌, ◌≤◌, ◌<◌, ◌≡◌, refl, min, List, [], ◌∷◌, length, u32, arith,
  leb, ◌==◌, ◌||◌, false, ◌⊎◌,
}
use viosnd.WaveRt.Downsample.{Frame, frames, frame_bytes, downsample_frames, downsample_stereo16}

-- The kept frames are as many as the phase completes periods of 48000, up to the room.
kept_count :
    (rate phase room : ℕ) (source : List Frame)
    → rate < 48000
    → phase < 48000
    → (length (downsample_frames rate phase room source).0
        ≡ min room ((phase + length source * rate) / 48000))
      × ((downsample_frames rate phase room source).1 < 48000)
unfolding downsample_frames
kept_count rate phase room [] h k = (omega arith, k)
kept_count rate phase zero (f ∷ rest) h k = (omega arith, k)
kept_count rate phase (suc room) (f ∷ rest) h k = ground (
  arith,
  kept_count rate (phase + rate) (suc room) rest h,
  kept_count rate (u32 (phase + rate) - 48000) room rest h,
)

-- Where the room is not used up, the phase balances: each source frame adds `rate`, and each kept
-- one takes 48000.
phase_balance :
    (rate phase room : ℕ) (source : List Frame)
    → rate < 48000
    → phase < 48000
    → length (downsample_frames rate phase room source).0 < room
    → phase + length source * rate
      ≡ length (downsample_frames rate phase room source).0 * 48000
        + (downsample_frames rate phase room source).1
unfolding downsample_frames
phase_balance rate phase room [] h k r = omega arith
phase_balance rate phase zero (f ∷ rest) h k r = absurd (omega arith)
phase_balance rate phase (suc room) (f ∷ rest) h k r = ground (
  arith,
  phase_balance rate (phase + rate) (suc room) rest h,
  phase_balance rate (u32 (phase + rate) - 48000) room rest h,
)

length-frame_bytes : (fs : List Frame) → length (frame_bytes fs) ≡ length fs * 4
length-frame_bytes [] = refl
length-frame_bytes (f ∷ rest) = omega (arith, length-frame_bytes rest)

length-frames : (n : ℕ) (bytes : List ℕ) → length bytes ≡ n * 4 → length (frames bytes) ≡ n
length-frames zero [] e = refl
length-frames zero (a ∷ rest) e = absurd (omega arith)
length-frames (suc n) [] e = absurd (omega arith)
length-frames (suc n) (a ∷ []) e = absurd (omega arith)
length-frames (suc n) (a ∷ b ∷ []) e = absurd (omega arith)
length-frames (suc n) (a ∷ b ∷ c ∷ []) e = absurd (omega arith)
length-frames (suc n) (a ∷ b ∷ c ∷ d ∷ rest) e = omega (arith, length-frames n rest (omega arith))

-- For a source of whole frames, a rate above 0 and below 48000 and a phase below 48000, the number
-- of bytes returned is the number written and fits the destination, there are as many frames as the
-- phase completes periods of 48000, up to the room, the phase stays below 48000, and where the room
-- is not used up no part of a period is lost.
pub downsample_rate :
    (n destination_length : ℕ) (source : List ℕ) (rate phase : ℕ)
    → length source ≡ n * 4
    → 0 < rate
    → rate < 48000
    → phase < 48000
    → let (written, count, final) = downsample_stereo16 destination_length source rate phase in
      (length written ≡ count)
      × (count ≤ destination_length)
      × (count ≡ 4 * min (destination_length / 4) ((phase + n * rate) / 48000))
      × (final < 48000)
      × ((destination_length / 4 * 4 ≤ count) ⊎ (phase + n * rate ≡ count / 4 * 48000 + final))
unfolding downsample_stereo16
downsample_rate n dl source rate phase e z h k = rw runs (
    let read = length-frames n source e in
    let run = rw read at (kept_count rate phase (dl / 4) (frames source) h k) in
    let balance = rw read at (phase_balance rate phase (dl / 4) (frames source) h k) in
    let size = length-frame_bytes (downsample_frames rate phase (dl / 4) (frames source)).0 in
    (size, omega arith, omega arith, run.1, grind (arith, balance)))
  where
    runs : (rate == 0 || leb 48000 rate) ≡ false
    runs = ground arith

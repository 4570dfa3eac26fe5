-- ===== src/WaveRt/Downsample.antt =====
-- ViosndDownsampleStereo16 of viosnd/sys/ViosndWaveRT.cpp: 48 kHz stereo frames to a lower rate.
pub mod Rate
use viosnd.Base.{
  ℕ, zero, suc, ◌+◌, ◌-◌, ◌*◌, ◌/◌, Bool, true, false, List, [], ◌∷◌, ◌++◌, leb, ltb, ◌==◌, ◌||◌,
  if◌then◌else◌, u32, length,
}
use viosnd.Pcm.{default_sample_rate, default_channels}

-- A frame: the bytes of its two samples.
abbrev pub Frame : Type 0
Frame = ℕ × ℕ × ℕ × ℕ

-- The whole frames of a buffer: SourceLength / 4 of them.
abbrev pub frames : List ℕ → List Frame
frames (a ∷ b ∷ c ∷ d ∷ rest) = (a, b, c, d) ∷ frames rest
frames _ = []

abbrev pub frame_bytes : List Frame → List ℕ
frame_bytes [] = []
frame_bytes ((a, b, c, d) ∷ rest) = a ∷ b ∷ c ∷ d ∷ frame_bytes rest

-- The loop, with the room left for output frames: the frames kept and the phase at its end. It stops
-- when the source or the room ends.
unfoldable pub downsample_frames : ℕ → ℕ → ℕ → List Frame → List Frame × ℕ
downsample_frames rate phase room [] = ([], phase)
downsample_frames rate phase zero (f ∷ rest) = ([], phase)
downsample_frames rate phase (suc room) (f ∷ rest) =
    elim (leb default_sample_rate (u32 (phase + rate))) [
      | true ↦
          let (kept, final) =
            downsample_frames rate (u32 (phase + rate) - default_sample_rate) room rest in
          (f ∷ kept, final)
      | false ↦ downsample_frames rate (u32 (phase + rate)) (suc room) rest
    ]

-- ViosndDownsampleStereo16: the bytes written, their number, and `*Phase` at return
unfoldable pub downsample_stereo16 : ℕ → List ℕ → ℕ → ℕ → List ℕ × ℕ × ℕ
unfolding downsample_frames
downsample_stereo16 destination_length source rate phase =
    if rate == 0 || leb default_sample_rate rate
    then ([], 0, phase)
    else let (kept, final) =
        downsample_frames rate phase (destination_length / 4) (frames source) in
      (frame_bytes kept, length kept * 4, final)

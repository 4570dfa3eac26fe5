-- ===== src/WaveRt/Clock/Bytes.antt =====
-- The render clock of viosnd/sys/ViosndWaveRT.cpp against the exact number of bytes.
use viosnd.Base.{ℕ, zero, suc, ◌+◌, ◌-◌, ◌*◌, ◌/◌, ◌%◌, ◌^◌, ◌≤◌, ◌<◌, ◌≡◌, u64, arith}
use viosnd.Base.Int.{pos}
use viosnd.WaveRt.Clock.{bytes_per_second, render_bytes_from_qpc}

scale_le : (a b f : ℕ) → a ≤ b → a * f ≤ b * f
scale_le a b f h = grind arith

frames_below : (n f : ℕ) → 0 < f → ((n / f - n / f % 4) * f ≤ n) × (n < (n / f - n / f % 4 + 4) * f)
frames_below n f h =
    let low = scale_le (n / f - n / f % 4) (n / f) f (omega arith) in
    let high = scale_le (n / f + 1) (n / f - n / f % 4 + 4) f (omega arith) in
    (omega arith, omega arith)

-- For a positive frequency and a delta whose product with 192000 fits 64 bits, the clock is a whole
-- number of frames, less than one frame below the exact number of bytes and never above it.
pub render_bytes_exact :
    (delta frequency : ℕ)
    → 0 < frequency
    → delta * bytes_per_second < 2 ^ 64
    → (render_bytes_from_qpc (pos delta) frequency % 4 ≡ 0)
      × (render_bytes_from_qpc (pos delta) frequency * frequency ≤ delta * bytes_per_second)
      × (delta * bytes_per_second < (render_bytes_from_qpc (pos delta) frequency + 4) * frequency)
unfolding render_bytes_from_qpc
render_bytes_exact delta zero h k = absurd (omega arith)
render_bytes_exact delta (suc f) h k =
    let n = delta * bytes_per_second in
    let fits : u64 n ≡ n = omega arith in
    rw fits (
      omega arith,
      (frames_below n (suc f) (omega arith)).0,
      (frames_below n (suc f) (omega arith)).1,
    )

-- For deltas whose products fit 64 bits, a later reading is never below an earlier one.
pub render_bytes_mono :
    (d e frequency : ℕ)
    → d ≤ e
    → e * bytes_per_second < 2 ^ 64
    → render_bytes_from_qpc (pos d) frequency ≤ render_bytes_from_qpc (pos e) frequency
unfolding render_bytes_from_qpc
render_bytes_mono d e zero h k = omega arith
render_bytes_mono d e (suc f) h k = grind arith

-- At the first delta whose product does not fit 64 bits, and for a positive frequency, the clock
-- restarts: it shows at most one tick's worth of bytes.
pub render_bytes_wraps :
    (delta frequency : ℕ)
    → 0 < frequency
    → 2 ^ 64 ≤ delta * bytes_per_second
    → delta * bytes_per_second < 2 ^ 64 + bytes_per_second
    → render_bytes_from_qpc (pos delta) frequency * frequency < bytes_per_second
unfolding render_bytes_from_qpc
render_bytes_wraps delta zero h k l = absurd (omega arith)
render_bytes_wraps delta (suc f) h k l = grind arith

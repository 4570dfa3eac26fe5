-- ===== src/WaveRt/Clock.antt =====
-- The render clock of viosnd/sys/ViosndWaveRT.cpp: bytes played from the performance counter.
pub mod Bytes
use viosnd.Base.{ℕ, zero, ◌+◌, ◌-◌, ◌*◌, ◌/◌, ◌%◌, u64}
use viosnd.Base.Int.{ℤ, pos, negsuc}

-- 48000 frames of 2 channels of 2 bytes
abbrev pub bytes_per_second : ℕ
bytes_per_second = 192000

-- ViosndRenderBytesFromQpc, at a counter frequency that is not negative: 0 for a delta that is not
-- positive or a frequency of 0, else whole frames. The product is a ULONGLONG, and wraps.
unfoldable pub render_bytes_from_qpc : ℤ → ℕ → ℕ
render_bytes_from_qpc (negsuc n) frequency = 0
render_bytes_from_qpc (pos delta) zero = 0
render_bytes_from_qpc (pos delta) frequency =
    let bytes = u64 (delta * bytes_per_second) / frequency in bytes - bytes % 4

-- ===== src/WaveRt/Packet/Order.antt =====
-- The serial-number order on packet numbers.
use viosnd.Base.{ℕ, ◌+◌, ◌≤◌, ◌≡◌, ◌↔◌, true, u32, sub32, max_ulong, arith}
use viosnd.WaveRt.Packet.{packet_number_less_or_equal}

-- A packet number is at most another exactly when the other is reached from it by at most 2 ^ 31
-- wrapping increments.
pub packet_number_less_or_equal_iff :
    (l r : ℕ)
    → l ≤ max_ulong
    → r ≤ max_ulong
    → (packet_number_less_or_equal l r ≡ true) ↔ ((k : ℕ) × (k ≤ 2147483648) × (u32 (l + k) ≡ r))
unfolding packet_number_less_or_equal
packet_number_less_or_equal_iff l r hl hr =
    (λ h. (sub32 r l, ground arith, ground arith), λ e. ground arith)

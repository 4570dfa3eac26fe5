-- ===== src/WaveRt/Capture/Window.antt =====
-- The window of packets that the capture ring holds for its reader.
use viosnd.Base.{
  ◌∙◌, ℕ, ◌+◌, ◌-◌, ◌*◌, ◌%◌, ◌<◌, ◌≤◌, ◌≡◌, ◌≢◌, true, false, refl, ap, inl, inr, ◌++◌, arith, ltb,
  ◌==◌, Bool-cases, if◌then◌else◌, u32, sub32, min, max_ulong, take, replicate,
}
use native.Mathlib.Nat.{mod-eq_of_lt, mul-add-mod_self_left}
use viosnd.WaveRt.Samples.Copy.{AreBytes, copy-unit_gain}
use viosnd.WaveRt.Stream.Ports.{IsReady}
use viosnd.WaveRt.Stream.{Stream, notify}
use viosnd.WaveRt.Capture.{capture_slot, captured_packet, advance_window, account_capture}
use viosnd.Virtio.Host.{PcmIo}
use viosnd.Virtio.Io.{Reclaimed}

advance_window-IsReady :
    (packet : ℕ) (s : Stream)
    → s.notification_count ≤ max_ulong
    → s.next_read_packet ≤ max_ulong
    → IsReady (advance_window packet s)
unfolding advance_window
advance_window-IsReady packet s count reader =
    let next = u32 (packet + 1) in
    elim (Bool-cases (ltb s.notification_count (sub32 next s.next_read_packet))) [
      | inl full ↦
          rw (full, advance_window)
            (record {
              counted = ground arith;
              fits = ground arith;
              next_is_ulong = ground arith;
              last_is_ulong = ground arith;
            })
      | inr room ↦
          rw (room, advance_window)
            (record {
              counted = ground arith;
              fits = ground arith;
              next_is_ulong = ground arith;
              last_is_ulong = ground arith;
            })
    ]

notify-IsReady : (s : Stream) → IsReady s → IsReady (notify s)
notify-IsReady s v = elim (Bool-cases (s.notification_event == 0)) [
  | inl none_set ↦ rw none_set v
  | inr event ↦ rw event (record {
    counted = v.counted;
    fits = v.fits;
    next_is_ulong = v.next_is_ulong;
    last_is_ulong = v.last_is_ulong;
  })
]

advance_keeps :
    (packet : ℕ) (s : Stream)
    → ((advance_window packet s).packet_number ≡ u32 (packet + 1))
      × ((advance_window packet s).buffer ≡ s.buffer)
unfolding advance_window
advance_keeps packet s =
    let next = u32 (packet + 1) in
    elim (Bool-cases (ltb s.notification_count (sub32 next s.next_read_packet))) [
      | inl full ↦ rw (full, advance_window) (refl, refl)
      | inr room ↦ rw (room, advance_window) (refl, refl)
    ]

notify_keeps :
    (s : Stream) → ((notify s).packet_number ≡ s.packet_number) × ((notify s).buffer ≡ s.buffer)
notify_keeps s = elim (Bool-cases (s.notification_event == 0)) [
  | inl none_set ↦ rw none_set (refl, refl)
  | inr event ↦ rw event (refl, refl)
]

-- The place of the `i`th packet of a turn around the buffer.
capture_slot-turn :
    (s : Stream) (number turn i : ℕ)
    → i < s.notification_count
    → number ≡ s.notification_count * turn + i
    → capture_slot s number ≡ i
capture_slot-turn s number turn i below e =
    ap (λ n. n % s.notification_count) e
    ∙ mul-add-mod_self_left s.notification_count turn i
    ∙ mod-eq_of_lt below

-- The stream with the packet of a transfer stored.
abbrev pub stored : Reclaimed → PcmIo → Stream → Stream
stored r io s = record s {
  buffer = λ i.
      if i == capture_slot s io.packet_number
      then captured_packet s.packet_size r.bytes r.audio
      else s.buffer i;
}

-- Whatever the window was before, a transfer that completes with success leaves one that ends at its
-- packet and that the ring has room for, if the ring's size and the reader's packet number are
-- ULONGs.
pub account_capture-IsReady :
    (r : Reclaimed) (io : PcmIo) (s : Stream)
    → s.notification_count ≤ max_ulong
    → s.next_read_packet ≤ max_ulong
    → IsReady (account_capture r io s)
      × ((account_capture r io s).packet_number ≡ u32 (io.packet_number + 1))
unfolding account_capture
account_capture-IsReady r io s count reader =
    let moved = advance_window io.packet_number (stored r io s) in
    (
      notify-IsReady moved (advance_window-IsReady io.packet_number (stored r io s) count reader),
      (notify_keeps moved).0 ∙ (advance_keeps io.packet_number (stored r io s)).0,
    )

-- A transfer that completes with success, and whose packet is the `i`th of a turn around the buffer, for
-- an `i` below m_NotificationCount, leaves as the buffer's `i`th packet exactly what the device
-- wrote, cut to the packet size and padded with silence, and leaves the other packets alone, if
-- what the device wrote are bytes.
pub account_capture-stores :
    (r : Reclaimed) (io : PcmIo) (s : Stream) (turn i : ℕ)
    → i < s.notification_count
    → io.packet_number ≡ s.notification_count * turn + i
    → AreBytes (take (min r.bytes s.packet_size) r.audio)
    → ((account_capture r io s).buffer i
        ≡ take (min r.bytes s.packet_size) r.audio ++ replicate (s.packet_size - r.bytes) 0)
      × ((j : ℕ) → j ≢ i → (account_capture r io s).buffer j ≡ s.buffer j)
unfolding account_capture captured_packet
account_capture-stores r io s turn i below numbered bytes =
    let moved = advance_window io.packet_number (stored r io s) in
    let kept = (notify_keeps moved).1 ∙ (advance_keeps io.packet_number (stored r io s)).1 in
    let copied = copy-unit_gain (take (min r.bytes s.packet_size) r.audio) bytes in
    let place = capture_slot-turn s io.packet_number turn i below numbered in
    let here : (i == capture_slot s io.packet_number) ≡ true = ground (arith, place) in
    (
      ap (λ b. b i) kept
          ∙ ap (λ b. if b then captured_packet s.packet_size r.bytes r.audio else s.buffer i) here
          ∙ ap (λ c. c.0 ++ replicate (s.packet_size - r.bytes) 0) copied,
      λ j other.
          let there : (j == capture_slot s io.packet_number) ≡ false =
            ground (arith, place, other) in
          ap (λ b. b j) kept
          ∙ ap (λ b. if b then captured_packet s.packet_size r.bytes r.audio else s.buffer j) there,
    )

-- ===== src/WaveRt/Capture/Queue.antt =====
-- The capture ring of viosnd/sys/ViosndWaveRT.cpp as a queue of packet numbers that forgets the oldest
-- one when it is full.
use viosnd.Base.{
  ℕ, zero, suc, ◌+◌, ◌-◌, ◌≤◌, ◌<◌, ◌≡◌, ◌≢◌, ◌∙◌, refl, sym, ap, subst, ◌⊎◌, inl, inr, List, [],
  ◌∷◌, ◌++◌, Option, none, some, true, false, arith, ltb, Bool-cases, if◌then◌else◌, u32, max_ulong,
  length, drop,
}
use viosnd.Status.{nt_success}
use viosnd.Virtio.Host.{PcmIo}
use viosnd.Virtio.Io.{Reclaimed}
use viosnd.WaveRt.Stream.{Stream, is_run, notify, get_read_packet}
use viosnd.WaveRt.Stream.Ports.{IsReady}
use viosnd.WaveRt.Capture.{advance_window, account_capture}
use viosnd.WaveRt.Capture.Window.{account_capture-IsReady, stored}

-- What happens to a capture stream that runs: a transfer completes with success, or the audio stack
-- asks for a packet, at a performance counter.
pub data Event : Type 0 where
  arrives : Reclaimed → PcmIo → Event
  asks : ℕ → Event

-- What the code answers to each question: the packet's number, or nothing.
unfoldable pub serve : List Event → Stream → List (Option ℕ)
serve [] s = []
serve (arrives r io ∷ rest) s = serve rest (account_capture r io s)
serve (asks qpc ∷ rest) s =
    let (status, packet, t) = get_read_packet qpc s in
    (if nt_success status then some packet.number else none) ∷ serve rest t

-- What a queue with room for `n` packets answers.
unfoldable pub serve_queue : ℕ → List Event → List ℕ → List (Option ℕ)
serve_queue n [] q = []
serve_queue n (arrives r io ∷ rest) q =
    let longer = q ++ (io.packet_number ∷ []) in
    serve_queue n rest (drop (length longer - n) longer)
serve_queue n (asks qpc ∷ rest) [] = none ∷ serve_queue n rest []
serve_queue n (asks qpc ∷ rest) (p ∷ q) = some p ∷ serve_queue n rest q

-- The transfers complete in the order of their packets, from `next` on.
unfoldable pub InOrder : ℕ → List Event → Type 0
InOrder next [] = Unit {0}
InOrder next (arrives r io ∷ rest) = (io.packet_number ≡ next) × InOrder (u32 (next + 1)) rest
InOrder next (asks qpc ∷ rest) = InOrder next rest

-- The numbers of `n` packets, from `first` on.
abbrev pub packets : ℕ → ℕ → List ℕ
packets first zero = []
packets first (suc n) = first ∷ packets (u32 (first + 1)) n

-- The packets that the ring holds for its reader, the oldest first.
abbrev pub window : Stream → List ℕ
window s = packets s.next_read_packet s.outstanding_writes

-- A capture stream that runs, with a buffer, and with packets of which not all numbers fit the ring.
pub record Records (s : Stream) : Type 0 where
  pub ready : IsReady s
  pub captures : s.capture ≡ true
  pub buffered : s.has_buffer ≡ true
  pub sized : s.packet_size ≢ 0
  pub runs : is_run s.state ≡ true
  pub room : s.notification_count < max_ulong

packets-snoc :
    (first n last : ℕ)
    → first ≤ max_ulong
    → last ≡ u32 (first + n)
    → packets first n ++ (last ∷ []) ≡ packets first (suc n)
packets-snoc first zero last small e = ap (λ x. x ∷ []) (omega (arith, e, small))
packets-snoc first (suc n) last small e =
    ap (λ l. first ∷ l) (packets-snoc (u32 (first + 1)) n last (omega arith) (omega (arith, e)))

length-packets : (first n : ℕ) → length (packets first n) ≡ n
length-packets first zero = refl
length-packets first (suc n) = ap suc (length-packets (u32 (first + 1)) n)

drop-zero : {A : Type 0} (n : ℕ) (xs : List A) → n ≡ 0 → drop n xs ≡ xs
drop-zero zero xs e = refl
drop-zero (suc n) xs e = absurd (omega (arith, e))

drop-one :
    (n first count : ℕ)
    → n ≡ 1
    → drop n (packets first (suc count)) ≡ packets (u32 (first + 1)) count
drop-one zero first count e = absurd (omega (arith, e))
drop-one (suc zero) first count e = refl
drop-one (suc (suc n)) first count e = absurd (omega (arith, e))

-- What advance_window makes of the reader's next packet and of the count of ready ones.
advance-room :
    (packet : ℕ) (s : Stream)
    → IsReady s
    → packet ≡ s.packet_number
    → s.notification_count < max_ulong
    → s.outstanding_writes < s.notification_count
    → let t = advance_window packet s in
      (t.next_read_packet ≡ s.next_read_packet) × (t.outstanding_writes ≡ suc s.outstanding_writes)
unfolding advance_window
advance-room packet s v e small room =
    ground (arith, v, v.counted, v.fits, v.next_is_ulong, v.last_is_ulong)

advance-full :
    (packet : ℕ) (s : Stream)
    → IsReady s
    → packet ≡ s.packet_number
    → s.notification_count < max_ulong
    → s.outstanding_writes ≡ s.notification_count
    → let t = advance_window packet s in
      (t.next_read_packet ≡ u32 (s.next_read_packet + 1))
      × (t.outstanding_writes ≡ s.outstanding_writes)
unfolding advance_window
advance-full packet s v e small full =
    ground (arith, v, v.counted, v.fits, v.next_is_ulong, v.last_is_ulong)

notify-reader :
    (s : Stream)
    → ((notify s).next_read_packet ≡ s.next_read_packet)
      × ((notify s).outstanding_writes ≡ s.outstanding_writes)
notify-reader s = ground arith

-- A queue that takes one packet more, with room for it or without.
longer_packets :
    (first count last n : ℕ)
    → first ≤ max_ulong
    → last ≡ u32 (first + count)
    → let longer = packets first count ++ (last ∷ []) in
      drop (length longer - n) longer ≡ drop (suc count - n) (packets first (suc count))
longer_packets first count last n small e =
    ap (λ l. drop (length l - n) l) (packets-snoc first count last small e)
    ∙ ap (λ k. drop (k - n) (packets first (suc count))) (length-packets first (suc count))

-- A transfer that completes is appended to the window.
account-window :
    (r : Reclaimed) (io : PcmIo) (s : Stream)
    → Records s
    → io.packet_number ≡ s.packet_number
    → let longer = window s ++ (io.packet_number ∷ []) in
      window (account_capture r io s) ≡ drop (length longer - s.notification_count) longer
unfolding account_capture
account-window r io s v e =
    let s1 = stored r io s in
    let v1 : IsReady s1 = ground (arith, v.ready) in
    let t = advance_window io.packet_number s1 in
    let (reader, count) = notify-reader t in
    let ready = v.ready in
    let longer =
      longer_packets s.next_read_packet s.outstanding_writes io.packet_number s.notification_count
        ready.next_is_ulong
        (omega (arith, e, ready.counted, ready.next_is_ulong, ready.last_is_ulong)) in
    elim (Bool-cases (ltb s.outstanding_writes s.notification_count)) [
      | inl room ↦
          let (same, more) = advance-room io.packet_number s1 v1 e v.room (ground arith) in
          ap (λ f. packets f (notify t).outstanding_writes) (reader ∙ same)
          ∙ ap (packets s.next_read_packet) (count ∙ more)
          ∙ sym (drop-zero (suc s.outstanding_writes - s.notification_count) _ (ground arith))
          ∙ sym longer
      | inr full ↦
          let all : s.outstanding_writes ≡ s.notification_count = ground (arith, ready.fits) in
          let (next, same) = advance-full io.packet_number s1 v1 e v.room all in
          ap (λ f. packets f (notify t).outstanding_writes) (reader ∙ next)
          ∙ ap (packets (u32 (s.next_read_packet + 1))) (count ∙ same)
          ∙ sym (drop-one (suc s.outstanding_writes - s.notification_count) _ _ (ground arith))
          ∙ sym longer
    ]

account-kept :
    (r : Reclaimed) (io : PcmIo) (s : Stream)
    → let t = account_capture r io s in
      (t.capture ≡ s.capture)
      × (t.has_buffer ≡ s.has_buffer)
      × (t.packet_size ≡ s.packet_size)
      × (t.state ≡ s.state)
      × (t.notification_count ≡ s.notification_count)
unfolding account_capture advance_window
account-kept r io s = ground arith

account-Records :
    (r : Reclaimed) (io : PcmIo) (s : Stream) → Records s → Records (account_capture r io s)
account-Records r io s v =
    let ready = v.ready in
    let (ready', last) =
      account_capture-IsReady r io s (omega (arith, v.room)) ready.next_is_ulong in
    let (capture, buffer, size, state, count) = account-kept r io s in
    record {
      ready = ready';
      captures = capture ∙ v.captures;
      buffered = buffer ∙ v.buffered;
      sized = λ z. v.sized (sym size ∙ z);
      runs = ap is_run state ∙ v.runs;
      room = omega (arith, count, v.room);
    }

-- A question when there is no packet, and when there is one.
asks-none :
    (qpc : ℕ) (s : Stream)
    → Records s
    → s.outstanding_writes ≡ 0
    → let (status, packet, t) = get_read_packet qpc s in (nt_success status ≡ false) × (t ≡ s)
unfolding get_read_packet
asks-none qpc s v e = ground (arith, v.captures, v.buffered, v.sized, v.runs, e)

asks-some :
    (qpc n : ℕ) (s : Stream)
    → Records s
    → s.outstanding_writes ≡ suc n
    → let (status, packet, t) = get_read_packet qpc s in
      (nt_success status ≡ true)
      × (packet.number ≡ s.next_read_packet)
      × (t.next_read_packet ≡ u32 (s.next_read_packet + 1))
      × (t.outstanding_writes ≡ n)
      × (t.packet_number ≡ s.packet_number)
      × (t.notification_count ≡ s.notification_count)
      × Records t
unfolding get_read_packet
asks-some qpc n s v e =
    ground (arith, v, v.captures, v.buffered, v.sized, v.runs, v.room, v.ready, e)

-- The answer of the code and of the queue to a question, given the rest.
none-answers :
    (qpc : ℕ) (rest : List Event) (s : Stream)
    → Records s
    → s.outstanding_writes ≡ 0
    → serve rest s ≡ serve_queue s.notification_count rest (window s)
    → serve (asks qpc ∷ rest) s ≡ serve_queue s.notification_count (asks qpc ∷ rest) (window s)
unfolding serve serve_queue
none-answers qpc rest s v e later =
    let (status, packet, t) = get_read_packet qpc s in
    let (failed, same) = asks-none qpc s v e in
    let empty : window s ≡ [] = ap (packets s.next_read_packet) e in
    ap (λ b. (if b then some packet.number else none) ∷ serve rest t) failed
    ∙ ap (λ u. none ∷ serve rest u) same
    ∙ ap (λ l. none ∷ l) (later ∙ ap (serve_queue s.notification_count rest) empty)
    ∙ sym (ap (serve_queue s.notification_count (asks qpc ∷ rest)) empty)

some-answers :
    (qpc n : ℕ) (rest : List Event) (s : Stream)
    → Records s
    → s.outstanding_writes ≡ suc n
    → let t = (get_read_packet qpc s).2 in
      serve rest t ≡ serve_queue t.notification_count rest (window t)
      → serve (asks qpc ∷ rest) s ≡ serve_queue s.notification_count (asks qpc ∷ rest) (window s)
unfolding serve serve_queue
some-answers qpc n rest s v e later =
    let (status, packet, t) = get_read_packet qpc s in
    let (given, number, next, left, last, count, v') = asks-some qpc n s v e in
    let full : window s ≡ packets s.next_read_packet (suc n) = ap (packets s.next_read_packet) e in
    let shorter : window t ≡ packets (u32 (s.next_read_packet + 1)) n =
      ap (λ f. packets f t.outstanding_writes) next
      ∙ ap (packets (u32 (s.next_read_packet + 1))) left in
    ap (λ b. (if b then some packet.number else none) ∷ serve rest t) given
    ∙ ap (λ m. some m ∷ serve rest t) number
    ∙ ap (λ l. some s.next_read_packet ∷ l)
        (later
          ∙ ap (λ c. serve_queue c rest (window t)) count
          ∙ ap (serve_queue s.notification_count rest) shorter)
    ∙ sym (ap (serve_queue s.notification_count (asks qpc ∷ rest)) full)

ℕ-cases : (n : ℕ) → (n ≡ 0) ⊎ ((m : ℕ) × (n ≡ suc m))
ℕ-cases zero = inl refl
ℕ-cases (suc m) = inr (m, refl)

-- A capture stream that runs answers every sequence of questions, however the transfers complete in
-- between, as a queue of packet numbers does that takes each captured packet at its end, forgets the
-- oldest one when it is longer than m_NotificationCount, and gives out the oldest one. It is assumed
-- that the transfers complete with success, and in the order of their packets, and that the ring
-- holds less than MAXULONG packets.
pub serve-serve_queue :
    (events : List Event) (s : Stream)
    → Records s
    → InOrder s.packet_number events
    → serve events s ≡ serve_queue s.notification_count events (window s)
unfolding serve serve_queue InOrder
serve-serve_queue [] s v o = refl
serve-serve_queue (arrives r io ∷ rest) s v (e, later) =
    let t = account_capture r io s in
    let ready = v.ready in
    let last = (account_capture-IsReady r io s (omega (arith, v.room)) ready.next_is_ulong).1 in
    let moved = subst (λ n. InOrder n rest) (sym (last ∙ ap (λ n. u32 (n + 1)) e)) later in
    let (_, _, _, _, count) = account-kept r io s in
    serve-serve_queue rest t (account-Records r io s v) moved
    ∙ ap (λ n. serve_queue n rest (window t)) count
    ∙ ap (serve_queue s.notification_count rest) (account-window r io s v e)
serve-serve_queue (asks qpc ∷ rest) s v o = elim (ℕ-cases s.outstanding_writes) [
  | inl e ↦ none-answers qpc rest s v e (serve-serve_queue rest s v o)
  | inr (n, e) ↦
      let t = (get_read_packet qpc s).2 in
      let (given, number, next, left, last, count, v') = asks-some qpc n s v e in
      some-answers qpc n rest s v e
        (serve-serve_queue rest t v' (subst (λ k. InOrder k rest) (sym last) o))
]

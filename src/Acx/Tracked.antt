-- ===== src/Acx/Tracked.antt =====
-- The periods of an ACX stream and the virtqueue that holds them, viosnd/sys/ViosndAcxCircuit.cpp.
pub mod Drained
pub mod Runs
use viosnd.Base.{
  ℕ, zero, suc, ◌+◌, ◌≤◌, ◌<◌, ◌≡◌, refl, sym, ap, ◌∙◌, subst, ◌⊎◌, inl, inr, Bool, true, false,
  ◌&&◌, not, Option, none, some, arith, ltb, ◌==◌, if◌then◌else◌, branches, choices, Bool-cases,
  Option-cases, ◌||◌,
}
use viosnd.Status.{NtStatus, nt_success, status_device_busy}
use viosnd.Acx.Host.{AcxHost, Period, Completed, Message}
use viosnd.Acx.Stream.{AcxStream, AcxQueues, set_at, count_xrun}
use viosnd.Acx.Ready.{pop_render_packet, peek_render_packet}
use viosnd.Acx.Drain.{retire_period}
use viosnd.Acx.Periods.{
  free_period, place_period, acx_submit_render_packet, pump_loop, pump_render_queue,
  submit_capture_period, get_packet_va,
}

-- 1 for true
abbrev pub bit : Bool → ℕ
bit b = if b then 1 else 0

-- A period of the stream that is marked as in flight
abbrev pub is_flying : AcxStream → ℕ → Bool
is_flying s i = ltb i s.period_count && (s.periods i).in_flight

-- What the virtqueues do: `on_queue c i w` is how often the queue of a direction holds the period of
-- an index.
pub record QueueLaws (h : AcxHost) (on_queue : Bool → ℕ → h.World → ℕ) : Type 0 where
  pub add_lem :
      (c : Bool) (i : ℕ) (p : Period) (w w' : h.World)
      → h.queue_add c i p w ≡ some w'
      → (j : ℕ) → on_queue c j w' ≡ bit (j == i) + on_queue c j w
  pub kick_lem : (c : Bool) (w : h.World) (j : ℕ) → on_queue c j (h.queue_kick c w) ≡ on_queue c j w
  pub none_lem :
      (c : Bool) (w : h.World)
      → (h.queue_get c w).0 ≡ none
      → (j : ℕ) → on_queue c j (h.queue_get c w).1 ≡ on_queue c j w
  pub get_lem :
      (c : Bool) (w : h.World) (k : Completed)
      → (h.queue_get c w).0 ≡ some k
      → (j : ℕ) → on_queue c j w ≡ bit (j == k.index) + on_queue c j (h.queue_get c w).1
  pub notify_lem :
      (c : Bool) (n : ℕ) (w : h.World) (j : ℕ)
      → on_queue c j (h.packet_complete c n w) ≡ on_queue c j w

-- A stream of a direction, and a queue that holds each of its periods once if it is marked as in
-- flight, and no other.
pub record IsTracked (h : AcxHost) (on_queue : Bool → ℕ → h.World → ℕ) (c : Bool) (s : AcxStream)
    (w : h.World) : Type 0 where
  pub direction : s.capture ≡ c
  pub held : (j : ℕ) → on_queue c j w ≡ bit (is_flying s j)

-- The same of what a call gives, with a status or without
pub record Leaves (h : AcxHost) (on_queue : Bool → ℕ → h.World → ℕ) (c : Bool)
    (r : AcxStream × h.World) : Type 0 where
  pub tracked : IsTracked h on_queue c r.0 r.1

pub record Gives (h : AcxHost) (on_queue : Bool → ℕ → h.World → ℕ) (c : Bool)
    (r : NtStatus × AcxStream × h.World) : Type 0 where
  pub tracked : IsTracked h on_queue c r.1 r.2

free_period-free :
    (n i : ℕ) (ps : ℕ → Period) (k : ℕ)
    → free_period n i ps ≡ some k
    → (k < i + n) × ((ps k).in_flight ≡ false)
unfolding free_period
free_period-free zero i ps k e = ground (arith, e)
free_period-free (suc n) i ps k e = elim (Bool-cases (ps i).in_flight) [
  | inl busy ↦
      let (inside, free) = free_period-free n (i + 1) ps k (ground (arith, e, busy)) in
      (omega (arith, inside), free)
  | inr idle ↦
      let same : i ≡ k = ground (arith, e, idle) in
      (omega (arith, same), subst (λ m. (ps m).in_flight ≡ false) same idle)
]

-- One period more, or less, in flight
flying_lem :
    (s : AcxStream) (i : ℕ) (p : Period) (j : ℕ)
    → i < s.period_count
    → bit (j == i)
        + bit (
            is_flying
              (record s { periods = set_at i (record p { in_flight = false }) s.periods })
              j)
      ≡ bit
          (is_flying (record s { periods = set_at i (record p { in_flight = true }) s.periods }) j)
flying_lem s i p j inside = ground (arith, inside)

same_flying :
    (s : AcxStream) (i : ℕ) (p : Period) (j : ℕ)
    → (s.periods i).in_flight ≡ p.in_flight
    → bit (is_flying s j) ≡ bit (is_flying (record s { periods = set_at i p s.periods }) j)
same_flying s i p j e = elim (Bool-cases (j == i)) [
  | inl same ↦
      let here : i ≡ j = ground (arith, same) in
      ground (arith, same, subst (λ k. (s.periods k).in_flight ≡ p.in_flight) here e)
  | inr other ↦ ground (arith, other)
]

-- The stream with a period that is taken off its queue, which has nothing else of it changed.
retired_lem :
    (s : AcxStream) (i : ℕ) (j : ℕ)
    → is_flying s i ≡ true
    → bit (is_flying s j) ≡ bit (j == i) + bit (is_flying (retire_period i s) j)
unfolding retire_period
retired_lem s i j up =
    let inside : i < s.period_count = ground (arith, up) in
    same_flying s i (record (s.periods i) { in_flight = true }) j (ground (arith, up))
    ∙ sym (flying_lem s i (s.periods i) j inside)

module _ (h : AcxHost) (on_queue : Bool → ℕ → h.World → ℕ) (laws : QueueLaws h on_queue) where
  open h use {World, queue_add, queue_kick}

  abbrev Tracks : Bool → AcxStream → World → Type 0
  Tracks = IsTracked h on_queue

  pub place_period-IsTracked :
      (c : Bool) (i : ℕ) (p : Period) (s : AcxStream) (w : World)
      → Tracks c s w
      → i < s.period_count
      → (s.periods i).in_flight ≡ false
      → p.in_flight ≡ false
      → Gives h on_queue c (place_period h i p s w)
  unfolding place_period
  place_period-IsTracked c i p s w v inside free idle =
      choices (Gives h on_queue c) (queue_add s.capture i p w)
        (λ full. record {
          tracked = record {
            direction = v.direction;
            held = λ j. v.held j ∙ same_flying s i p j (free ∙ sym idle);
          };
        })
        (λ w' added. record {
          tracked = record {
            direction = v.direction;
            held = λ j.
                subst (λ b. on_queue b j (queue_kick s.capture w') ≡ bit (j == i) + on_queue b j w)
                  v.direction
                  (laws.kick_lem s.capture w' j ∙ laws.add_lem s.capture i p w w' added j)
                ∙ ap (λ n. bit (j == i) + n)
                    (v.held j ∙ same_flying s i (record p { in_flight = false }) j free)
                ∙ flying_lem s i p j inside;
          };
        })

  pub submit-IsTracked :
      (d : AcxQueues) (packet : ℕ) (s : AcxStream) (w : World)
      → Tracks false s w
      → Gives h on_queue false (acx_submit_render_packet h d packet s w)
  unfolding acx_submit_render_packet
  submit-IsTracked d packet s w v =
      branches (Gives h on_queue false)
        (s.capture
          || s.periods_va == 0
          || s.period_count == 0
          || s.packet_count == 0
          || not d.tx_queue)
        (λ _. record { tracked = v })
        (λ _.
          choices (Gives h on_queue false) (get_packet_va s packet) (λ _. record { tracked = v })
            (λ index _.
              choices (Gives h on_queue false) (free_period s.period_count 0 s.periods)
                (λ _. record { tracked = v })
                (λ i found.
                  let (inside, free) = free_period-free s.period_count 0 s.periods i found in
                  place_period-IsTracked false i _ s w v (omega (arith, inside)) free free)))

  -- A call that leaves the periods and their count
  pub untouched :
      {c : Bool} {s : AcxStream} {w : World} (t : AcxStream)
      → t.capture ≡ s.capture
      → t.period_count ≡ s.period_count
      → t.periods ≡ s.periods
      → Tracks c s w
      → Tracks c t w
  untouched {s = s} t dir count ps v = record {
    direction = dir ∙ v.direction;
    held = λ j.
        v.held j
        ∙ ap (λ n. bit (ltb j n && (s.periods j).in_flight)) (sym count)
        ∙ ap (λ q. bit (ltb j t.period_count && (q j).in_flight)) (sym ps);
  }

  pub popped-IsTracked :
      (s : AcxStream) (w : World)
      → Tracks false s w
      → IsTracked h on_queue false (pop_render_packet s) w
  unfolding pop_render_packet
  popped-IsTracked s w v =
      branches (λ t. Tracks false t w) (not (s.ready_count == 0))
        (λ _. untouched _ refl refl refl v) (λ _. v)

  pub pump_loop-IsTracked :
      (fuel : ℕ) (d : AcxQueues) (s : AcxStream) (w : World)
      → Tracks false s w
      → Leaves h on_queue false (pump_loop h fuel d s w)
  unfolding pump_loop
  pump_loop-IsTracked zero d s w v = record { tracked = v }
  pump_loop-IsTracked (suc fuel) d s w v =
      choices (Leaves h on_queue false) (peek_render_packet s) (λ _. record { tracked = v })
        (λ packet _.
          let v1 = (submit-IsTracked d packet s w v).tracked in
          let status = (acx_submit_render_packet h d packet s w).0 in
          let s1 = (acx_submit_render_packet h d packet s w).1 in
          branches (Leaves h on_queue false) (status == status_device_busy)
            (λ _. record { tracked = v1 })
            (λ _.
              branches (Leaves h on_queue false) (not (nt_success status))
                (λ _. record {
                  tracked = popped-IsTracked _ _ (untouched (count_xrun s1) refl refl refl v1);
                })
                (λ _. pump_loop-IsTracked fuel d _ _ (popped-IsTracked s1 _ v1))))

  pub pump_render_queue-IsTracked :
      (d : AcxQueues) (s : AcxStream) (w : World)
      → Tracks false s w
      → Leaves h on_queue false (pump_render_queue h d s w)
  unfolding pump_render_queue
  pump_render_queue-IsTracked d s w v =
      branches (Leaves h on_queue false) (s.capture || not s.prepared || s.render_pump_active)
        (λ _. record { tracked = v })
        (λ _. record {
          tracked =
              untouched _ refl refl refl
                (pump_loop-IsTracked s.ready_count d (record s { render_pump_active = true }) w
                  (untouched _ refl refl refl v)).tracked;
        })

  pub submit_capture-IsTracked :
      (d : AcxQueues) (i packet : ℕ) (s : AcxStream) (w : World)
      → Tracks true s w
      → i < s.period_count
      → Gives h on_queue true (submit_capture_period h d i packet s w)
  unfolding submit_capture_period
  submit_capture-IsTracked d i packet s w v inside =
      branches (Gives h on_queue true) (not s.capture || not d.rx_queue)
        (λ _. record { tracked = v })
        (λ _.
          branches (Gives h on_queue true) (s.periods i).in_flight (λ _. record { tracked = v })
            (λ free. place_period-IsTracked true i _ s w v inside free free))

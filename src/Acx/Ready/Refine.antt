-- ===== src/Acx/Ready/Refine.antt =====
-- The ring of ready packets of viosnd/sys/ViosndAcxCircuit.cpp as a queue that forgets its oldest
-- packet when it is full.
use viosnd.Base.{
  ℕ, zero, suc, ◌+◌, ◌-◌, ◌%◌, ◌≤◌, ◌<◌, ◌≡◌, ◌≢◌, ◌∙◌, refl, sym, ap, subst, inl, inr, ◌⊎◌, false,
  ltb, List, [], ◌∷◌, ◌++◌, Option, none, some, arith, Bool-cases, length, length-append, drop,
  if◌then◌else◌,
}
use native.Mathlib.Nat.{mod-eq_of_lt, mod-lt, mod-eq-sub-mod, mod-add-mod}
use viosnd.Acx.Stream.{AcxStream, set_at, count_xrun}
use viosnd.Acx.Ready.{
  make_room, append_ready, queue_render_packet, peek_render_packet, pop_render_packet,
  clear_render_queue,
}

-- The audio stack queues a packet, the pump takes one, or a stop clears the ring.
pub data Turn : Type 0 where
  queues : ℕ → Turn
  takes : Turn
  clears : Turn

-- What the code's ring answers to each `takes`.
unfoldable pub run_ring : List Turn → AcxStream → List (Option ℕ)
run_ring [] s = []
run_ring (queues packet ∷ rest) s = run_ring rest (queue_render_packet packet s).1
run_ring (takes ∷ rest) s = peek_render_packet s ∷ run_ring rest (pop_render_packet s)
run_ring (clears ∷ rest) s = run_ring rest (clear_render_queue s)

-- What a queue with room for `n` packets answers.
unfoldable pub run_fifo : ℕ → List Turn → List ℕ → List (Option ℕ)
run_fifo n [] q = []
run_fifo n (queues packet ∷ rest) q =
    let longer = q ++ (packet ∷ []) in run_fifo n rest (drop (length longer - n) longer)
run_fifo n (takes ∷ rest) [] = none ∷ run_fifo n rest []
run_fifo n (takes ∷ rest) (p ∷ q) = some p ∷ run_fifo n rest q
run_fifo n (clears ∷ rest) q = run_fifo n rest []

-- `n` entries of a ring of `capacity`, from `head` on.
abbrev pub ring_from : (ℕ → ℕ) → ℕ → ℕ → ℕ → List ℕ
ring_from ring capacity head zero = []
ring_from ring capacity head (suc n) = ring head ∷ ring_from ring capacity ((head + 1) % capacity) n

abbrev pub ready_packets : AcxStream → List ℕ
ready_packets s = ring_from s.ready_queue s.ready_capacity s.ready_head s.ready_count

-- A render stream with a ring, and the ring's tail behind its entries.
pub record IsRing (s : AcxStream) : Type 0 where
  pub renders : s.capture ≡ false
  pub allocated : s.ready_queue_va ≢ 0
  pub sized : 0 < s.ready_capacity
  pub head_inside : s.ready_head < s.ready_capacity
  pub fits : s.ready_count ≤ s.ready_capacity
  pub tail_behind : s.ready_tail ≡ (s.ready_head + s.ready_count) % s.ready_capacity

modulo-cases : (a c : ℕ) → a < c + c → ((a < c) × (a % c ≡ a)) ⊎ ((c ≤ a) × (a % c ≡ a - c))
modulo-cases a c small = elim (Bool-cases (ltb a c)) [
  | inl e ↦ (let below : a < c = ground (arith, e) in inl (below, mod-eq_of_lt below))
  | inr e ↦
      let above : c ≤ a = ground (arith, e) in
      inr (above, mod-eq-sub-mod above ∙ mod-eq_of_lt (omega (arith, above, small)))
]

-- One step of the head, with one entry less behind it, leaves the tail.
step_tail : (h n c : ℕ) → ((h + 1) % c + n) % c ≡ (h + suc n) % c
step_tail h n c = mod-add-mod (h + 1) c n ∙ ap (λ k. k % c) (omega arith)

tail_apart : (h n c : ℕ) → h < c → suc n < c → h ≢ (h + suc n) % c
tail_apart h n c inside room e = elim (modulo-cases (h + suc n) c (omega (arith, inside, room))) [
  | inl (_, same) ↦ omega (arith, same, e)
  | inr (above, less) ↦ omega (arith, above, less, e, room)
]

set_at-other : (i x j : ℕ) (f : ℕ → ℕ) → j ≢ i → set_at i x f j ≡ f j
set_at-other i x j f apart = ground (arith, apart)

set_at-same : (i x j : ℕ) (f : ℕ → ℕ) → j ≡ i → set_at i x f j ≡ x
set_at-same i x j f e = ground (arith, e)

ring_from-snoc :
    (ring : ℕ → ℕ) (c h n t p : ℕ)
    → h < c
    → n < c
    → t ≡ (h + n) % c
    → ring_from (set_at t p ring) c h (suc n) ≡ ring_from ring c h n ++ (p ∷ [])
ring_from-snoc ring c h zero t p inside room e =
    ap (λ x. x ∷ [])
      (set_at-same t p h ring (sym (mod-eq_of_lt inside) ∙ ap (λ k. k % c) (omega arith) ∙ sym e))
ring_from-snoc ring c h (suc n) t p inside room e =
    ap (λ x. x ∷ ring_from (set_at t p ring) c ((h + 1) % c) (suc n))
      (set_at-other t p h ring (λ same. tail_apart h n c inside room (same ∙ e)))
    ∙ ap (λ l. ring h ∷ l)
        (ring_from-snoc ring c ((h + 1) % c) n t p (mod-lt (h + 1) (omega (arith, inside)))
          (omega (arith, room)) (e ∙ sym (step_tail h n c)))

length-ring_from : (ring : ℕ → ℕ) (c h n : ℕ) → length (ring_from ring c h n) ≡ n
length-ring_from ring c h zero = refl
length-ring_from ring c h (suc n) = ap suc (length-ring_from ring c ((h + 1) % c) n)

ℕ-cases : (n : ℕ) → (n ≡ 0) ⊎ ((m : ℕ) × (n ≡ suc m))
ℕ-cases zero = inl refl
ℕ-cases (suc m) = inr (m, refl)

-- The ring without its oldest entry
abbrev advanced : AcxStream → AcxStream
advanced s = record s {
  ready_head = (s.ready_head + 1) % s.ready_capacity;
  ready_count = s.ready_count - 1;
}

advanced-IsRing : (s : AcxStream) (n : ℕ) → IsRing s → s.ready_count ≡ suc n → IsRing (advanced s)
advanced-IsRing s n v e =
    let less : n ≡ s.ready_count - 1 = omega (arith, e) in
    record {
      renders = v.renders;
      allocated = v.allocated;
      sized = v.sized;
      head_inside = mod-lt (s.ready_head + 1) v.sized;
      fits = omega (arith, v.fits);
      tail_behind =
          v.tail_behind
          ∙ ap (λ k. (s.ready_head + k) % s.ready_capacity) e
          ∙ sym (step_tail s.ready_head n s.ready_capacity)
          ∙ ap (λ k. ((s.ready_head + 1) % s.ready_capacity + k) % s.ready_capacity) less;
    }

advanced-packets :
    (s : AcxStream) (n : ℕ)
    → s.ready_count ≡ suc n
    → ready_packets s ≡ s.ready_queue s.ready_head ∷ ready_packets (advanced s)
advanced-packets s n e =
    let less : n ≡ s.ready_count - 1 = omega (arith, e) in
    ap (ring_from s.ready_queue s.ready_capacity s.ready_head) e
    ∙ ap
        (λ k.
          s.ready_queue s.ready_head
          ∷ ring_from s.ready_queue s.ready_capacity ((s.ready_head + 1) % s.ready_capacity) k)
        less

append-IsRing :
    (p : ℕ) (s : AcxStream)
    → IsRing s
    → s.ready_count < s.ready_capacity
    → IsRing (append_ready p s)
unfolding append_ready
append-IsRing p s v room = record {
  renders = v.renders;
  allocated = v.allocated;
  sized = v.sized;
  head_inside = v.head_inside;
  fits = omega (arith, room);
  tail_behind =
      ap (λ k. (k + 1) % s.ready_capacity) v.tail_behind
      ∙ mod-add-mod (s.ready_head + s.ready_count) s.ready_capacity 1
      ∙ ap (λ k. k % s.ready_capacity)
          (let e : s.ready_head + s.ready_count + 1 ≡ s.ready_head + (s.ready_count + 1) =
              omega arith in
            e);
}

append-packets :
    (p : ℕ) (s : AcxStream)
    → IsRing s
    → s.ready_count < s.ready_capacity
    → ready_packets (append_ready p s) ≡ ready_packets s ++ (p ∷ [])
unfolding append_ready
append-packets p s v room =
    ap (ring_from (set_at s.ready_tail p s.ready_queue) s.ready_capacity s.ready_head)
      (let e : s.ready_count + 1 ≡ suc s.ready_count = omega arith in e)
    ∙ ring_from-snoc s.ready_queue s.ready_capacity s.ready_head s.ready_count s.ready_tail p
        v.head_inside room v.tail_behind

-- What a turn leaves of a ring with room for `n` packets: a ring with room for as many.
record Turned (n : ℕ) (q : List ℕ) (t : AcxStream) : Type 0 where
  ring : IsRing t
  size : t.ready_capacity ≡ n
  holds : ready_packets t ≡ q

drop-zero : (k : ℕ) (l : List ℕ) → k ≡ 0 → drop k l ≡ l
drop-zero zero l e = refl
drop-zero (suc k) l e = absurd (omega (arith, e))

drop-one : (k x : ℕ) (l : List ℕ) → k ≡ 1 → drop k (x ∷ l) ≡ l
drop-one zero x l e = absurd (omega (arith, e))
drop-one (suc zero) x l e = refl
drop-one (suc (suc k)) x l e = absurd (omega (arith, e))

longer-length : (s : AcxStream) (p : ℕ) → length (ready_packets s ++ (p ∷ [])) ≡ s.ready_count + 1
longer-length s p =
    length-append (ready_packets s) (p ∷ [])
    ∙ ap (λ k. k + 1) (length-ring_from s.ready_queue s.ready_capacity s.ready_head s.ready_count)

queue_room :
    (p : ℕ) (s : AcxStream)
    → IsRing s
    → s.ready_count < s.ready_capacity
    → (queue_render_packet p s).1 ≡ append_ready p s
unfolding queue_render_packet make_room append_ready
queue_room p s v room = ground (arith, v.allocated, v.sized, room)

queue_full :
    (p : ℕ) (s : AcxStream)
    → IsRing s
    → s.ready_count ≡ s.ready_capacity
    → (queue_render_packet p s).1 ≡ append_ready p (count_xrun (advanced s))
unfolding queue_render_packet make_room append_ready
queue_full p s v full = ground (arith, v.allocated, v.sized, full)

queue-Turned :
    (p : ℕ) (s : AcxStream)
    → IsRing s
    → let longer = ready_packets s ++ (p ∷ []) in
      Turned s.ready_capacity
        (drop (length longer - s.ready_capacity) longer)
        (queue_render_packet p s).1
unfolding append_ready
queue-Turned p s v =
    let longer = ready_packets s ++ (p ∷ []) in
    let count = longer-length s p in
    elim (Bool-cases (ltb s.ready_count s.ready_capacity)) [
      | inl e ↦
          let room : s.ready_count < s.ready_capacity = ground (arith, e) in
          subst (Turned _ _) (sym (queue_room p s v room)) (record {
            ring = append-IsRing p s v room;
            size = refl;
            holds =
                append-packets p s v room
                ∙ sym (
                    drop-zero (length longer - s.ready_capacity) longer
                      (omega (arith, count, room)));
          })
      | inr e ↦
          let full : s.ready_count ≡ s.ready_capacity = ground (arith, e, v.fits) in
          let t = count_xrun (advanced s) in
          let n = s.ready_capacity - 1 in
          let more : s.ready_count ≡ suc n = omega (arith, full, v.sized) in
          let v' = advanced-IsRing s n v more in
          let ring : IsRing t = record {
            renders = v.renders;
            allocated = v.allocated;
            sized = v.sized;
            head_inside = v'.head_inside;
            fits = v'.fits;
            tail_behind = v'.tail_behind;
          } in
          let room : t.ready_count < t.ready_capacity = omega (arith, full, v.sized) in
          subst (Turned _ _) (sym (queue_full p s v full)) (record {
            ring = append-IsRing p t ring room;
            size = refl;
            holds =
                append-packets p t ring room
                ∙ sym (
                    drop-one (length longer - s.ready_capacity) (s.ready_queue s.ready_head)
                      (ready_packets t ++ (p ∷ [])) (omega (arith, count, full)))
                ∙ ap (λ l. drop (length longer - s.ready_capacity) (l ++ (p ∷ [])))
                    (sym (advanced-packets s n more));
          })
    ]

takes_none :
    (s : AcxStream) → s.ready_count ≡ 0 → (peek_render_packet s ≡ none) × (pop_render_packet s ≡ s)
unfolding peek_render_packet pop_render_packet
takes_none s e = ground (arith, e)

takes_some :
    (s : AcxStream) (n : ℕ)
    → s.ready_count ≡ suc n
    → (peek_render_packet s ≡ some (s.ready_queue s.ready_head))
      × (pop_render_packet s ≡ advanced s)
unfolding peek_render_packet pop_render_packet
takes_some s n e = ground (arith, e)

clear-Turned : (s : AcxStream) → IsRing s → Turned s.ready_capacity [] (clear_render_queue s)
unfolding clear_render_queue
clear-Turned s v =
    let empty = record s { ready_head = 0; ready_tail = 0; ready_count = 0 } in
    let e : clear_render_queue s ≡ empty = ap (λ b. if b then s else empty) v.renders in
    subst (Turned _ _) (sym e) (record {
      ring = record {
        renders = v.renders;
        allocated = v.allocated;
        sized = v.sized;
        head_inside = v.sized;
        fits = omega arith;
        tail_behind = sym (mod-eq_of_lt v.sized);
      };
      size = refl;
      holds = refl;
    })

cong2 : {a b : Option ℕ} {k l : List (Option ℕ)} → a ≡ b → k ≡ l → a ∷ k ≡ b ∷ l
cong2 {b = b} {k = k} e f = ap (λ x. x ∷ k) e ∙ ap (λ y. b ∷ y) f

-- The code's ring of packets that wait to be sent answers every sequence of turns - the audio stack
-- queues a packet, the pump peeks at one and pops it, a stop clears the ring - as a queue does that
-- takes each packet at its end, forgets the oldest one when it is longer than RenderReadyCapacity,
-- and gives out the oldest one. It is assumed that the stream renders and has a ring.
pub run_ring-run_fifo :
    (turns : List Turn) (s : AcxStream)
    → IsRing s
    → run_ring turns s ≡ run_fifo s.ready_capacity turns (ready_packets s)
unfolding run_ring run_fifo
run_ring-run_fifo [] s v = refl
run_ring-run_fifo (queues p ∷ rest) s v =
    let t = (queue_render_packet p s).1 in
    let turned = queue-Turned p s v in
    run_ring-run_fifo rest t turned.ring
    ∙ ap (λ n. run_fifo n rest (ready_packets t)) turned.size
    ∙ ap (run_fifo s.ready_capacity rest) turned.holds
run_ring-run_fifo (takes ∷ rest) s v = elim (ℕ-cases s.ready_count) [
  | inl e ↦
      let (nothing, same) = takes_none s e in
      let empty : ready_packets s ≡ [] =
        ap (ring_from s.ready_queue s.ready_capacity s.ready_head) e in
      cong2 nothing (
        ap (run_ring rest) same
        ∙ run_ring-run_fifo rest s v
        ∙ ap (run_fifo s.ready_capacity rest) empty)
      ∙ sym (ap (run_fifo s.ready_capacity (takes ∷ rest)) empty)
  | inr (n, e) ↦
      let (given, less) = takes_some s n e in
      cong2 given
        (ap (run_ring rest) less ∙ run_ring-run_fifo rest (advanced s) (advanced-IsRing s n v e))
      ∙ sym (ap (run_fifo s.ready_capacity (takes ∷ rest)) (advanced-packets s n e))
]
run_ring-run_fifo (clears ∷ rest) s v =
    let t = clear_render_queue s in
    let turned = clear-Turned s v in
    run_ring-run_fifo rest t turned.ring
    ∙ ap (λ n. run_fifo n rest (ready_packets t)) turned.size
    ∙ ap (run_fifo s.ready_capacity rest) turned.holds

-- ===== src/Virtio/Events/Tests.antt =====
-- The events of viosnd/sys/ViosndVirtio.cpp at a concrete queue.
use viosnd.Base.{ℕ, suc, ◌≡◌, ◌≢◌, refl, sym, ap, List, [], ◌∷◌, Option, none, some, length, arith}
use viosnd.Virtio.Host.{EventBuffer}
use viosnd.Virtio.Events.{poll_events}
use viosnd.Virtio.Events.Posted.{EventLaws, poll_events-queued}
use viosnd.Virtio.Tests.{Lists, lists_host, pop_event, no_lists, ready_device}

abbrev va_of : Option EventBuffer → ℕ
va_of none = 1
va_of (some b) = b.event_va

lists_events-got :
    (w : Lists) (l : List ℕ) (b : EventBuffer)
    → (pop_event w l).0 ≡ some b
    → (b.event_va ≢ 0) × (length l ≡ suc (length (pop_event w l).1.events))
lists_events-got w [] b e = absurd (ground arith)
lists_events-got w (n ∷ rest) b e =
    ((λ absent. let same : suc n ≡ b.event_va = ap va_of e in omega (arith, same, absent)), refl)

lists_events-empty :
    (w : Lists) (l : List ℕ)
    → (pop_event w l).0 ≡ none
    → w.events ≡ l
    → length (pop_event w l).1.events ≡ length l
lists_events-empty w [] e same = rw same refl
lists_events-empty w (n ∷ rest) e same = absurd (ground arith)

abbrev events_length : Option Lists → ℕ
events_length none = 0
events_length (some w) = length w.events

lists_events : EventLaws lists_host
lists_events = record {
  got = λ w b e. lists_events-got w w.events b e;
  empty = λ w e. lists_events-empty w w.events e refl;
  room = λ w b e. (record (pop_event w w.events).1 { events = _ }, refl);
  add = λ b w w' e. sym (ap events_length e);
  kick = λ w. refl;
}

-- Two buffers are on the queue: each is taken and posted again, until the budget is used up.
abbrev two_posted : Lists
two_posted = record no_lists { events = 4095 ∷ 8191 ∷ [] }

poll_events-queued_example :
    let (_, d', w') = poll_events lists_host ready_device two_posted in
    (length w'.events ≡ 2) × (d' ≡ ready_device)
poll_events-queued_example = poll_events-queued lists_host lists_events ready_device two_posted

-- ===== src/Acx/Ready.antt =====
-- The ring of packets that are ready to be submitted, RenderReadyQueue of viosnd/sys/ViosndAcx.h.
pub mod Refine
use viosnd.Base.{
  ℕ, ◌+◌, ◌-◌, ◌%◌, Bool, ◌||◌, not, Option, none, some, leb, ◌==◌, if◌then◌else◌, u32,
}
use viosnd.Status.{NtStatus, status_success, status_device_not_ready}
use viosnd.Acx.Stream.{AcxStream, set_at}

-- The oldest packet gives way in a full ring.
unfoldable pub make_room : AcxStream → AcxStream
make_room s =
    if leb s.ready_capacity s.ready_count
    then record s {
      ready_head = (s.ready_head + 1) % s.ready_capacity;
      ready_count = s.ready_count - 1;
      xrun_count = u32 (s.xrun_count + 1);
    }
    else s

unfoldable pub append_ready : ℕ → AcxStream → AcxStream
append_ready packet s = record s {
  ready_queue = set_at s.ready_tail packet s.ready_queue;
  ready_tail = (s.ready_tail + 1) % s.ready_capacity;
  ready_count = s.ready_count + 1;
}

-- ViosndQueueRenderPacket
unfoldable pub queue_render_packet : ℕ → AcxStream → NtStatus × AcxStream
unfolding make_room append_ready
queue_render_packet packet s =
    if s.ready_queue_va == 0 || s.ready_capacity == 0
    then (status_device_not_ready, s)
    else (status_success, append_ready packet (make_room s))

-- ViosndPeekRenderPacket: the packet, if there is one
unfoldable pub peek_render_packet : AcxStream → Option ℕ
peek_render_packet s = if not (s.ready_count == 0) then some (s.ready_queue s.ready_head) else none

-- ViosndPopRenderPacket
unfoldable pub pop_render_packet : AcxStream → AcxStream
pop_render_packet s =
    if not (s.ready_count == 0)
    then record s {
      ready_head = (s.ready_head + 1) % s.ready_capacity;
      ready_count = s.ready_count - 1;
    }
    else s

-- ViosndClearRenderQueue
unfoldable pub clear_render_queue : AcxStream → AcxStream
clear_render_queue s =
    if s.capture then s else record s { ready_head = 0; ready_tail = 0; ready_count = 0 }

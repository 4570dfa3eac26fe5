-- ===== src/WaveRt/Capture/Tests.antt =====
-- The capture ring of viosnd/sys/ViosndWaveRT.cpp as a queue, at a concrete stream.
use viosnd.Base.{ℕ, ◌≡◌, refl, List, none, [], ◌∷◌, some, arith}
use viosnd.Virtio.Host.{PcmIo}
use viosnd.WaveRt.Capture.Queue.{
  Event, arrives, asks, serve, serve_queue, Records, InOrder, serve-serve_queue,
}
use viosnd.WaveRt.Tests.{recording, recording-IsReady, short_read, spare_io}

abbrev captured : ℕ → PcmIo
captured n = record spare_io { packet_number = n }

-- A packet is asked for, three arrive, of which the last makes the ring forget one, and then more
-- are asked for than there are.
abbrev busy : List Event
busy =
    asks 1
    ∷ arrives short_read (captured 5)
    ∷ arrives short_read (captured 6)
    ∷ arrives short_read (captured 7)
    ∷ asks 3
    ∷ asks 4
    ∷ asks 5
    ∷ asks 6
    ∷ asks 7
    ∷ []

recording-Records : Records recording
recording-Records = record {
  ready = recording-IsReady;
  captures = refl;
  buffered = refl;
  sized = λ z. omega (arith, z);
  runs = refl;
  room = omega arith;
}

busy-InOrder : InOrder 5 busy
unfolding InOrder
busy-InOrder = (refl, (refl, (refl, tt)))

queue_busy :
    serve_queue 4 busy (2 ∷ 3 ∷ 4 ∷ []) ≡ (some 2 ∷ some 4 ∷ some 5 ∷ some 6 ∷ some 7 ∷ none ∷ [])
unfolding serve_queue
queue_busy = refl

serve-serve_queue_example :
    serve busy recording ≡ serve_queue recording.notification_count busy (2 ∷ 3 ∷ 4 ∷ [])
serve-serve_queue_example = serve-serve_queue busy recording recording-Records busy-InOrder

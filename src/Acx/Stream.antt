-- ===== src/Acx/Stream.antt =====
-- The stream of viosnd/sys/ViosndAcx.h.
use viosnd.Base.{ℕ, Bool, List, ◌==◌, if◌then◌else◌, ◌+◌, u32}
use viosnd.Acx.Host.{Period}

-- VIOSND_ACX_STREAM. A pointer is 0 for NULL, and an array is a function of the index beside its
-- address. `contents i` is what the packet of index i holds for the audio stack.
pub record AcxStream : Type 0 where
  pub stream_id : ℕ
  pub capture : Bool
  pub prepared : Bool
  pub running : Bool
  pub packet_count : ℕ
  pub packet_size : ℕ
  pub packets_va : ℕ
  pub packet_buffers_va : ℕ
  pub packet_mdls_va : ℕ
  pub packet_buffers : ℕ → ℕ
  pub packet_mdls : ℕ → ℕ
  pub packet_offsets : ℕ → ℕ
  pub contents : ℕ → List ℕ
  pub packet_alloc_bytes : ℕ
  pub first_packet_offset : ℕ
  pub periods_va : ℕ
  pub periods : ℕ → Period
  pub period_count : ℕ
  pub period_bytes : ℕ
  pub buffer_bytes : ℕ
  pub ready_queue_va : ℕ
  pub ready_queue : ℕ → ℕ
  pub ready_capacity : ℕ
  pub ready_head : ℕ
  pub ready_tail : ℕ
  pub ready_count : ℕ
  pub render_pump_active : Bool
  pub packets_completed : ℕ
  pub next_capture_packet : ℕ
  pub position_bytes : ℕ
  pub last_latency_bytes : ℕ
  pub xrun_count : ℕ

-- What the streams read of VIOSND_ACX_DEVICE: which queues are not NULL.
pub record AcxQueues : Type 0 where
  pub control_queue : Bool
  pub event_queue : Bool
  pub tx_queue : Bool
  pub rx_queue : Bool

-- An array with one entry replaced
abbrev pub set_at {ℓ} : {A : Type ℓ} → ℕ → A → (ℕ → A) → ℕ → A
set_at i x f j = if j == i then x else f j

-- XrunCount++
abbrev pub count_xrun : AcxStream → AcxStream
count_xrun s = record s { xrun_count = u32 (s.xrun_count + 1) }

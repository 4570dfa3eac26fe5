-- ===== src/Virtio/Sync/Tests.antt =====
-- The waiting transfers of viosnd/sys/ViosndVirtio.cpp at a concrete host.
use viosnd.Base.{ℕ, suc, ◌+◌, ◌≡◌, ◌≢◌, refl, ap, List, [], ◌∷◌, Option, some, none, false, arith}
use viosnd.Status.{status_success}
use viosnd.Virtio.Host.{Host}
use viosnd.Virtio.Tests.{Lists, lists_host, no_lists, ready_device}
use viosnd.Virtio.Dma.{allocate_dma_buffer}
use viosnd.Virtio.Sync.{
  wait_rounds, wait_for_used, write_pcm, read_pcm, with_buffers, send_write, finish_write,
}
use viosnd.Virtio.Sync.Waiting.{is_starved, IsWritten, IsSettled, sync_transfers_lem}

-- As the other host, with addresses that are not NULL
abbrev shifted_host : Host
shifted_host = record lists_host {
  common_alloc =
      λ size w. (some (suc w.next, w.next + 4096), record w { next = w.next + size + 1 });
}

abbrev first_of : Option (ℕ × ℕ) → ℕ
first_of none = 0
first_of (some b) = b.0

shifted_not_null :
    (size : ℕ) (w : Lists) (b : ℕ × ℕ) → (shifted_host.common_alloc size w).0 ≡ some b → b.0 ≢ 0
shifted_not_null size w b e =
    λ z. let same : suc w.next ≡ b.0 = ap first_of e in omega (arith, same, z)

abbrev sound : List ℕ
sound = 1 ∷ 2 ∷ 3 ∷ 4 ∷ []

sync_transfers_lem_example :
    (let (t, d', w') = write_pcm shifted_host 1 sound ready_device no_lists in
      IsWritten 4 t × (d' ≡ ready_device))
    × (let (t, d', w') = read_pcm shifted_host 1 16 ready_device no_lists in
        IsSettled 16 t × (d' ≡ ready_device))
    × (is_starved (wait_for_used shifted_host shifted_host.tx_get 5 wait_rounds 0 no_lists).0
        ≡ false)
sync_transfers_lem_example =
    sync_transfers_lem shifted_host shifted_not_null 1 16 5 sound shifted_host.tx_get ready_device
      no_lists

-- The device takes the write at once.
written :
    let (t, d', w') = write_pcm shifted_host 1 sound ready_device no_lists in
    (t.status ≡ status_success) × (t.bytes ≡ 4)
unfolding write_pcm with_buffers allocate_dma_buffer send_write finish_write wait_for_used
written = (refl, refl)

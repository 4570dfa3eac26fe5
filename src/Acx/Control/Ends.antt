-- ===== src/Acx/Control/Ends.antt =====
-- The polling loop of viosnd/sys/ViosndAcxVirtio.cpp ends.
use viosnd.Base.{
  ℕ, zero, suc, ◌+◌, ◌*◌, ◌%◌, ◌<◌, ◌≤◌, ◌≡◌, ◌≢◌, Option, none, some, arith, leb, branches, u32,
}
use viosnd.Status.{NtStatus}
use viosnd.Virtio.Host.{Response}
use viosnd.Acx.Host.{AcxHost, Message}
use viosnd.Acx.Control.{acx_poll_control, acx_poll_rounds, is_message}

module _ (h : AcxHost) where
  open h use {World, control_get, delay_ms}

  abbrev Answers : Option (NtStatus × Option Response) × World → Type 0
  Answers r = r.0 ≢ none

  some-Answers : {x : NtStatus × Option Response} → some x ≢ none
  some-Answers e = ground (arith, e)

  poll-Answers :
      (fuel elapsed : ℕ) (m : Message) (w : World)
      → elapsed ≤ 1000000
      → 1000001 ≤ elapsed + fuel * 1000
      → elapsed % 1000 ≡ 0
      → Answers (acx_poll_control h fuel elapsed m w)
  unfolding acx_poll_control
  poll-Answers zero elapsed m w small enough e = absurd (omega (arith, small, enough))
  poll-Answers (suc fuel) elapsed m w small enough e =
      let (used, w1) = control_get w in
      branches Answers (is_message m used) (λ _. some-Answers)
        (λ _.
          branches Answers (leb 1000000 elapsed) (λ _. some-Answers)
            (λ early.
              let below : elapsed < 1000000 = ground (arith, early) in
              poll-Answers fuel (u32 (elapsed + 1000)) m (delay_ms w1) (omega (arith, below, e))
                (omega (arith, below, enough, e)) (omega (arith, below, e))))

  -- The polling loop of ViosndControlCommand ends in at most 1001 rounds, whatever the device returns
  -- in them and whenever: with the response, or with a timeout.
  pub acx_poll_control-ends :
      (m : Message) (w : World) → (acx_poll_control h (acx_poll_rounds h) 0 m w).0 ≢ none
  acx_poll_control-ends m w =
      poll-Answers (acx_poll_rounds h) 0 m w (omega arith) (omega arith) (omega arith)

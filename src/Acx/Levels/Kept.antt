-- ===== src/Acx/Levels/Kept.antt =====
-- What the volume element of viosnd/sys/ViosndAcxCircuit.cpp keeps.
use viosnd.Base.{
  ℕ, ◌≡◌, refl, ◌⊎◌, inl, inr, ◌&&◌, ◌||◌, some, ltb, ◌==◌, if◌then◌else◌, branches, arith,
}
use viosnd.Base.Int.{ℤ, ltb_ℤ}
use viosnd.Status.{NtStatus, status_success, status_invalid_parameter}
use viosnd.Pcm.{default_channels}
use viosnd.Acx.Levels.{
  all_channels_id, volume_minimum, volume_maximum, assign_channel, retrieve_channel,
  volume_assign_level, volume_retrieve_level,
}

-- A level that is kept for a channel, at that channel and at another one; or an error, and nothing
-- changed
record Keeps (channel other : ℕ) (level : ℤ) (levels : ℕ → ℤ) (r : NtStatus × (ℕ → ℤ))
    : Type 0 where
  kept :
      ((r.0 ≡ status_success)
        × (volume_retrieve_level channel r.1 ≡ (status_success, some level))
        × (r.1 other ≡ (
            if ltb other 2 && (channel == all_channels_id || other == channel)
            then level
            else levels other)))
      ⊎ ((r.0 ≡ status_invalid_parameter) × (r.1 ≡ levels))

-- A level that ViosndEvtVolumeAssignLevel accepts for a channel, or for all of them, is what
-- ViosndEvtVolumeRetrieveLevel then reads for that channel, and for all; the other channels keep
-- theirs. A level or a channel that it refuses changes nothing.
pub volume_retrieve_level-assign :
    (channel other : ℕ) (level : ℤ) (levels : ℕ → ℤ)
    → let (status, after) = volume_assign_level channel level levels in
      ((status ≡ status_success)
        × (volume_retrieve_level channel after ≡ (status_success, some level))
        × (after other ≡ (
            if ltb other 2 && (channel == all_channels_id || other == channel)
            then level
            else levels other)))
      ⊎ ((status ≡ status_invalid_parameter) × (after ≡ levels))
unfolding volume_assign_level volume_retrieve_level assign_channel retrieve_channel
volume_retrieve_level-assign channel other level levels =
    (branches (Keeps channel other level levels)
      (ltb_ℤ level volume_minimum || ltb_ℤ volume_maximum level)
      (λ _. record { kept = inr (refl, refl) })
      (λ _.
        branches (Keeps channel other level levels) (channel == all_channels_id)
          (λ e. record { kept = inl (refl, ground (arith, e), ground (arith, e)) })
          (λ e.
            branches (Keeps channel other level levels) (ltb channel default_channels)
              (λ f. record { kept = inl (refl, ground (arith, e, f), ground (arith, e, f)) })
              (λ _. record { kept = inr (refl, refl) })))).kept

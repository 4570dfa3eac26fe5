-- ===== src/Acx/Levels.antt =====
-- The mute and volume elements of viosnd/sys/ViosndAcxCircuit.cpp: a value for each of the two
-- channels, which the driver keeps and does not apply.
pub mod Kept
use viosnd.Base.{ℕ, ◌||◌, Option, none, some, ltb, ◌==◌, if◌then◌else◌, max_ulong}
use viosnd.Base.Int.{ℤ, pos, negsuc, ltb_ℤ}
use viosnd.Status.{NtStatus, status_success, status_invalid_parameter}
use viosnd.Pcm.{default_channels}
use viosnd.Acx.Stream.{set_at}

-- VIOSND_VOLUME_MINIMUM, -96 * 0x10000
abbrev pub volume_minimum : ℤ
volume_minimum = negsuc 6291455

abbrev pub volume_maximum : ℤ
volume_maximum = pos 0

abbrev pub all_channels_id : ℕ
all_channels_id = max_ulong

module _ {ℓ} {A : Type ℓ} where
  -- The assignment that both elements make: the status and the array
  unfoldable pub assign_channel : ℕ → A → (ℕ → A) → NtStatus × (ℕ → A)
  assign_channel channel value values =
      if channel == all_channels_id
      then (status_success, set_at 1 value (set_at 0 value values))
      else if ltb channel default_channels
      then (status_success, set_at channel value values)
      else (status_invalid_parameter, values)

  -- The read that both elements make: the status, and the value if it was written
  unfoldable pub retrieve_channel : ℕ → (ℕ → A) → NtStatus × Option A
  retrieve_channel channel values =
      if channel == all_channels_id
      then (status_success, some (values 0))
      else if ltb channel default_channels
      then (status_success, some (values channel))
      else (status_invalid_parameter, none)

-- ViosndEvtMuteAssignState
unfoldable pub mute_assign_state : ℕ → ℕ → (ℕ → ℕ) → NtStatus × (ℕ → ℕ)
unfolding assign_channel
mute_assign_state channel state states = assign_channel channel state states

-- ViosndEvtMuteRetrieveState
unfoldable pub mute_retrieve_state : ℕ → (ℕ → ℕ) → NtStatus × Option ℕ
unfolding retrieve_channel
mute_retrieve_state channel states = retrieve_channel channel states

-- ViosndEvtVolumeAssignLevel, which ViosndEvtRampedVolumeAssignLevel calls
unfoldable pub volume_assign_level : ℕ → ℤ → (ℕ → ℤ) → NtStatus × (ℕ → ℤ)
unfolding assign_channel
volume_assign_level channel level levels =
    if ltb_ℤ level volume_minimum || ltb_ℤ volume_maximum level
    then (status_invalid_parameter, levels)
    else assign_channel channel level levels

-- ViosndEvtRampedVolumeAssignLevel, which ignores the ramp
unfoldable pub ramped_volume_assign_level : ℕ → ℤ → (ℕ → ℤ) → NtStatus × (ℕ → ℤ)
unfolding volume_assign_level
ramped_volume_assign_level channel level levels = volume_assign_level channel level levels

-- ViosndEvtVolumeRetrieveLevel
unfoldable pub volume_retrieve_level : ℕ → (ℕ → ℤ) → NtStatus × Option ℤ
unfolding retrieve_channel
volume_retrieve_level channel levels = retrieve_channel channel levels

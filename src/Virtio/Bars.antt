-- ===== src/Virtio/Bars.antt =====
-- The base address registers of the device in viosnd/sys/ViosndVirtio.cpp, and the ranges of them that
-- the virtio library maps.
pub mod Mapping
mod Tests
use viosnd.Base.{
  ℕ, ◌+◌, ◌≤◌, ◌<◌, ◌≡◌, ◌⊎◌, inl, inr, Bool, true, false, ◌||◌, not, List, [], ◌∷◌, Option, none,
  some, leb, ltb, ◌==◌, if◌then◌else◌, arith, refl, Option-cases, Bool-cases, ap,
}
use viosnd.Base.Int.{ℤ, pos, negsuc}
use viosnd.Virtio.Device.{Device, Bar}
use viosnd.Virtio.Bus.{Bus, Range, Resources}

-- VIOSND_MAX_BARS
abbrev pub max_bars : ℕ
max_bars = 6

abbrev pub set_bar : ℕ → Bar → Device → Device
set_bar i bar d = record d { bars = λ j. if j == i then bar else d.bars j }

-- The code's tests of an index: `Bar < 0 || Bar >= VIOSND_MAX_BARS || !Bars[Bar].Present`
unfoldable pub present_bar : ℤ → Device → Option ℕ
present_bar (negsuc n) d = none
present_bar (pos i) d = if leb max_bars i || not (d.bars i).present then none else some i

-- Where a bar starts for the processor: at its port, or at its mapping.
abbrev pub bar_start : Bar → ℕ
bar_start bar = if bar.port_space then bar.base_pa else bar.base_va

-- ViosndGetResourceLength
unfoldable pub get_resource_length : ℤ → Device → ℕ
unfolding present_bar
get_resource_length index d = elim (present_bar index d) [ none ↦ 0 | some i ↦ (d.bars i).length ]

module _ {W : Type 0} (bus : Bus W) where
  open bus use {bar_index, map_io, unmap_io}

  -- A round of either loop of ViosndMapBars
  unfoldable pub map_bar : Bool → Option Range → Device → Device
  map_bar port none d = d
  map_bar port (some range) d = elim (bar_index range.start) [
    | none ↦ d
    | some i ↦
        if leb max_bars i
        then d
        else set_bar i
            (record {
              present = true;
              port_space = port;
              base_pa = range.start;
              length = range.length;
              base_va = (d.bars i).base_va;
            })
            d
  ]

  unfoldable pub map_ranges : Bool → List (Option Range) → Device → Device
  unfolding map_bar
  map_ranges port [] d = d
  map_ranges port (r ∷ rest) d = map_ranges port rest (map_bar port r d)

  -- ViosndMapBars; it always succeeds.
  unfoldable pub map_bars : Resources → Device → Device
  unfolding map_ranges
  map_bars r d = map_ranges true r.ports (map_ranges false r.memory d)

  -- ViosndMapAddressRange on a bar that is there: the address, or none for NULL. The length that is
  -- asked for is not read.
  unfoldable pub map_in_bar : ℕ → ℕ → Device → W → Option ℕ × Device × W
  map_in_bar i offset d w =
      let bar = d.bars i in
      let (mapped, w') = map_io bar.base_pa bar.length w in
      if leb bar.length offset
      then (none, d, w)
      else if bar.port_space
      then (some (bar.base_pa + offset), d, w)
      else if not (bar.base_va == 0)
      then (some (bar.base_va + offset), d, w)
      else elim mapped [
        | none ↦ (none, d, w')
        | some va ↦ (some (va + offset), set_bar i (record bar { base_va = va }) d, w')
      ]

  -- ViosndMapAddressRange
  unfoldable pub map_address_range : ℤ → ℕ → Device → W → Option ℕ × Device × W
  map_address_range index offset d w = elim (present_bar index d) [
    | none ↦ (none, d, w)
    | some i ↦ map_in_bar i offset d w
  ]

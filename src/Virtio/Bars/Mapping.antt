-- ===== src/Virtio/Bars/Mapping.antt =====
-- The addresses that ViosndMapAddressRange of viosnd/sys/ViosndVirtio.cpp gives out.
use viosnd.Base.{
  ℕ, ◌+◌, ◌≤◌, ◌<◌, ◌≡◌, ◌≢◌, ◌⊎◌, inl, inr, true, false, Option, none, some, leb, ◌==◌, arith,
  refl, sym, subst, Option-cases, Bool-cases,
}
use viosnd.Base.Int.{ℤ, pos, negsuc}
use viosnd.Virtio.Device.{Device}
use viosnd.Virtio.Bus.{Bus}
use viosnd.Virtio.Bars.{max_bars, set_bar, bar_start, present_bar, map_in_bar, map_address_range}

-- What is wanted of a call on bar `i` that gave the address `a`, and of a later one at `later`.
pub record IsMapped {W : Type 0} (bus : Bus W) (index : ℤ) (i offset later a : ℕ) (d d' : Device)
    : Type 0 where
  pub named : index ≡ pos i
  pub small : i < max_bars
  pub inside : offset < (d.bars i).length
  pub address : a ≡ bar_start (d'.bars i) + offset
  pub again :
      (w : W)
      → map_address_range bus index later d' w ≡ (some (bar_start (d'.bars i) + later), d', w)

-- The same of the call on the bar itself.
record IsMappedIn {W : Type 0} (bus : Bus W) (i offset later a : ℕ) (d d' : Device) : Type 0 where
  pub inside : offset < (d.bars i).length
  pub address : a ≡ bar_start (d'.bars i) + offset
  pub again : (w : W) → map_in_bar bus i later d' w ≡ (some (bar_start (d'.bars i) + later), d', w)
  pub still : present_bar (pos i) d' ≡ some i

none-some : {a : ℕ} {o : Option ℕ} → o ≡ none → o ≡ some a → ⊥
none-some e f = cc

module _ {W : Type 0} (bus : Bus W)
    (mapped : (pa n va : ℕ) (w : W) → (bus.map_io pa n w).0 ≡ some va → va ≢ 0) where
  -- On a bar that is a port range, or mapped already, or mapped by this call
  settled :
      (i later : ℕ) (d : Device)
      → ((d.bars i).port_space ≡ true) ⊎ ((d.bars i).base_va ≢ 0)
      → later < (d.bars i).length
      → (w : W) → map_in_bar bus i later d w ≡ (some (bar_start (d.bars i) + later), d, w)
  unfolding map_in_bar
  settled i later d (inl port) fits w = ground arith
  settled i later d (inr there) fits w = elim (Bool-cases (d.bars i).port_space) [
    | inl port ↦ ground arith
    | inr memory ↦ ground arith
  ]

  -- On a bar that this call maps, or fails to map
  maps :
      (i offset va : ℕ) (d : Device) (w : W)
      → (d.bars i).port_space ≡ false
      → (d.bars i).base_va ≡ 0
      → offset < (d.bars i).length
      → (bus.map_io (d.bars i).base_pa (d.bars i).length w).0 ≡ some va
      → map_in_bar bus i offset d w ≡ (
        some (va + offset),
        set_bar i (record (d.bars i) { base_va = va }) d,
        (bus.map_io (d.bars i).base_pa (d.bars i).length w).1,
      )
  unfolding map_in_bar
  maps i offset va d w memory unmapped fits io = rw (io, map_in_bar) (ground arith)

  unmappable :
      (i offset : ℕ) (d : Device) (w : W)
      → (d.bars i).port_space ≡ false
      → (d.bars i).base_va ≡ 0
      → (bus.map_io (d.bars i).base_pa (d.bars i).length w).0 ≡ none
      → (map_in_bar bus i offset d w).0 ≡ none
  unfolding map_in_bar
  unmappable i offset d w memory unmapped io = rw (io, map_in_bar) (ground arith)

  outside :
      (i offset : ℕ) (d : Device) (w : W)
      → (d.bars i).length ≤ offset
      → (map_in_bar bus i offset d w).0 ≡ none
  unfolding map_in_bar
  outside i offset d w far = ground arith

  -- From the bar after the call
  finish :
      (i offset later a : ℕ) (d d' : Device)
      → present_bar (pos i) d ≡ some i
      → (d'.bars i).present ≡ (d.bars i).present
      → (d'.bars i).length ≡ (d.bars i).length
      → ((d'.bars i).port_space ≡ true) ⊎ ((d'.bars i).base_va ≢ 0)
      → offset < (d.bars i).length
      → later < (d.bars i).length
      → a ≡ bar_start (d'.bars i) + offset
      → IsMappedIn bus i offset later a d d'
  unfolding present_bar
  finish i offset later a d d' there present size reason inside fits address = record {
    inside = inside;
    address = address;
    again = settled i later d' reason (omega (arith, size, fits));
    still = ground arith;
  }

  in_bar :
      (i offset later a : ℕ) (d : Device) (w : W)
      → present_bar (pos i) d ≡ some i
      → (map_in_bar bus i offset d w).0 ≡ some a
      → later < (d.bars i).length
      → offset < (d.bars i).length
      → IsMappedIn bus i offset later a d (map_in_bar bus i offset d w).1
  in_bar i offset later a d w there got fits inside =
      let Goal : Option ℕ × Device × W → Type 0 =
        λ r. r.0 ≡ some a → IsMappedIn bus i offset later a d r.1 in
      let known : ((d.bars i).port_space ≡ true) ⊎ ((d.bars i).base_va ≢ 0)
          → IsMappedIn bus i offset later a d (map_in_bar bus i offset d w).1 =
        λ reason.
          subst Goal (sym (settled i offset d reason inside w))
            (λ g. finish i offset later a d d there refl refl reason inside fits (ground arith))
            got in
      elim (Bool-cases (d.bars i).port_space) [
        | inl port ↦ known (inl port)
        | inr memory ↦ elim (Bool-cases ((d.bars i).base_va == 0)) [
          | inr mapped_before ↦ known (inr (λ z. ground arith))
          | inl unmapped ↦
              let zero_va : (d.bars i).base_va ≡ 0 = ground arith in
              elim (Option-cases (bus.map_io (d.bars i).base_pa (d.bars i).length w).0) [
                | inl io ↦ absurd (none-some (unmappable i offset d w memory zero_va io) got)
                | inr (va, io) ↦
                    subst Goal (sym (maps i offset va d w memory zero_va inside io))
                      (λ g.
                        finish i offset later a d _ there (ground arith) (ground arith)
                          (inr
                            (ground (arith, mapped (d.bars i).base_pa (d.bars i).length va w io)))
                          inside fits (ground arith))
                      got
              ]
        ]
      ]

index_of :
    {i : ℕ} (index : ℤ) (d : Device)
    → present_bar index d ≡ some i
    → (index ≡ pos i) × (i < max_bars)
unfolding present_bar
index_of (negsuc n) d e = cc
index_of (pos i) d e = (ground arith, ground arith)

-- ViosndMapAddressRange on the bar that an index names gives an address only inside the bar: at the
-- offset from the bar's start, and before its end. A later call with an offset inside the bar, in
-- any world, gives the address at that offset from the same start and maps nothing more. It is
-- assumed that MmMapIoSpaceEx does not succeed with NULL.
pub map_address_range_lem :
    {W : Type 0} (bus : Bus W) (index : ℤ) (i offset later a : ℕ) (d : Device) (w : W)
    → ((pa n va : ℕ) (w : W) → (bus.map_io pa n w).0 ≡ some va → va ≢ 0)
    → present_bar index d ≡ some i
    → (map_address_range bus index offset d w).0 ≡ some a
    → later < (d.bars i).length
    → IsMapped bus index i offset later a d (map_address_range bus index offset d w).1
unfolding map_address_range
map_address_range_lem bus index i offset later a d w mapped there got fits =
    let (named, small) = index_of index d there in
    let there' : present_bar (pos i) d ≡ some i =
      subst (λ k. present_bar k d ≡ some i) named there in
    let same : map_address_range bus index offset d w ≡ map_in_bar bus i offset d w =
      rw (there, map_address_range) refl in
    let got' : (map_in_bar bus i offset d w).0 ≡ some a = subst (λ r. r.0 ≡ some a) same got in
    let inside : offset < (d.bars i).length = elim (Bool-cases (leb (d.bars i).length offset)) [
      | inl far ↦ absurd (none-some (outside bus mapped i offset d w (ground arith)) got')
      | inr near ↦ ground arith
    ] in
    let result = in_bar bus mapped i offset later a d w there' got' fits inside in
    let d' = (map_in_bar bus i offset d w).1 in
    let still : present_bar index d' ≡ some i =
      subst (λ k. present_bar k d' ≡ some i) (sym named) result.still in
    subst (λ r. IsMapped bus index i offset later a d r.1) (sym same)
      (record {
        named = named;
        small = small;
        inside = result.inside;
        address = result.address;
        again = λ w'. rw (still, map_address_range) (result.again w');
      })

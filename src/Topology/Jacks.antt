-- ===== src/Topology/Jacks.antt =====
-- The protocol of sizes of the property handler of viosnd/sys/ViosndTopology.cpp.
mod Tests
use viosnd.Base.{
  ℕ, ◌≤◌, ◌<◌, ◌≡◌, Bool, true, false, List, Option, arith, Option-cases, Bool-cases, inl, inr, not,
  ◌==◌, if◌then◌else◌,
}
use viosnd.Status.{NtStatus, status_success, status_buffer_overflow}
use viosnd.Pcm.{has_bit}
use viosnd.Topology.{
  Jack, PropertyRequest, PropertyValue, unwritten, access_flags, jack_description,
  jack_description2, topology_property_handler, give_value, basic_support, find_jack,
  get_jack_description, get_jack_description2, capture_jacks, render_jacks, type_get,
  type_basic_support, id_jack_description, id_jack_description2, description_size,
  description2_size,
}

-- The bytes that a value takes
abbrev pub value_bytes : PropertyValue → ℕ
value_bytes unwritten = 0
value_bytes (access_flags flags) = 4
value_bytes (jack_description size count jack) = size
value_bytes (jack_description2 size count state capabilities) = size

-- A handler that is told to be tried again with a buffer of `n` bytes answers.
abbrev Answers :
    (asked : NtStatus × PropertyRequest) → (given : NtStatus × PropertyRequest) → Type 0
Answers asked given =
    (given.0 ≡ status_success)
    × (given.1.value_size ≡ asked.1.value_size)
    × (value_bytes given.1.value ≡ asked.1.value_size)

give_value-Answers :
    (needed n : ℕ) (value : PropertyValue) (r : PropertyRequest)
    → r.value_size ≡ 0
    → value_bytes value ≡ needed
    → 0 < needed
    → (give_value needed value r).1.value_size ≤ n
    → Answers (give_value needed value r) (give_value needed value (record r { value_size = n }))
unfolding give_value
give_value-Answers needed n value r e size some room = ground (arith, e, size, some, room)

get_jack_description-Answers :
    (jacks : List (Option Jack)) (n : ℕ) (r : PropertyRequest)
    → r.value_size ≡ 0
    → (get_jack_description jacks r).0 ≡ status_buffer_overflow
    → (get_jack_description jacks r).1.value_size ≤ n
    → Answers
        (get_jack_description jacks r)
        (get_jack_description jacks (record r { value_size = n }))
unfolding get_jack_description find_jack give_value
get_jack_description-Answers jacks n r e asked room = ground (arith, e, asked, room)

get_jack_description2-Answers :
    (jacks : List (Option Jack)) (n : ℕ) (r : PropertyRequest)
    → r.value_size ≡ 0
    → (get_jack_description2 jacks r).0 ≡ status_buffer_overflow
    → (get_jack_description2 jacks r).1.value_size ≤ n
    → Answers
        (get_jack_description2 jacks r)
        (get_jack_description2 jacks (record r { value_size = n }))
unfolding get_jack_description2 find_jack give_value
get_jack_description2-Answers jacks n r e asked room = ground (arith, e, asked, room)

-- A client that asks for the size of a property with an empty buffer, and is told one, gets the
-- property with any buffer of at least that size: the value takes as many bytes as it was told, and
-- the second call names the same size.
pub topology_property_handler-answers :
    (capture : Bool) (n : ℕ) (r : PropertyRequest)
    → r.value_size ≡ 0
    → (topology_property_handler capture r).0 ≡ status_buffer_overflow
    → (topology_property_handler capture r).1.value_size ≤ n
    → let (asked, sized) = topology_property_handler capture r in
      let (status, given) = topology_property_handler capture (record r { value_size = n }) in
      (status ≡ status_success)
      × (given.value_size ≡ sized.value_size)
      × (value_bytes given.value ≡ sized.value_size)
unfolding topology_property_handler basic_support give_value
topology_property_handler-answers capture n r e asked room =
    let jacks = if capture then capture_jacks else render_jacks in
    ground (
      arith,
      e,
      asked,
      room,
      get_jack_description-Answers jacks n r e,
      get_jack_description2-Answers jacks n r e,
    )

-- ===== src/Topology.antt =====
-- The jacks of the topology miniport, viosnd/sys/ViosndTopology.cpp. The structures and the numbers
-- of ks.h and ksmedia.h are the documented ones.
pub mod Jacks
use viosnd.Base.{
  ℕ, Bool, true, false, ◌||◌, not, List, [], ◌∷◌, Option, none, some, leb, ltb, ◌==◌, if◌then◌else◌,
  length, get_elem?, ◌+◌,
}
use viosnd.Status.{
  NtStatus, status_success, status_buffer_overflow, status_buffer_too_small,
  status_invalid_parameter, status_invalid_device_request, status_not_implemented,
  status_insufficient_resources,
}
use viosnd.Pcm.{has_bit}

-- KSAUDIO_SPEAKER_STEREO and KSAUDIO_SPEAKER_MONO
pub data ChannelMapping : Type 0 where
  stereo mono : ChannelMapping

-- KSJACK_DESCRIPTION, with the fields in which the two of the driver differ
pub record Jack : Type 0 where
  pub channel_mapping : ChannelMapping
  pub color : ℕ

-- ViosndSpeakerJackDescription
abbrev pub speaker_jack : Jack
speaker_jack = record { channel_mapping = stereo; color = 0xB3C98C }

-- ViosndMicJackDescription
abbrev pub mic_jack : Jack
mic_jack = record { channel_mapping = mono; color = 0x993399 }

-- ViosndRenderJackDescriptions and ViosndCaptureJackDescriptions, by pin
abbrev pub render_jacks : List (Option Jack)
render_jacks = none ∷ some speaker_jack ∷ []

abbrev pub capture_jacks : List (Option Jack)
capture_jacks = some mic_jack ∷ none ∷ []

-- What the memory at Value holds; a description has the Size and the Count of its KSMULTIPLE_ITEM.
pub data PropertyValue : Type 0 where
  unwritten : PropertyValue
  access_flags : ℕ → PropertyValue
  jack_description : ℕ → ℕ → Jack → PropertyValue
  jack_description2 : ℕ → ℕ → ℕ → ℕ → PropertyValue

-- PCPROPERTY_REQUEST: `target` is whether the request and MajorTarget are not NULL, and `instance`
-- what Instance points to.
pub record PropertyRequest : Type 0 where
  pub target : Bool
  pub verb : ℕ
  pub item_id : ℕ
  pub instance_size : ℕ
  pub instance_pin : Option ℕ
  pub value_size : ℕ
  pub value : PropertyValue

-- KSPROPERTY_TYPE_GET and KSPROPERTY_TYPE_BASICSUPPORT
abbrev pub type_get : ℕ
type_get = 1

abbrev pub type_basic_support : ℕ
type_basic_support = 0x200

-- KSPROPERTY_JACK_DESCRIPTION and KSPROPERTY_JACK_DESCRIPTION2
abbrev pub id_jack_description : ℕ
id_jack_description = 1

abbrev pub id_jack_description2 : ℕ
id_jack_description2 = 2

-- sizeof(KSMULTIPLE_ITEM) + sizeof(KSJACK_DESCRIPTION), and of KSJACK_DESCRIPTION2
abbrev pub description_size : ℕ
description_size = 8 + 28

abbrev pub description2_size : ℕ
description2_size = 8 + 8

-- The handling of ValueSize that the three answers share: a value of `needed` bytes.
unfoldable pub give_value : ℕ → PropertyValue → PropertyRequest → NtStatus × PropertyRequest
give_value needed value r =
    if r.value_size == 0
    then (status_buffer_overflow, record r { value_size = needed })
    else if ltb r.value_size needed
    then (status_buffer_too_small, r)
    else (status_success, record r { value = value; value_size = needed })

-- ViosndBasicSupport
unfoldable pub basic_support : ℕ → PropertyRequest → NtStatus × PropertyRequest
unfolding give_value
basic_support flags r = give_value 4 (access_flags flags) r

-- The jack of a pin, if the table has one
unfoldable pub jack_at : ℕ → List (Option Jack) → Option Jack
jack_at pin jacks = elim (get_elem? jacks pin) [ none ↦ none | some jack ↦ jack ]

-- The head of ViosndGetJackDescription and ViosndGetJackDescription2: the jack, or the status
unfoldable pub find_jack : List (Option Jack) → PropertyRequest → NtStatus × Option Jack
unfolding jack_at
find_jack jacks r =
    if ltb r.instance_size 4 then (status_invalid_parameter, none) else elim r.instance_pin [
      | none ↦ (status_invalid_parameter, none)
      | some pin ↦ elim (jack_at pin jacks) [
        | none ↦ (status_invalid_device_request, none)
        | some jack ↦ (status_success, some jack)
      ]
    ]

-- ViosndGetJackDescription
unfoldable pub get_jack_description :
    List (Option Jack) → PropertyRequest → NtStatus × PropertyRequest
unfolding find_jack give_value
get_jack_description jacks r =
    let (status, found) = find_jack jacks r in
    elim found [
      | none ↦ (status, r)
      | some jack ↦ give_value description_size (jack_description description_size 1 jack) r
    ]

-- ViosndGetJackDescription2
unfoldable pub get_jack_description2 :
    List (Option Jack) → PropertyRequest → NtStatus × PropertyRequest
unfolding find_jack give_value
get_jack_description2 jacks r =
    let (status, found) = find_jack jacks r in
    elim found [
      | none ↦ (status, r)
      | some jack ↦ give_value description2_size (jack_description2 description2_size 1 0 0) r
    ]

-- ViosndTopologyPropertyHandler, of a miniport of a direction
unfoldable pub topology_property_handler : Bool → PropertyRequest → NtStatus × PropertyRequest
unfolding basic_support get_jack_description get_jack_description2
topology_property_handler capture r =
    let jacks = if capture then capture_jacks else render_jacks in
    if not r.target
    then (status_invalid_parameter, r)
    else if has_bit r.verb type_basic_support
    then basic_support (type_get + type_basic_support) r
    else if not (has_bit r.verb type_get)
    then (status_invalid_device_request, r)
    else if r.item_id == id_jack_description
    then get_jack_description jacks r
    else if r.item_id == id_jack_description2
    then get_jack_description2 jacks r
    else (status_invalid_device_request, r)

-- CViosndMiniportTopology::DataRangeIntersection: the status and *ResultantFormatLength
unfoldable pub topology_intersection : NtStatus × ℕ
topology_intersection = (status_not_implemented, 0)

-- ViosndCreateTopologyMiniport: the status and *Miniport, with the block that the pool gives
unfoldable pub create_topology_miniport : Option ℕ → NtStatus × ℕ
create_topology_miniport none = (status_insufficient_resources, 0)
create_topology_miniport (some memory) = (status_success, memory)

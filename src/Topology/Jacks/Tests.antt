-- ===== src/Topology/Jacks/Tests.antt =====
-- Runs of the property handler of viosnd/sys/ViosndTopology.cpp.
use viosnd.Base.{◌≡◌, refl, true, false, some, arith}
use viosnd.Status.{status_success}
use viosnd.Topology.{PropertyRequest, unwritten, topology_property_handler}
use viosnd.Topology.Jacks.{topology_property_handler-answers, value_bytes}

abbrev speaker_request : PropertyRequest
speaker_request = record {
  target = true;
  verb = 1;
  item_id = 1;
  instance_size = 4;
  instance_pin = some 1;
  value_size = 0;
  value = unwritten;
}

topology_property_handler-answers_example :
    let (asked, sized) = topology_property_handler false speaker_request in
    let (status, given) =
      topology_property_handler false (record speaker_request { value_size = 64 }) in
    (status ≡ status_success)
    × (given.value_size ≡ sized.value_size)
    × (value_bytes given.value ≡ sized.value_size)
unfolding topology_property_handler
topology_property_handler-answers_example =
    topology_property_handler-answers false 64 speaker_request refl refl (omega arith)

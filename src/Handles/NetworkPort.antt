-- ===== src/Handles/NetworkPort.antt =====
-- network.go: the operations of `NetworkPort`, in the order of the file.
use libvirt_go.Resource.{
  NativeObject, object_free, object_status, handle_of, object_uuid_string, object_owned_string,
  handles_of, object_from_string, object_from_xml, call_filling, object_list_objects, call_out,
}
use libvirt_go.Prelude.{String, Option, ℕ, Bytes, List, ◌∷◌, []}
use libvirt_go.World.{M}
use libvirt_go.Native.{NativeApi, call_int, ptr, call_ptr, out, text, num}
use libvirt_go.Errors.{Result, GoError}
use libvirt_go.Prelude.Int.{pos}

-- `newNetworkPort` gives its handles this kind.
abbrev kind : String
kind = "network port"

module _ {L : Type 0} (api : NativeApi L) where
  unfoldable list_all_ports : Option NativeObject → ℕ → M L (Result (List NativeObject))
  list_all_ports network flags = handles_of kind (
      object_list_objects api network "virNetworkListAllPorts"
        λ p. call_out api "virNetworkListAllPorts" (ptr p ∷ out ∷ num (pos flags) ∷ []))

  unfoldable lookup_port_by_uuid_string : Option NativeObject → Bytes → M L (Result NativeObject)
  lookup_port_by_uuid_string network uuid = handle_of kind (
      object_from_string api network "network port UUID" uuid "virNetworkPortLookupByUUIDString"
        λ p b. call_ptr api "virNetworkPortLookupByUUIDString" (ptr p ∷ text b ∷ []))

  unfoldable create_port_xml : Option NativeObject → Bytes → ℕ → M L (Result NativeObject)
  create_port_xml network xml flags = handle_of kind (
      object_from_xml api network xml "virNetworkPortCreateXML" flags
        λ p b f. call_ptr api "virNetworkPortCreateXML" (ptr p ∷ text b ∷ num (pos f) ∷ []))

  unfoldable free : Option NativeObject → M L (Option GoError × Option NativeObject)
  free port =
      object_free api port "virNetworkPortFree" λ p. call_int api "virNetworkPortFree" (ptr p ∷ [])

  unfoldable get_uuid_string : Option NativeObject → M L (Bytes × Option GoError)
  get_uuid_string port =
      object_uuid_string api port "virNetworkPortGetUUIDString"
        λ p. call_filling api "virNetworkPortGetUUIDString" (ptr p ∷ out ∷ [])

  unfoldable get_xml_desc : Option NativeObject → ℕ → M L (Bytes × Option GoError)
  get_xml_desc port flags =
      object_owned_string api port "virNetworkPortGetXMLDesc"
        λ p. call_ptr api "virNetworkPortGetXMLDesc" (ptr p ∷ num (pos flags) ∷ [])

  unfoldable delete : Option NativeObject → ℕ → M L (Option GoError)
  delete port flags =
      object_status api port "virNetworkPortDelete"
        λ p. call_int api "virNetworkPortDelete" (ptr p ∷ num (pos flags) ∷ [])

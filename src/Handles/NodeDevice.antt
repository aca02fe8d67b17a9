-- ===== src/Handles/NodeDevice.antt =====
-- nodedev.go: the operations of `NodeDevice`, in the order of the file.
use libvirt_go.Native.CString.{buffer, refused, make_c_string}
use libvirt_go.Resource.{
  NativeObject, Connect, object_free, object_status, handle_of, object_borrowed_string,
  object_owned_string, handles_of, connect_object_from_string, connect_object_from_xml,
  connect_list_objects, call_out,
}
use libvirt_go.Prelude.{some, String, Option, ℕ, Bytes, List, true, ◌∷◌, []}
use libvirt_go.World.{pure, M}
use libvirt_go.Native.{NativeApi, call_int, ptr, call_ptr, text, num, out}
use libvirt_go.Errors.{Result, GoError}
use libvirt_go.Prelude.Int.{pos}

-- `newNodeDevice` gives its handles this kind.
abbrev kind : String
kind = "node device"

module _ {L : Type 0} (api : NativeApi L) where
  unfoldable list_all_node_devices : Option Connect → ℕ → M L (Result (List NativeObject))
  list_all_node_devices c flags = handles_of kind (
      connect_list_objects api c "virConnectListAllNodeDevices"
        λ p. call_out api "virConnectListAllNodeDevices" (ptr p ∷ out ∷ num (pos flags) ∷ []))

  unfoldable lookup_node_device_by_name : Option Connect → Bytes → M L (Result NativeObject)
  lookup_node_device_by_name c name = handle_of kind (
      connect_object_from_string api c "node device name" name "virNodeDeviceLookupByName"
        λ p b. call_ptr api "virNodeDeviceLookupByName" (ptr p ∷ text b ∷ []))

  unfoldable create_node_device_xml : Option Connect → Bytes → ℕ → M L (Result NativeObject)
  create_node_device_xml c xml flags = handle_of kind (
      connect_object_from_xml api c xml "virNodeDeviceCreateXML" flags
        λ p b f. call_ptr api "virNodeDeviceCreateXML" (ptr p ∷ text b ∷ num (pos f) ∷ []))

  unfoldable free : Option NativeObject → M L (Option GoError × Option NativeObject)
  free device =
      object_free api device "virNodeDeviceFree" λ p. call_int api "virNodeDeviceFree" (ptr p ∷ [])

  unfoldable get_name : Option NativeObject → M L (Bytes × Option GoError)
  get_name device =
      object_borrowed_string api device "virNodeDeviceGetName"
        λ p. call_ptr api "virNodeDeviceGetName" (ptr p ∷ [])

  unfoldable get_xml_desc : Option NativeObject → ℕ → M L (Bytes × Option GoError)
  get_xml_desc device flags =
      object_owned_string api device "virNodeDeviceGetXMLDesc"
        λ p. call_ptr api "virNodeDeviceGetXMLDesc" (ptr p ∷ num (pos flags) ∷ [])

  unfoldable destroy : Option NativeObject → M L (Option GoError)
  destroy device =
      object_status api device "virNodeDeviceDestroy"
        λ p. call_int api "virNodeDeviceDestroy" (ptr p ∷ [])

  unfoldable reattach : Option NativeObject → M L (Option GoError)
  reattach device =
      object_status api device "virNodeDeviceReAttach"
        λ p. call_int api "virNodeDeviceReAttach" (ptr p ∷ [])

  unfoldable reset : Option NativeObject → M L (Option GoError)
  reset device =
      object_status api device "virNodeDeviceReset"
        λ p. call_int api "virNodeDeviceReset" (ptr p ∷ [])

  unfoldable detach : Option NativeObject → Bytes → ℕ → M L (Option GoError)
  detach device driver_name flags = elim (make_c_string "node device driver" driver_name true) [
    | refused e ↦ pure (some e)
    | buffer b ↦
        object_status api device "virNodeDeviceDetachFlags"
          λ p. call_int api "virNodeDeviceDetachFlags" (ptr p ∷ text b ∷ num (pos flags) ∷ [])
  ]

-- ===== src/Handles/Interface.antt =====
-- interface.go: the operations of `Interface`, in the order of the file.
use libvirt_go.Resource.{
  NativeObject, Connect, object_free, object_status, handle_of, object_borrowed_string,
  object_owned_string, object_bool, handles_of, connect_object_from_string, connect_object_from_xml,
  connect_list_objects, call_out,
}
use libvirt_go.Prelude.{String, Option, ℕ, Bytes, Bool, List, ◌∷◌, []}
use libvirt_go.World.{M}
use libvirt_go.Native.{NativeApi, call_int, ptr, call_ptr, text, num, out}
use libvirt_go.Errors.{Result, GoError}
use libvirt_go.Prelude.Int.{pos}

-- `newInterface` gives its handles this kind.
abbrev kind : String
kind = "interface"

module _ {L : Type 0} (api : NativeApi L) where
  unfoldable list_all_interfaces : Option Connect → ℕ → M L (Result (List NativeObject))
  list_all_interfaces c flags = handles_of kind (
      connect_list_objects api c "virConnectListAllInterfaces"
        λ p. call_out api "virConnectListAllInterfaces" (ptr p ∷ out ∷ num (pos flags) ∷ []))

  unfoldable lookup_interface_by_name : Option Connect → Bytes → M L (Result NativeObject)
  lookup_interface_by_name c name = handle_of kind (
      connect_object_from_string api c "interface name" name "virInterfaceLookupByName"
        λ p b. call_ptr api "virInterfaceLookupByName" (ptr p ∷ text b ∷ []))

  unfoldable lookup_interface_by_mac_string : Option Connect → Bytes → M L (Result NativeObject)
  lookup_interface_by_mac_string c mac = handle_of kind (
      connect_object_from_string api c "interface MAC" mac "virInterfaceLookupByMACString"
        λ p b. call_ptr api "virInterfaceLookupByMACString" (ptr p ∷ text b ∷ []))

  unfoldable define_interface_xml : Option Connect → Bytes → ℕ → M L (Result NativeObject)
  define_interface_xml c xml flags = handle_of kind (
      connect_object_from_xml api c xml "virInterfaceDefineXML" flags
        λ p b f. call_ptr api "virInterfaceDefineXML" (ptr p ∷ text b ∷ num (pos f) ∷ []))

  unfoldable free : Option NativeObject → M L (Option GoError × Option NativeObject)
  free iface =
      object_free api iface "virInterfaceFree" λ p. call_int api "virInterfaceFree" (ptr p ∷ [])

  unfoldable get_name : Option NativeObject → M L (Bytes × Option GoError)
  get_name iface =
      object_borrowed_string api iface "virInterfaceGetName"
        λ p. call_ptr api "virInterfaceGetName" (ptr p ∷ [])

  unfoldable get_mac_string : Option NativeObject → M L (Bytes × Option GoError)
  get_mac_string iface =
      object_borrowed_string api iface "virInterfaceGetMACString"
        λ p. call_ptr api "virInterfaceGetMACString" (ptr p ∷ [])

  unfoldable get_xml_desc : Option NativeObject → ℕ → M L (Bytes × Option GoError)
  get_xml_desc iface flags =
      object_owned_string api iface "virInterfaceGetXMLDesc"
        λ p. call_ptr api "virInterfaceGetXMLDesc" (ptr p ∷ num (pos flags) ∷ [])

  unfoldable is_active : Option NativeObject → M L (Bool × Option GoError)
  is_active iface =
      object_bool api iface "virInterfaceIsActive"
        λ p. call_int api "virInterfaceIsActive" (ptr p ∷ [])

  unfoldable create : Option NativeObject → ℕ → M L (Option GoError)
  create iface flags =
      object_status api iface "virInterfaceCreate"
        λ p. call_int api "virInterfaceCreate" (ptr p ∷ num (pos flags) ∷ [])

  unfoldable destroy : Option NativeObject → ℕ → M L (Option GoError)
  destroy iface flags =
      object_status api iface "virInterfaceDestroy"
        λ p. call_int api "virInterfaceDestroy" (ptr p ∷ num (pos flags) ∷ [])

  unfoldable undefine : Option NativeObject → M L (Option GoError)
  undefine iface =
      object_status api iface "virInterfaceUndefine"
        λ p. call_int api "virInterfaceUndefine" (ptr p ∷ [])

-- ===== src/Handles/Network.antt =====
-- network.go: the operations of `Network`, in the order of the file.
use libvirt_go.Resource.{
  NativeObject, Connect, object_free, object_status, handle_of, object_borrowed_string,
  object_uuid_string, object_owned_string, object_bool, object_flag, handles_of,
  connect_object_from_string, connect_object_from_xml, call_filling, call_out, connect_list_objects,
  int32_of_bool,
}
use libvirt_go.Prelude.{String, Option, ℕ, Bool, Bytes, List, ◌∷◌, []}
use libvirt_go.World.{M}
use libvirt_go.Native.{NativeApi, call_int, ptr, call_ptr, out, text, num}
use libvirt_go.Errors.{Result, GoError}
use libvirt_go.Prelude.Int.{pos}

-- `newNetwork` gives its handles this kind.
abbrev kind : String
kind = "network"

module _ {L : Type 0} (api : NativeApi L) where
  unfoldable list_all_networks : Option Connect → ℕ → M L (Result (List NativeObject))
  list_all_networks c flags = handles_of kind (
      connect_list_objects api c "virConnectListAllNetworks"
        λ p. call_out api "virConnectListAllNetworks" (ptr p ∷ out ∷ num (pos flags) ∷ []))

  unfoldable lookup_network_by_name : Option Connect → Bytes → M L (Result NativeObject)
  lookup_network_by_name c name = handle_of kind (
      connect_object_from_string api c "network name" name "virNetworkLookupByName"
        λ p b. call_ptr api "virNetworkLookupByName" (ptr p ∷ text b ∷ []))

  unfoldable lookup_network_by_uuid_string : Option Connect → Bytes → M L (Result NativeObject)
  lookup_network_by_uuid_string c uuid = handle_of kind (
      connect_object_from_string api c "network UUID" uuid "virNetworkLookupByUUIDString"
        λ p b. call_ptr api "virNetworkLookupByUUIDString" (ptr p ∷ text b ∷ []))

  unfoldable define_network_xml : Option Connect → Bytes → M L (Result NativeObject)
  define_network_xml c xml = handle_of kind (
      connect_object_from_xml api c xml "virNetworkDefineXML" 0
        λ p b _. call_ptr api "virNetworkDefineXML" (ptr p ∷ text b ∷ []))

  unfoldable define_network_xml_flags : Option Connect → Bytes → ℕ → M L (Result NativeObject)
  define_network_xml_flags c xml flags = handle_of kind (
      connect_object_from_xml api c xml "virNetworkDefineXMLFlags" flags
        λ p b f. call_ptr api "virNetworkDefineXMLFlags" (ptr p ∷ text b ∷ num (pos f) ∷ []))

  unfoldable create_network_xml : Option Connect → Bytes → M L (Result NativeObject)
  create_network_xml c xml = handle_of kind (
      connect_object_from_xml api c xml "virNetworkCreateXML" 0
        λ p b _. call_ptr api "virNetworkCreateXML" (ptr p ∷ text b ∷ []))

  unfoldable free : Option NativeObject → M L (Option GoError × Option NativeObject)
  free network =
      object_free api network "virNetworkFree" λ p. call_int api "virNetworkFree" (ptr p ∷ [])

  unfoldable get_name : Option NativeObject → M L (Bytes × Option GoError)
  get_name network =
      object_borrowed_string api network "virNetworkGetName"
        λ p. call_ptr api "virNetworkGetName" (ptr p ∷ [])

  unfoldable get_uuid_string : Option NativeObject → M L (Bytes × Option GoError)
  get_uuid_string network =
      object_uuid_string api network "virNetworkGetUUIDString"
        λ p. call_filling api "virNetworkGetUUIDString" (ptr p ∷ out ∷ [])

  unfoldable get_xml_desc : Option NativeObject → ℕ → M L (Bytes × Option GoError)
  get_xml_desc network flags =
      object_owned_string api network "virNetworkGetXMLDesc"
        λ p. call_ptr api "virNetworkGetXMLDesc" (ptr p ∷ num (pos flags) ∷ [])

  unfoldable is_active : Option NativeObject → M L (Bool × Option GoError)
  is_active network =
      object_bool api network "virNetworkIsActive"
        λ p. call_int api "virNetworkIsActive" (ptr p ∷ [])

  unfoldable is_persistent : Option NativeObject → M L (Bool × Option GoError)
  is_persistent network =
      object_bool api network "virNetworkIsPersistent"
        λ p. call_int api "virNetworkIsPersistent" (ptr p ∷ [])

  unfoldable get_autostart : Option NativeObject → M L (Bool × Option GoError)
  get_autostart network =
      object_flag api network "virNetworkGetAutostart"
        λ p. call_out api "virNetworkGetAutostart" (ptr p ∷ out ∷ [])

  unfoldable set_autostart : Option NativeObject → Bool → M L (Option GoError)
  set_autostart network autostart =
      object_status api network "virNetworkSetAutostart"
        λ p. call_int api "virNetworkSetAutostart" (ptr p ∷ num (int32_of_bool autostart) ∷ [])

  unfoldable create : Option NativeObject → M L (Option GoError)
  create network =
      object_status api network "virNetworkCreate" λ p. call_int api "virNetworkCreate" (ptr p ∷ [])

  unfoldable destroy : Option NativeObject → M L (Option GoError)
  destroy network =
      object_status api network "virNetworkDestroy"
        λ p. call_int api "virNetworkDestroy" (ptr p ∷ [])

  unfoldable undefine : Option NativeObject → M L (Option GoError)
  undefine network =
      object_status api network "virNetworkUndefine"
        λ p. call_int api "virNetworkUndefine" (ptr p ∷ [])

-- ===== src/Handles/NwFilter.antt =====
-- nwfilter.go: the operations of `NWFilter`, in the order of the file.
use libvirt_go.Resource.{
  NativeObject, Connect, object_free, object_status, handle_of, object_borrowed_string,
  object_uuid_string, object_owned_string, handles_of, connect_object_from_string,
  connect_object_from_xml, call_filling, connect_list_objects, call_out,
}
use libvirt_go.Prelude.{String, Option, ℕ, Bytes, List, ◌∷◌, []}
use libvirt_go.World.{M}
use libvirt_go.Native.{NativeApi, call_int, ptr, call_ptr, text, out, num}
use libvirt_go.Errors.{Result, GoError}
use libvirt_go.Prelude.Int.{pos}

-- `newNWFilter` gives its handles this kind.
abbrev kind : String
kind = "network filter"

module _ {L : Type 0} (api : NativeApi L) where
  unfoldable list_all_nwfilters : Option Connect → ℕ → M L (Result (List NativeObject))
  list_all_nwfilters c flags = handles_of kind (
      connect_list_objects api c "virConnectListAllNWFilters"
        λ p. call_out api "virConnectListAllNWFilters" (ptr p ∷ out ∷ num (pos flags) ∷ []))

  unfoldable lookup_nwfilter_by_name : Option Connect → Bytes → M L (Result NativeObject)
  lookup_nwfilter_by_name c name = handle_of kind (
      connect_object_from_string api c "network filter name" name "virNWFilterLookupByName"
        λ p b. call_ptr api "virNWFilterLookupByName" (ptr p ∷ text b ∷ []))

  unfoldable lookup_nwfilter_by_uuid_string : Option Connect → Bytes → M L (Result NativeObject)
  lookup_nwfilter_by_uuid_string c uuid = handle_of kind (
      connect_object_from_string api c "network filter UUID" uuid "virNWFilterLookupByUUIDString"
        λ p b. call_ptr api "virNWFilterLookupByUUIDString" (ptr p ∷ text b ∷ []))

  unfoldable nwfilter_define_xml : Option Connect → Bytes → M L (Result NativeObject)
  nwfilter_define_xml c xml = handle_of kind (
      connect_object_from_xml api c xml "virNWFilterDefineXML" 0
        λ p b _. call_ptr api "virNWFilterDefineXML" (ptr p ∷ text b ∷ []))

  unfoldable free : Option NativeObject → M L (Option GoError × Option NativeObject)
  free filter =
      object_free api filter "virNWFilterFree" λ p. call_int api "virNWFilterFree" (ptr p ∷ [])

  unfoldable get_name : Option NativeObject → M L (Bytes × Option GoError)
  get_name filter =
      object_borrowed_string api filter "virNWFilterGetName"
        λ p. call_ptr api "virNWFilterGetName" (ptr p ∷ [])

  unfoldable get_uuid_string : Option NativeObject → M L (Bytes × Option GoError)
  get_uuid_string filter =
      object_uuid_string api filter "virNWFilterGetUUIDString"
        λ p. call_filling api "virNWFilterGetUUIDString" (ptr p ∷ out ∷ [])

  unfoldable get_xml_desc : Option NativeObject → ℕ → M L (Bytes × Option GoError)
  get_xml_desc filter flags =
      object_owned_string api filter "virNWFilterGetXMLDesc"
        λ p. call_ptr api "virNWFilterGetXMLDesc" (ptr p ∷ num (pos flags) ∷ [])

  unfoldable undefine : Option NativeObject → M L (Option GoError)
  undefine filter =
      object_status api filter "virNWFilterUndefine"
        λ p. call_int api "virNWFilterUndefine" (ptr p ∷ [])

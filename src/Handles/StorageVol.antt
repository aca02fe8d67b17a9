-- ===== src/Handles/StorageVol.antt =====
-- storage.go: the operations of `StorageVol`, in the order of the file.
use libvirt_go.Resource.{
  NativeObject, object_call, Connect, object_free, object_borrowed_string, object_owned_string,
  object_status, handles_of, handle_of, object_list_objects, call_out, object_from_string,
  object_from_xml, connect_object_from_string,
}
use libvirt_go.Prelude.{none, some, String, List, ℕ, Option, get_elem?, Bytes, [], ◌∷◌}
use libvirt_go.World.{◌>>=◌, pure, M}
use libvirt_go.Prelude.Int.{ℤ, pos, is_negative}
use libvirt_go.Native.{NativeApi, call_int, ptr, call_ptr, invoke, out, text, num}
use libvirt_go.Prelude.Words.{int32_of}
use libvirt_go.Errors.{GoError, Result}

-- `newStorageVol` gives its handles this kind.
abbrev kind : String
kind = "storage volume"

record StorageVolInfo : Type 0 where
  type_ : ℤ
  capacity : ℕ
  allocation : ℕ

abbrev word_at : List ℕ → ℕ → ℕ
word_at ws i = elim (get_elem? ws i) [ some w ↦ w | none ↦ 0 ]

-- The words that a call wrote into a zeroed `cStorageVolInfo`.
unfoldable vol_info : List ℕ → StorageVolInfo
vol_info ws = record {
  type_ = int32_of (word_at ws 0);
  capacity = word_at ws 1;
  allocation = word_at ws 2;
}

unfoldable storage_vol_info : List ℕ → Option GoError → StorageVolInfo × Option GoError
unfolding vol_info
storage_vol_info info (some e) = (vol_info [], some e)
storage_vol_info info none = (vol_info info, none)

module _ {L : Type 0} (api : NativeApi L) where
  unfoldable list_all_storage_volumes : Option NativeObject → ℕ → M L (Result (List NativeObject))
  list_all_storage_volumes pool flags = handles_of kind (
      object_list_objects api pool "virStoragePoolListAllVolumes"
        λ p. call_out api "virStoragePoolListAllVolumes" (ptr p ∷ out ∷ num (pos flags) ∷ []))

  unfoldable lookup_storage_vol_by_name : Option NativeObject → Bytes → M L (Result NativeObject)
  lookup_storage_vol_by_name pool name = handle_of kind (
      object_from_string api pool "storage volume name" name "virStorageVolLookupByName"
        λ p b. call_ptr api "virStorageVolLookupByName" (ptr p ∷ text b ∷ []))

  unfoldable storage_vol_create_xml : Option NativeObject → Bytes → ℕ → M L (Result NativeObject)
  storage_vol_create_xml pool xml flags = handle_of kind (
      object_from_xml api pool xml "virStorageVolCreateXML" flags
        λ p b f. call_ptr api "virStorageVolCreateXML" (ptr p ∷ text b ∷ num (pos f) ∷ []))

  unfoldable lookup_storage_vol_by_key : Option Connect → Bytes → M L (Result NativeObject)
  lookup_storage_vol_by_key c key = handle_of kind (
      connect_object_from_string api c "storage volume key" key "virStorageVolLookupByKey"
        λ p b. call_ptr api "virStorageVolLookupByKey" (ptr p ∷ text b ∷ []))

  unfoldable lookup_storage_vol_by_path : Option Connect → Bytes → M L (Result NativeObject)
  lookup_storage_vol_by_path c path = handle_of kind (
      connect_object_from_string api c "storage volume path" path "virStorageVolLookupByPath"
        λ p b. call_ptr api "virStorageVolLookupByPath" (ptr p ∷ text b ∷ []))

  unfoldable free : Option NativeObject → M L (Option GoError × Option NativeObject)
  free volume =
      object_free api volume "virStorageVolFree" λ p. call_int api "virStorageVolFree" (ptr p ∷ [])

  unfoldable get_name : Option NativeObject → M L (Bytes × Option GoError)
  get_name volume =
      object_borrowed_string api volume "virStorageVolGetName"
        λ p. call_ptr api "virStorageVolGetName" (ptr p ∷ [])

  unfoldable get_key : Option NativeObject → M L (Bytes × Option GoError)
  get_key volume =
      object_borrowed_string api volume "virStorageVolGetKey"
        λ p. call_ptr api "virStorageVolGetKey" (ptr p ∷ [])

  unfoldable get_path : Option NativeObject → M L (Bytes × Option GoError)
  get_path volume =
      object_owned_string api volume "virStorageVolGetPath"
        λ p. call_ptr api "virStorageVolGetPath" (ptr p ∷ [])

  unfoldable get_xml_desc : Option NativeObject → ℕ → M L (Bytes × Option GoError)
  get_xml_desc volume flags =
      object_owned_string api volume "virStorageVolGetXMLDesc"
        λ p. call_ptr api "virStorageVolGetXMLDesc" (ptr p ∷ num (pos flags) ∷ [])

  unfoldable delete : Option NativeObject → ℕ → M L (Option GoError)
  delete volume flags =
      object_status api volume "virStorageVolDelete"
        λ p. call_int api "virStorageVolDelete" (ptr p ∷ num (pos flags) ∷ [])

  unfoldable wipe : Option NativeObject → ℕ → M L (Option GoError)
  wipe volume flags =
      object_status api volume "virStorageVolWipe"
        λ p. call_int api "virStorageVolWipe" (ptr p ∷ num (pos flags) ∷ [])

  unfoldable resize : Option NativeObject → ℕ → ℕ → M L (Option GoError)
  resize volume capacity flags =
      object_status api volume "virStorageVolResize"
        λ p. call_int api "virStorageVolResize" (ptr p ∷ num (pos capacity) ∷ num (pos flags) ∷ [])

  unfoldable get_info : Option NativeObject → M L (StorageVolInfo × Option GoError)
  get_info volume = do
    (info, e) ← object_call api [] volume "virStorageVolGetInfo" λ p. do
      r ← invoke api "virStorageVolGetInfo" (ptr p ∷ out ∷ [])
      pure (r.outs, is_negative (int32_of r.word))
    pure (storage_vol_info info e)

  unfoldable get_info_flags : Option NativeObject → ℕ → M L (StorageVolInfo × Option GoError)
  get_info_flags volume flags = do
    (info, e) ← object_call api [] volume "virStorageVolGetInfoFlags" λ p. do
      r ← invoke api "virStorageVolGetInfoFlags" (ptr p ∷ out ∷ num (pos flags) ∷ [])
      pure (r.outs, is_negative (int32_of r.word))
    pure (storage_vol_info info e)

-- ===== src/Handles/StoragePool.antt =====
-- storage.go: the operations of `StoragePool`, in the order of the file.
use libvirt_go.Resource.{
  NativeObject, object_call, Connect, object_free, object_status, handles_of, handle_of,
  object_borrowed_string, object_uuid_string, object_owned_string, object_bool, object_flag,
  connect_list_objects, connect_object_from_string, connect_object_from_xml, call_filling, call_out,
  status, with_text, reading, int32_of_bool, not_nil,
}
use libvirt_go.Prelude.{
  none, some, String, List, ℕ, Option, get_elem?, Bool, Bytes, [], ◌∷◌, false, if◌then◌else◌, ◌==◌,
  ◌||◌,
}
use libvirt_go.World.{◌>>=◌, pure, M}
use libvirt_go.Prelude.Int.{ℤ, pos, is_negative}
use libvirt_go.Native.{NativeApi, call_int, ptr, call_ptr, invoke, out, text, num, native_call}
use libvirt_go.Memory.{nil}
use libvirt_go.Prelude.Words.{int32_of}
use libvirt_go.Errors.{Result, GoError, closed, err}

-- `newStoragePool` gives its handles this kind.
abbrev kind : String
kind = "storage pool"

record StoragePoolInfo : Type 0 where
  state : ℤ
  capacity : ℕ
  allocation : ℕ
  available : ℕ

abbrev word_at : List ℕ → ℕ → ℕ
word_at ws i = elim (get_elem? ws i) [ some w ↦ w | none ↦ 0 ]

-- The words that a call wrote into a zeroed `cStoragePoolInfo`.
unfoldable pool_info : List ℕ → StoragePoolInfo
pool_info ws = record {
  state = int32_of (word_at ws 0);
  capacity = word_at ws 1;
  allocation = word_at ws 2;
  available = word_at ws 3;
}

module _ {L : Type 0} (api : NativeApi L) where
  unfoldable list_all_storage_pools : Option Connect → ℕ → M L (Result (List NativeObject))
  list_all_storage_pools c flags = handles_of kind (
      connect_list_objects api c "virConnectListAllStoragePools"
        λ p. call_out api "virConnectListAllStoragePools" (ptr p ∷ out ∷ num (pos flags) ∷ []))

  unfoldable lookup_storage_pool_by_name : Option Connect → Bytes → M L (Result NativeObject)
  lookup_storage_pool_by_name c name = handle_of kind (
      connect_object_from_string api c "storage pool name" name "virStoragePoolLookupByName"
        λ p b. call_ptr api "virStoragePoolLookupByName" (ptr p ∷ text b ∷ []))

  unfoldable lookup_storage_pool_by_uuid_string : Option Connect → Bytes → M L (Result NativeObject)
  lookup_storage_pool_by_uuid_string c uuid = handle_of kind (
      connect_object_from_string api c "storage pool UUID" uuid "virStoragePoolLookupByUUIDString"
        λ p b. call_ptr api "virStoragePoolLookupByUUIDString" (ptr p ∷ text b ∷ []))

  unfoldable lookup_storage_pool_by_target_path : Option Connect → Bytes → M L (Result NativeObject)
  lookup_storage_pool_by_target_path c path = handle_of kind (
      connect_object_from_string api c "storage pool target path" path
        "virStoragePoolLookupByTargetPath"
        λ p b. call_ptr api "virStoragePoolLookupByTargetPath" (ptr p ∷ text b ∷ []))

  unfoldable storage_pool_define_xml : Option Connect → Bytes → ℕ → M L (Result NativeObject)
  storage_pool_define_xml c xml flags = handle_of kind (
      connect_object_from_xml api c xml "virStoragePoolDefineXML" flags
        λ p b f. call_ptr api "virStoragePoolDefineXML" (ptr p ∷ text b ∷ num (pos f) ∷ []))

  unfoldable storage_pool_create_xml : Option Connect → Bytes → ℕ → M L (Result NativeObject)
  storage_pool_create_xml c xml flags = handle_of kind (
      connect_object_from_xml api c xml "virStoragePoolCreateXML" flags
        λ p b f. call_ptr api "virStoragePoolCreateXML" (ptr p ∷ text b ∷ num (pos f) ∷ []))

  unfoldable free : Option NativeObject → M L (Option GoError × Option NativeObject)
  free pool =
      object_free api pool "virStoragePoolFree" λ p. call_int api "virStoragePoolFree" (ptr p ∷ [])

  unfoldable get_name : Option NativeObject → M L (Bytes × Option GoError)
  get_name pool =
      object_borrowed_string api pool "virStoragePoolGetName"
        λ p. call_ptr api "virStoragePoolGetName" (ptr p ∷ [])

  unfoldable get_uuid_string : Option NativeObject → M L (Bytes × Option GoError)
  get_uuid_string pool =
      object_uuid_string api pool "virStoragePoolGetUUIDString"
        λ p. call_filling api "virStoragePoolGetUUIDString" (ptr p ∷ out ∷ [])

  unfoldable get_xml_desc : Option NativeObject → ℕ → M L (Bytes × Option GoError)
  get_xml_desc pool flags =
      object_owned_string api pool "virStoragePoolGetXMLDesc"
        λ p. call_ptr api "virStoragePoolGetXMLDesc" (ptr p ∷ num (pos flags) ∷ [])

  unfoldable is_active : Option NativeObject → M L (Bool × Option GoError)
  is_active pool =
      object_bool api pool "virStoragePoolIsActive"
        λ p. call_int api "virStoragePoolIsActive" (ptr p ∷ [])

  unfoldable is_persistent : Option NativeObject → M L (Bool × Option GoError)
  is_persistent pool =
      object_bool api pool "virStoragePoolIsPersistent"
        λ p. call_int api "virStoragePoolIsPersistent" (ptr p ∷ [])

  unfoldable get_autostart : Option NativeObject → M L (Bool × Option GoError)
  get_autostart pool =
      object_flag api pool "virStoragePoolGetAutostart"
        λ p. call_out api "virStoragePoolGetAutostart" (ptr p ∷ out ∷ [])

  unfoldable set_autostart : Option NativeObject → Bool → M L (Option GoError)
  set_autostart pool autostart =
      object_status api pool "virStoragePoolSetAutostart"
        λ p. call_int api "virStoragePoolSetAutostart" (ptr p ∷ num (int32_of_bool autostart) ∷ [])

  unfoldable create : Option NativeObject → ℕ → M L (Option GoError)
  create pool flags =
      object_status api pool "virStoragePoolCreate"
        λ p. call_int api "virStoragePoolCreate" (ptr p ∷ num (pos flags) ∷ [])

  unfoldable destroy : Option NativeObject → M L (Option GoError)
  destroy pool =
      object_status api pool "virStoragePoolDestroy"
        λ p. call_int api "virStoragePoolDestroy" (ptr p ∷ [])

  unfoldable undefine : Option NativeObject → M L (Option GoError)
  undefine pool =
      object_status api pool "virStoragePoolUndefine"
        λ p. call_int api "virStoragePoolUndefine" (ptr p ∷ [])

  unfoldable refresh : Option NativeObject → ℕ → M L (Option GoError)
  refresh pool flags =
      object_status api pool "virStoragePoolRefresh"
        λ p. call_int api "virStoragePoolRefresh" (ptr p ∷ num (pos flags) ∷ [])

  unfoldable num_of_storage_volumes : Option NativeObject → M L (ℤ × Option GoError)
  num_of_storage_volumes pool =
      object_call api (pos 0) pool "virStoragePoolNumOfVolumes"
        (status λ p. call_int api "virStoragePoolNumOfVolumes" (ptr p ∷ []))

  -- `StoragePoolInfo`, from the struct that the call filled field by field.
  unfoldable get_info : Option NativeObject → M L (StoragePoolInfo × Option GoError)
  get_info pool = do
    (info, e) ← object_call api [] pool "virStoragePoolGetInfo" λ p. do
      r ← invoke api "virStoragePoolGetInfo" (ptr p ∷ out ∷ [])
      pure (r.outs, is_negative (int32_of r.word))
    elim e [ some e' ↦ pure (pool_info [], some e') | none ↦ pure (pool_info info, none) ]

  unfoldable storage_vol_create_xml_from :
      Option NativeObject → Bytes → Option NativeObject → ℕ → M L (Result NativeObject)
  storage_vol_create_xml_from (some pool) xml (some source) flags = handle_of "storage volume" (
      with_text "storage volume XML" xml false λ b. reading (
        reading (
          if pool.ptr == nil || source.ptr == nil
          then pure (nil, some (closed "storage pool or source volume"))
          else native_call api nil "virStorageVolCreateXMLFrom" (
              not_nil
                (λ p.
                  call_ptr api "virStorageVolCreateXMLFrom"
                    (ptr p ∷ text b ∷ ptr source.ptr ∷ num (pos flags) ∷ []))
                pool.ptr))))
  storage_vol_create_xml_from _ xml _ flags = pure (err (closed "storage pool or source volume"))
